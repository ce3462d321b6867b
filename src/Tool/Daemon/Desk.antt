-- ===== src/Tool/Daemon/Desk.antt =====
-- A desk with a KANALI display that may be absent, and whose link may be dead: the calls of the
-- daemon answered for its tests.
use tryxctl.Prelude.{ℕ, ◌+◌, Bool, true, false, none, [], Result, ok, err, if◌then◌else◌, arith}
use tryxctl.Prelude.Text.{codes}
use tryxctl.Device.Product.{panorama}
use tryxctl.Legacy.{LegacyError, adb_missing}
use tryxctl.Kanali.Transport.{TransportError}
use tryxctl.Kanali.Errors.{KanaliError}
use tryxctl.Tool.{default_screen, DisplayState}
use tryxctl.Tool.Platform.{
  Platform, Call, Answer, Link, kanali_target, timeout, select_backend, open_client, handshake,
  sleep, open_link, load, monitor, utc_offset, save, apply_screen, set_fan_lcd, set_brightness,
  set_rotation, delete_media, reboot, request_with, send_with, send_sysinfo, link_apply_state,
  link_adopt_state, link_keepalive, link_push, link_brightness, link_apply, link_display_state,
  link_delete, link_catalog, link_upload, receive, send_reply,
}

pub record Desk : Type 0 where
  pub clock : ℕ
  pub attached : Bool
  pub alive : Bool

abbrev pub saved : DisplayState
saved = record {
  screen = default_screen;
  brightness = none;
  cpu_name = none;
  gpu_name = none;
  temperature_unit = none;
  fan_lcd_percent = none;
  rotation = none;
}

abbrev pub legacy_answer : {A : Type 0} → Result LegacyError A
legacy_answer = err adb_missing

abbrev pub link_answer : {A : Type 0} → Bool → A → Result KanaliError A
link_answer true a = ok a
link_answer false a = err (KanaliError.transport TransportError.disconnected)

abbrev pub no_answer : {A : Type 0} → Result KanaliError A
no_answer = err (KanaliError.unsupported "here")

abbrev pub the_link : Link
the_link = record { handle = 7; info = none }

abbrev pub answer : Desk → (c : Call) → Answer c
answer desk select_backend =
    if desk.attached
    then ok (kanali_target (codes "1-4") panorama)
    else err (codes "no display connected")
answer desk (open_client _) = err (codes "no port")
answer desk (handshake _) = legacy_answer
answer desk (sleep _) = tt
answer desk (open_link _) = ok the_link
answer desk load = saved
answer desk monitor = record { timestamp_ms = 5; readings = [] }
answer desk utc_offset = 0
answer desk (save _) = tt
answer desk (apply_screen _ state) = (legacy_answer, state)
answer desk (set_fan_lcd _ _) = legacy_answer
answer desk (set_brightness _ _) = legacy_answer
answer desk (set_rotation _ _) = legacy_answer
answer desk (delete_media _ _) = legacy_answer
answer desk (reboot _) = legacy_answer
answer desk (request_with _ _ _ _) = legacy_answer
answer desk (send_with _ _ _ _) = legacy_answer
answer desk (send_sysinfo _ _) = legacy_answer
answer desk (link_apply_state _ _) = ok (codes "applied")
answer desk (link_adopt_state _ _) = ok tt
answer desk (link_keepalive _) = link_answer desk.alive tt
answer desk (link_push _ _) = link_answer desk.alive tt
answer desk (link_brightness _ _) = no_answer
answer desk (link_apply _ _) = no_answer
answer desk (link_display_state _) = no_answer
answer desk (link_delete _ _) = no_answer
answer desk (link_catalog _) = no_answer
answer desk (link_upload _ _ _) = no_answer
answer desk (receive _) = (timeout, 0)
answer desk (send_reply _) = tt

abbrev pub elapsed : Call → ℕ
elapsed (receive wait) = wait
elapsed _ = 1000000

abbrev pub desk_platform : Platform
desk_platform = record {
  World = Desk;
  now = λ desk. desk.clock;
  perform = λ c desk. (answer desk c, record desk { clock = desk.clock + elapsed c });
  legacy_text = λ _. codes "failed";
  kanali_text = λ _. codes "failed";
  json_text = λ t. t;
  ticks = λ c desk. omega arith;
  waits = λ wait desk h. omega arith;
}
