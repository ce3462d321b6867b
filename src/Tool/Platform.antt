-- ===== src/Tool/Platform.antt =====
-- What the daemon of crates/tryxctl/src/daemon.rs calls: the displays, the saved state, the monitor,
-- the clock and the channel of its requests. A call is a value here, and the world answers it; a
-- duration is a number of nanoseconds.
use tryxctl.Prelude.{ℕ, ◌+◌, ◌≡◌, ◌≤◌, Option, List, Result, Bytes}
use tryxctl.Device.Product.{Product}
use tryxctl.Legacy.{LegacyError}
use tryxctl.Legacy.Frame.{Response}
use tryxctl.Kanali.Wire.{DeviceInformation}
use tryxctl.Kanali.Errors.{KanaliError}
use tryxctl.Kanali.Device
use tryxctl.Kanali.Device.{Catalog, Change}
use tryxctl.Tool.{DeviceInfo, DisplayState, Sample, FanStatus, Request, Reply}

-- An open port or USB session.
abbrev pub Handle : Type 0
Handle = ℕ

pub data Backend : Type 0 where
  legacy_target : (tty : Bytes) → Backend
  kanali_target : (id : Bytes) (product : Product) → Backend

pub record Link : Type 0 where
  pub handle : Handle
  pub info : Option DeviceInformation

-- What `recv_timeout` returns.
pub data Received : Type 0 where
  message : Request → Received
  timeout disconnected : Received

pub data Call : Type 0 where
  select_backend : Call
  open_client : (tty : Bytes) → Call
  handshake : Handle → Call
  sleep : ℕ → Call
  open_link : (id : Bytes) → Call
  load monitor utc_offset : Call
  save : DisplayState → Call
  apply_screen : Handle → DisplayState → Call
  set_fan_lcd : Handle → Option ℕ → Call
  set_brightness : Handle → ℕ → Call
  set_rotation : Handle → ℕ → Call
  delete_media : Handle → List Bytes → Call
  reboot : Handle → Call
  request_with : Handle → (method command body : Bytes) → Call
  send_with : Handle → (method command body : Bytes) → Call
  send_sysinfo : Handle → Sample → Call
  link_apply_state : Handle → DisplayState → Call
  link_adopt_state : Handle → DisplayState → Call
  link_keepalive : Handle → Call
  link_push : Handle → Sample → Call
  link_brightness : Handle → ℕ → Call
  link_apply : Handle → Change → Call
  link_display_state : Handle → Call
  link_delete : Handle → Bytes → Call
  link_catalog : Handle → Call
  link_upload : Handle → (path name : Bytes) → Call
  receive : (wait : ℕ) → Call
  send_reply : Reply → Call

-- A failure is its message. `receive` also tells by how much the wait overran on the wall clock.
abbrev pub Answer : Call → Type 0
Answer select_backend = Result Bytes Backend
Answer (open_client _) = Result Bytes Handle
Answer (handshake _) = Result LegacyError DeviceInfo
Answer (sleep _) = Unit
Answer (open_link _) = Result Bytes Link
Answer load = DisplayState
Answer monitor = Sample
Answer utc_offset = ℕ
Answer (save _) = Unit
Answer (apply_screen _ _) = Result LegacyError (Response Bytes) × DisplayState
Answer (set_fan_lcd _ _) = Result LegacyError (Response Bytes)
Answer (set_brightness _ _) = Result LegacyError (Response Bytes)
Answer (set_rotation _ _) = Result LegacyError (Response Bytes)
Answer (delete_media _ _) = Result LegacyError (Response Bytes)
Answer (reboot _) = Result LegacyError (Response Bytes)
Answer (request_with _ _ _ _) = Result LegacyError (Response Bytes)
Answer (send_with _ _ _ _) = Result LegacyError (Unit {0})
Answer (send_sysinfo _ _) = Result LegacyError FanStatus
Answer (link_apply_state _ _) = Result Bytes Bytes
Answer (link_adopt_state _ _) = Result Bytes (Unit {0})
Answer (link_keepalive _) = Result KanaliError (Unit {0})
Answer (link_push _ _) = Result KanaliError (Unit {0})
Answer (link_brightness _ _) = Result KanaliError Device.DisplayState
Answer (link_apply _ _) = Result KanaliError Device.DisplayState
Answer (link_display_state _) = Result KanaliError Device.DisplayState
Answer (link_delete _ _) = Result KanaliError (Unit {0})
Answer (link_catalog _) = Result KanaliError Catalog
Answer (link_upload _ _ _) = Result KanaliError (Unit {0})
Answer (receive _) = Received × ℕ
Answer (send_reply _) = Unit

-- The texts of the errors are those that a macro derives, and `json_text` is a text as JSON. The clock is monotonic, and a wait that
-- times out has lasted as long as it was told.
pub record Platform : Type 1 where
  pub World : Type 0
  pub now : World → ℕ
  pub perform : (c : Call) → World → Answer c × World
  pub legacy_text : LegacyError → Bytes
  pub kanali_text : KanaliError → Bytes
  pub json_text : Bytes → Bytes
  pub ticks : (c : Call) (w : World) → now w ≤ now (perform c w).1
  pub waits :
      (wait : ℕ) (w : World)
      → (perform (receive wait) w).0.0 ≡ timeout
      → now w + wait ≤ now (perform (receive wait) w).1
