-- ===== src/Tool/Daemon/Clock.antt =====
-- The clock does not go back while the daemon opens the display, restores the screen or pushes.
use tryxctl.Prelude.{
  ℕ, ◌*◌, ◌≤◌, ◌||◌, Option, none, some, equal, Result, ok, err, Bytes, Bool-cases, inl, inr, arith,
}
use tryxctl.Prelude.Text.{codes}
use tryxctl.Device.Product.{Product}
use tryxctl.Legacy.{LegacyError}
use tryxctl.Tool.{DeviceInfo, DisplayState, DaemonStatus}
use tryxctl.Tool.Platform.{
  Platform, Call, Link, Backend, legacy_target, kanali_target, select_backend, open_client,
  handshake, sleep, open_link, load, monitor, utc_offset, save, apply_screen, set_fan_lcd,
  link_apply_state, link_adopt_state,
}
use tryxctl.Tool.Daemon
use tryxctl.Tool.Daemon.{
  Owned, legacy_client, kanali_link, open_backend, restore, push, describes_screen, wants_overlay,
}

pub le_trans : (a b c : ℕ) → a ≤ b → b ≤ c → a ≤ c
le_trans a b c h k = omega arith

module _ (p : Platform) where
  open p use {World, now, perform, ticks}

  -- Two calls, one after the other.
  pub two_ticks : (c d : Call) (w : World) → now w ≤ now (perform d (perform c w).1).1
  two_ticks c d w = le_trans (now w) (now (perform c w).1) _ (ticks c w) (ticks d (perform c w).1)

  identified_ticks :
      (client : ℕ) (device : DeviceInfo) (w : World)
      → now w ≤ now (Daemon.identified p client device w).1
  unfolding Daemon.identified
  identified_ticks client device w = elim (Bool-cases (equal device.product_id (codes "unknown"))) [
    | inl yes_ ↦ simp yes_ (two_ticks (sleep (300 * 1000000)) (handshake client) w)
    | inr no_ ↦ simp no_ (omega arith)
  ]

  greeted_ticks :
      (client : ℕ) (r : Result LegacyError DeviceInfo × World)
      → now r.1 ≤ now (Daemon.greeted p client r).1
  unfolding Daemon.greeted
  greeted_ticks client (ok device, w) = identified_ticks client device w
  greeted_ticks client (err e, w) = omega arith

  named_ticks :
      (client : ℕ) (status : DaemonStatus) (r : Result LegacyError DeviceInfo × World)
      → now r.1 ≤ now (Daemon.named p client status r).2
  unfolding Daemon.named
  named_ticks client status (ok device, w) = omega arith
  named_ticks client status (err e, w) = omega arith

  opened_client_ticks :
      (tty : Bytes) (status : DaemonStatus) (r : Result Bytes ℕ × World)
      → now r.1 ≤ now (Daemon.opened_client p tty status r).2
  unfolding Daemon.opened_client
  opened_client_ticks tty status (ok client, w) =
      let reply = perform (handshake client) w in
      let met = Daemon.greeted p client reply in
      ground (
        arith,
        ticks (handshake client) w,
        greeted_ticks client reply,
        named_ticks client
            (record status { protocol = tryxctl.Tool.legacy_protocol; product = none; tty = tty })
            met,
      )
  opened_client_ticks tty status (err m, w) = omega arith

  opened_link_ticks :
      (id : Bytes) (product : Product) (status : DaemonStatus) (r : Result Bytes Link × World)
      → now r.1 ≤ now (Daemon.opened_link p id product status r).2
  unfolding Daemon.opened_link
  opened_link_ticks id product status (ok link, w) = omega arith
  opened_link_ticks id product status (err m, w) = omega arith

  opened_ticks :
      (status : DaemonStatus) (r : Result Bytes Backend × World)
      → now r.1 ≤ now (Daemon.opened p status r).2
  unfolding Daemon.opened
  opened_ticks status (ok (legacy_target tty), w) =
      le_trans (now w) _ _ (ticks (open_client tty) w)
        (opened_client_ticks tty status (perform (open_client tty) w))
  opened_ticks status (ok (kanali_target id product), w) =
      le_trans (now w) _ _ (ticks (open_link id) w)
        (opened_link_ticks id product status (perform (open_link id) w))
  opened_ticks status (err m, w) = omega arith

  pub open_backend_ticks :
      (status : DaemonStatus) (w : World) → now w ≤ now (open_backend p status w).2
  unfolding open_backend
  open_backend_ticks status w =
      le_trans (now w) _ _ (ticks select_backend w) (opened_ticks status (perform select_backend w))

  restore_screen_ticks :
      (client : ℕ) (saved : DisplayState) (status : DaemonStatus) (w : World)
      → now w ≤ now (Daemon.restore_screen p client saved status w).2
  unfolding Daemon.restore_screen
  restore_screen_ticks client saved status w = elim (Bool-cases (describes_screen saved)) [
    | inl yes_ ↦ simp yes_ (ticks (apply_screen client saved) w)
    | inr no_ ↦ simp no_ (omega arith)
  ]

  restore_fan_ticks :
      (client : ℕ) (percent : Option ℕ) (status : DaemonStatus) (w : World)
      → now w ≤ now (Daemon.restore_fan p client percent status w).1
  unfolding Daemon.restore_fan
  restore_fan_ticks client none status w = omega arith
  restore_fan_ticks client (some percent) status w = ticks (set_fan_lcd client (some percent)) w

  restore_link_ticks :
      (link : ℕ) (saved : DisplayState) (status : DaemonStatus) (w : World)
      → now w ≤ now (Daemon.restore_link p link saved status w).1
  unfolding Daemon.restore_link
  restore_link_ticks link saved status w =
      elim (Bool-cases (describes_screen saved || wants_overlay saved)) [
        | inl yes_ ↦ simp yes_ (ticks (link_apply_state link saved) w)
        | inr no_ ↦ simp no_ (ticks (link_adopt_state link saved) w)
      ]

  restored_ticks :
      (owned : Owned) (saved : DisplayState) (status : DaemonStatus) (w : World)
      → now w ≤ now (Daemon.restored p owned saved status w).2
  unfolding Daemon.restored
  restored_ticks (legacy_client client) saved status w =
      let (applied, after, w') = Daemon.restore_screen p client saved status w in
      le_trans (now w) _ _ (restore_screen_ticks client saved status w)
        (restore_fan_ticks client applied.fan_lcd_percent after w')
  restored_ticks (kanali_link link) saved status w = restore_link_ticks link.handle saved status w

  pub restore_ticks :
      (owned : Owned) (status : DaemonStatus) (w : World) → now w ≤ now (restore p owned status w).1
  unfolding restore
  restore_ticks owned status w =
      let (saved, w') = perform load w in
      let (saved', status', w'') = Daemon.restored p owned saved status w' in
      le_trans (now w) _ _ (ticks load w)
        (le_trans (now w') _ _ (restored_ticks owned saved status w') (ticks (save saved') w''))

  pub push_ticks :
      (owned : Owned) (status : DaemonStatus) (w : World) → now w ≤ now (push p owned status w).2
  unfolding push
  push_ticks (legacy_client client) status w =
      le_trans (now w) _ _ (two_ticks monitor utc_offset w) (ticks _ _)
  push_ticks (kanali_link link) status w = le_trans (now w) _ _ (ticks monitor w) (ticks _ _)
