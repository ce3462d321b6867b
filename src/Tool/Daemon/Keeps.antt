-- ===== src/Tool/Daemon/Keeps.antt =====
-- What the daemon's operations keep of its status, and the error that a failed push leaves.
use tryxctl.Prelude.{
  ℕ, ◌≡◌, refl, ◌∙◌, Bool, ◌||◌, ◌++◌, Option, none, some, Result, ok, err, Bytes, Bool-cases, inl,
  inr, arith,
}
use tryxctl.Prelude.Text.{codes}
use tryxctl.Device.Product.{Product}
use tryxctl.Legacy.{LegacyError}
use tryxctl.Kanali.Errors.{KanaliError}
use tryxctl.Tool.{DeviceInfo, DisplayState, DaemonStatus, FanStatus, Sample}
use tryxctl.Tool.Platform.{
  Platform, Link, Backend, legacy_target, kanali_target, select_backend, monitor, utc_offset,
  apply_screen, set_fan_lcd, send_sysinfo, link_apply_state, link_adopt_state, link_push,
}
use tryxctl.Tool.Daemon
use tryxctl.Tool.Daemon.{
  Owned, legacy_client, kanali_link, open_backend, restore, push, describes_screen, wants_overlay,
  legacy_lost, kanali_lost,
}

module _ (p : Platform) where
  open p use {World, perform, legacy_text, kanali_text}

  named_connected :
      (client : ℕ) (status : DaemonStatus) (r : Result LegacyError DeviceInfo × World)
      → (Daemon.named p client status r).1.connected ≡ status.connected
  unfolding Daemon.named
  named_connected client status (ok device, w) = refl
  named_connected client status (err e, w) = refl

  opened_client_connected :
      (tty : Bytes) (status : DaemonStatus) (r : Result Bytes ℕ × World)
      → (Daemon.opened_client p tty status r).1.connected ≡ status.connected
  unfolding Daemon.opened_client
  opened_client_connected tty status (ok client, w) =
      named_connected client
        (record status { protocol = tryxctl.Tool.legacy_protocol; product = none; tty = tty }) _
  opened_client_connected tty status (err m, w) = refl

  opened_link_connected :
      (id : Bytes) (product : Product) (status : DaemonStatus) (r : Result Bytes Link × World)
      → (Daemon.opened_link p id product status r).1.connected ≡ status.connected
  unfolding Daemon.opened_link
  opened_link_connected id product status (ok link, w) = refl
  opened_link_connected id product status (err m, w) = refl

  opened_connected :
      (status : DaemonStatus) (r : Result Bytes Backend × World)
      → (Daemon.opened p status r).1.connected ≡ status.connected
  unfolding Daemon.opened
  opened_connected status (ok (legacy_target tty), w) = opened_client_connected tty status _
  opened_connected status (ok (kanali_target id product), w) =
      opened_link_connected id product status _
  opened_connected status (err m, w) = refl

  pub open_backend_connected :
      (status : DaemonStatus) (w : World) → (open_backend p status w).1.connected ≡ status.connected
  unfolding open_backend
  open_backend_connected status w = opened_connected status (perform select_backend w)

  noted_connected :
      {E A : Type 0} (what : Bytes) (text : E → Bytes) (r : Result E A) (status : DaemonStatus)
      → (Daemon.noted p what text r status).connected ≡ status.connected
  unfolding Daemon.noted
  noted_connected what text (ok a) status = refl
  noted_connected what text (err e) status = refl

  restore_screen_connected :
      (client : ℕ) (saved : DisplayState) (status : DaemonStatus) (w : World)
      → (Daemon.restore_screen p client saved status w).1.connected ≡ status.connected
  unfolding Daemon.restore_screen
  restore_screen_connected client saved status w = elim (Bool-cases (describes_screen saved)) [
    | inl yes_ ↦ simp yes_ (
        noted_connected (codes "restore: ") legacy_text (perform (apply_screen client saved) w).0.0
          status)
    | inr no_ ↦ simp no_ refl
  ]

  restore_fan_connected :
      (client : ℕ) (percent : Option ℕ) (status : DaemonStatus) (w : World)
      → (Daemon.restore_fan p client percent status w).0.connected ≡ status.connected
  unfolding Daemon.restore_fan
  restore_fan_connected client none status w = refl
  restore_fan_connected client (some percent) status w =
      noted_connected (codes "fan speed: ") legacy_text
        (perform (set_fan_lcd client (some percent)) w).0 status

  restore_link_connected :
      (link : ℕ) (saved : DisplayState) (status : DaemonStatus) (w : World)
      → (Daemon.restore_link p link saved status w).0.connected ≡ status.connected
  unfolding Daemon.restore_link
  restore_link_connected link saved status w =
      elim (Bool-cases (describes_screen saved || wants_overlay saved)) [
        | inl yes_ ↦ simp yes_ (
            noted_connected (codes "restore: ") (λ m. m) (perform (link_apply_state link saved) w).0
              status)
        | inr no_ ↦ simp no_ (
            noted_connected (codes "restore: ") (λ m. m) (perform (link_adopt_state link saved) w).0
              status)
      ]

  restored_connected :
      (owned : Owned) (saved : DisplayState) (status : DaemonStatus) (w : World)
      → (Daemon.restored p owned saved status w).1.connected ≡ status.connected
  unfolding Daemon.restored
  restored_connected (legacy_client client) saved status w =
      restore_fan_connected client _ _ _ ∙ restore_screen_connected client saved status w
  restored_connected (kanali_link link) saved status w =
      restore_link_connected link.handle saved status w

  pub restore_connected :
      (owned : Owned) (status : DaemonStatus) (w : World)
      → (restore p owned status w).0.connected ≡ status.connected
  unfolding restore
  restore_connected owned status w = restored_connected owned _ status _

  -- The text of a push that failed on a link: that of the error of its one call.
  pub data FailedPush : Owned → Bytes → Type 0 where
    by_client :
        (client : ℕ) (sample : Sample) (w : World) (e : LegacyError)
        → (perform (send_sysinfo client sample) w).0 ≡ err e
        → FailedPush (legacy_client client) (codes "push: " ++ legacy_text e)
    by_link :
        (link : Link) (sample : Sample) (w : World) (e : KanaliError)
        → (perform (link_push link.handle sample) w).0 ≡ err e
        → FailedPush (kanali_link link) (codes "push: " ++ kanali_text e)

  -- The status that a push leaves: still connected, and with the error of a push that failed.
  KeepsPush : Owned → DaemonStatus → Result Bool (Unit {0}) × DaemonStatus → Type 0
  KeepsPush owned status r =
      (r.1.connected ≡ status.connected)
      × ((dead : Bool)
          → r.0 ≡ err dead
          → (m : Bytes) × (r.1.last_error ≡ some m) × FailedPush owned m)

  pushed_keeps :
      {E A : Type 0} (text : E → Bytes) (lost : E → Bool) (r : Result E A) (status : DaemonStatus)
      {owned : Owned}
      → ((e : E) → r ≡ err e → FailedPush owned (codes "push: " ++ text e))
      → KeepsPush owned status (Daemon.pushed p text lost r status)
  unfolding KeepsPush Daemon.pushed
  pushed_keeps text lost (ok a) status why = (refl, λ dead h. absurd (ground (arith, h)))
  pushed_keeps text lost (err e) status why =
      (refl, λ dead h. (codes "push: " ++ text e, refl, why e refl))

  with_fans_connected :
      (r : Result LegacyError FanStatus) (status : DaemonStatus)
      → (Daemon.with_fans p r status).connected ≡ status.connected
  unfolding Daemon.with_fans
  with_fans_connected (ok fans) status = refl
  with_fans_connected (err e) status = refl

  push_keeps :
      (owned : Owned) (status : DaemonStatus) (w : World)
      → KeepsPush owned status ((push p owned status w).0, (push p owned status w).1)
  unfolding push KeepsPush
  push_keeps (legacy_client client) status w =
      let (sample, w) = perform monitor w in
      let (offset, w) = perform utc_offset w in
      let sample = Daemon.local_sample p offset sample in
      let before = w in
      let (result, w) = perform (send_sysinfo client sample) w in
      let status' = record (Daemon.with_fans p result status) { sample = some sample } in
      let (same, error) =
        pushed_keeps legacy_text legacy_lost result status' (by_client client sample before) in
      (same ∙ with_fans_connected result status, error)
  push_keeps (kanali_link link) status w =
      let (sample, w) = perform monitor w in
      let before = w in
      let (result, w) = perform (link_push link.handle sample) w in
      pushed_keeps kanali_text kanali_lost result (record status { sample = some sample })
        (by_link link sample before)

  pub push_connected :
      (owned : Owned) (status : DaemonStatus) (w : World)
      → (push p owned status w).1.connected ≡ status.connected
  unfolding KeepsPush
  push_connected owned status w = (push_keeps owned status w).0

  -- The error of a failed push is the last error.
  pub push_error :
      (owned : Owned) (status : DaemonStatus) (w : World) (dead : Bool)
      → (push p owned status w).0 ≡ err dead
      → (m : Bytes) × ((push p owned status w).1.last_error ≡ some m) × FailedPush owned m
  unfolding KeepsPush
  push_error owned status w = (push_keeps owned status w).1
