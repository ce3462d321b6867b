-- ===== src/Tool/Daemon/Handle/Answers.antt =====
-- What holds of every request that the daemon answers.
use tryxctl.Prelude.{
  ℕ, ◌≡◌, ◌≤◌, refl, ◌∙◌, Bool, true, false, Option, none, some, List, [], ◌∷◌, Result, ok, err,
  Bytes, arith,
}
use tryxctl.Legacy.{LegacyError}
use tryxctl.Tool.{DeviceInfo, DisplayState, Request, DaemonStatus}
use tryxctl.Tool.Platform.{
  Platform, Link, handshake, load, save, apply_screen, set_fan_lcd, set_brightness, set_rotation,
  delete_media, reboot, request_with, send_with, link_apply_state, link_brightness, link_apply,
  link_display_state, link_delete, link_catalog, link_upload,
}
use tryxctl.Tool.Daemon.{Owned, legacy_client, kanali_link}
use tryxctl.Tool.Daemon.Clock.{le_trans, two_ticks}
use tryxctl.Tool.Daemon.Handle
use tryxctl.Tool.Daemon.Handle.{Served, conclude, handle}

failure_lost :
    (m : Bytes) (lost : Bool)
    → (Handle.failure m lost).1 ≡ true
    → Handle.failure m lost ≡ Handle.failure m true
unfolding Handle.failure
failure_lost m true h = refl
failure_lost m false h = absurd (ground (arith, h))

-- A failure leaves the message of its reply as the last error.
conclude_error :
    (served : Served) (status : DaemonStatus)
    → (conclude served status).0.1 ≡ true
    → (m : Bytes) × ((conclude served status).1.last_error ≡ some m)
      × ((conclude served status).0 ≡ Handle.failure m true)
unfolding conclude
conclude_error (ok reply) status h = absurd (ground (arith, h))
conclude_error (err (message, lost)) status h = (message, refl, failure_lost message lost h)

conclude_connected :
    (served : Served) (status : DaemonStatus)
    → (conclude served status).1.connected ≡ status.connected
unfolding conclude
conclude_connected (ok reply) status = refl
conclude_connected (err e) status = refl

module _ (p : Platform) where
  open p use {World, now, perform, ticks}

  -- The link stays as it was, and the clock does not go back.
  Steady : DaemonStatus → World → DaemonStatus × World → Type 0
  Steady status w r = (r.0.connected ≡ status.connected) × (now w ≤ now r.1)

  with_info_connected :
      (r : Result LegacyError DeviceInfo) (status : DaemonStatus)
      → (Handle.with_info p r status).connected ≡ status.connected
  unfolding Handle.with_info
  with_info_connected (ok device) status = refl
  with_info_connected (err e) status = refl

  applied-Steady :
      {E A : Type 0} (r : Result E A) (state : DisplayState) (status : DaemonStatus) (w : World)
      → Steady status w (Handle.applied p r state status w)
  unfolding Steady Handle.applied
  applied-Steady (ok a) state status w = (refl, ticks (save state) w)
  applied-Steady (err e) state status w = (refl, omega arith)

  either_ticks :
      {E A : Type 0} (w : World) (r : Result E A) (rest : Result E A × World) (after : World)
      → now w ≤ now rest.1
      → now w ≤ now after
      → now w ≤ now (Handle.or_stop r rest after).1
  unfolding Handle.or_stop
  either_ticks w (ok a) rest after h k = h
  either_ticks w (err e) rest after h k = k

  one_of_ticks :
      {E A : Type 0} (w : World) (r : Result E A) (u v : World)
      → now w ≤ now u
      → now w ≤ now v
      → now w ≤ now (Handle.one_of r u v)
  unfolding Handle.one_of
  one_of_ticks w (ok a) u v h k = h
  one_of_ticks w (err e) u v h k = k

  delete_all_ticks :
      (link : ℕ) (names : List Bytes) (w : World) → now w ≤ now (Handle.delete_all p link names w).1
  unfolding Handle.delete_all
  delete_all_ticks link [] w = omega arith
  delete_all_ticks link (name ∷ names) w =
      let (result, after) = perform (link_delete link name) w in
      let step = ticks (link_delete link name) w in
      either_ticks w result (Handle.delete_all p link names after) after
        (le_trans (now w) _ _ step (delete_all_ticks link names after)) step

  serve_legacy-Steady :
      (client : ℕ) (request : Request) (status : DaemonStatus) (w : World)
      → Steady status w (
        (Handle.serve_legacy p client request status w).1,
        (Handle.serve_legacy p client request status w).2,
      )
  unfolding Steady Handle.serve_legacy
  serve_legacy-Steady client Request.status status w = (refl, omega arith)
  serve_legacy-Steady client Request.info status w =
      (with_info_connected _ status, ticks (handshake client) w)
  serve_legacy-Steady client (Request.apply state) status w =
      let ((r, after), w') = perform (apply_screen client state) w in
      let (same, step) = applied-Steady r after status w' in
      (same, le_trans (now w) _ _ (ticks (apply_screen client state) w) step)
  serve_legacy-Steady client (Request.brightness value) status w =
      (refl, ticks (set_brightness client value) w)
  serve_legacy-Steady client (Request.rotate degrees) status w =
      (refl, ticks (set_rotation client degrees) w)
  serve_legacy-Steady client Request.readback status w = (refl, ticks load w)
  serve_legacy-Steady client (Request.delete_media names) status w =
      (refl, ticks (delete_media client names) w)
  serve_legacy-Steady client (Request.fan_lcd percent) status w =
      (refl, ticks (set_fan_lcd client percent) w)
  serve_legacy-Steady client Request.reboot status w = (refl, ticks (reboot client) w)
  serve_legacy-Steady client (Request.raw method command body true) status w =
      (refl, ticks (request_with client method command body) w)
  serve_legacy-Steady client (Request.raw method command body false) status w =
      (refl, ticks (send_with client method command body) w)
  serve_legacy-Steady client Request.catalog status w = (refl, omega arith)
  serve_legacy-Steady client (Request.upload path name) status w = (refl, omega arith)

  serve_kanali-Steady :
      (link : Link) (request : Request) (status : DaemonStatus) (w : World)
      → Steady status w (
        (Handle.serve_kanali p link request status w).1,
        (Handle.serve_kanali p link request status w).2,
      )
  unfolding Steady Handle.serve_kanali
  serve_kanali-Steady link Request.status status w = (refl, omega arith)
  serve_kanali-Steady link Request.info status w = (refl, omega arith)
  serve_kanali-Steady link (Request.apply state) status w =
      let (r, w') = perform (link_apply_state link.handle state) w in
      let (same, step) = applied-Steady r state status w' in
      (same, le_trans (now w) _ _ (ticks (link_apply_state link.handle state) w) step)
  serve_kanali-Steady link (Request.brightness value) status w =
      (refl, ticks (link_brightness link.handle value) w)
  serve_kanali-Steady link (Request.rotate degrees) status w =
      (refl, ticks (link_apply link.handle _) w)
  serve_kanali-Steady link Request.readback status w = (
    refl,
    one_of_ticks w _ _ _ (two_ticks p (link_display_state link.handle) load w)
        (ticks (link_display_state link.handle) w),
  )
  serve_kanali-Steady link (Request.delete_media names) status w =
      (refl, delete_all_ticks link.handle names w)
  serve_kanali-Steady link Request.catalog status w = (refl, ticks (link_catalog link.handle) w)
  serve_kanali-Steady link (Request.upload path name) status w =
      (refl, ticks (link_upload link.handle path name) w)
  serve_kanali-Steady link (Request.fan_lcd _) status w = (refl, omega arith)
  serve_kanali-Steady link Request.reboot status w = (refl, omega arith)
  serve_kanali-Steady link (Request.raw _ _ _ _) status w = (refl, omega arith)

  serve-Steady :
      (owned : Owned) (request : Request) (status : DaemonStatus) (w : World)
      → Steady status w
          ((Handle.serve p owned request status w).1, (Handle.serve p owned request status w).2)
  unfolding Handle.serve
  serve-Steady (legacy_client client) request status w = serve_legacy-Steady client request status w
  serve-Steady (kanali_link link) request status w = serve_kanali-Steady link request status w

  serve_owned-Steady :
      (owned : Option Owned) (request : Request) (status : DaemonStatus) (w : World)
      → Steady status w (
        (Handle.serve_owned p owned request status w).1,
        (Handle.serve_owned p owned request status w).2,
      )
  unfolding Steady Handle.serve_owned
  serve_owned-Steady none request status w = (refl, omega arith)
  serve_owned-Steady (some owned) request status w =
      let (same, step) = serve-Steady owned request status w in
      (conclude_connected (Handle.serve p owned request status w).0 _ ∙ same, step)

  handle-Steady :
      (owned : Option Owned) (request : Request) (status : DaemonStatus) (w : World)
      → Steady status w ((handle p owned request status w).1, (handle p owned request status w).2)
  unfolding Steady handle
  handle-Steady owned Request.status status w = (refl, omega arith)
  handle-Steady owned request status w = serve_owned-Steady owned request status w

  pub handle_connected :
      (owned : Option Owned) (request : Request) (status : DaemonStatus) (w : World)
      → (handle p owned request status w).1.connected ≡ status.connected
  unfolding Steady
  handle_connected owned request status w = (handle-Steady owned request status w).0

  pub handle_ticks :
      (owned : Option Owned) (request : Request) (status : DaemonStatus) (w : World)
      → now w ≤ now (handle p owned request status w).2
  unfolding Steady
  handle_ticks owned request status w = (handle-Steady owned request status w).1

  serve_owned_lost :
      (owned : Option Owned) (request : Request) (status : DaemonStatus) (w : World)
      → (Handle.serve_owned p owned request status w).0.1 ≡ true
      → (m : Bytes) × ((Handle.serve_owned p owned request status w).1.last_error ≡ some m)
        × ((Handle.serve_owned p owned request status w).0 ≡ Handle.failure m true)
  unfolding Handle.serve_owned
  serve_owned_lost none request status w h = absurd (ground (arith, h))
  serve_owned_lost (some owned) request status w h = conclude_error _ _ h

  -- A request that finds the link dead leaves the error that its reply tells.
  pub handle_lost :
      (owned : Option Owned) (request : Request) (status : DaemonStatus) (w : World)
      → (handle p owned request status w).0.1 ≡ true
      → (m : Bytes) × ((handle p owned request status w).1.last_error ≡ some m)
        × ((handle p owned request status w).0 ≡ Handle.failure m true)
  unfolding handle
  handle_lost owned Request.status status w h = absurd (ground (arith, h))
  handle_lost owned request status w h = serve_owned_lost owned request status w h

  -- Without a link, no request finds a link dead.
  pub handle_missing :
      (request : Request) (status : DaemonStatus) (w : World)
      → (handle p none request status w).0.1 ≡ false
  unfolding handle Handle.serve_owned
  handle_missing Request.status status w = refl
  handle_missing request status w = refl
