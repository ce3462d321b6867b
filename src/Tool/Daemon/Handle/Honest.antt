-- ===== src/Tool/Daemon/Handle/Honest.antt =====
-- What a reply of the daemon says about the link.
use tryxctl.Prelude.{
  ℕ, ◌≡◌, ◌≢◌, refl, Bool, true, false, Option, none, some, starts_with, Result, ok, err, Bytes,
  arith,
}
use tryxctl.Prelude.Text.{codes}
use tryxctl.Legacy.{LegacyError}
use tryxctl.Kanali.Errors.{KanaliError}
use tryxctl.Tool.{Info, Request, Reply, DaemonStatus}
use tryxctl.Tool.Platform.{Platform, Link}
use tryxctl.Tool.Daemon.{Owned, legacy_client, kanali_link, legacy_lost, kanali_lost}
use tryxctl.Tool.Daemon.Handle
use tryxctl.Tool.Daemon.Handle.{Served, conclude, handle}

-- Whether the daemon is asked for its status.
pub is_status : Request → Bool
is_status Request.status = true
is_status _ = false

-- A reply with which the link is gone is an error.
IsHonest : Reply × Bool → Type 0
IsHonest r = r.0.ok ≡ true → r.1 ≡ false

conclude_ok : (reply : Reply) (status : DaemonStatus) → IsHonest (conclude (ok reply) status).0
unfolding IsHonest conclude
conclude_ok reply status _ = refl

conclude_err :
    (message : Bytes) (lost : Bool) (status : DaemonStatus)
    → (lost ≡ true → starts_with message (codes "rebooting") ≡ false)
    → IsHonest (conclude (err (message, lost)) status).0
unfolding IsHonest conclude Handle.failure
conclude_err message true status h e = absurd (ground (arith, e, h refl))
conclude_err message false status h e = refl

module _ (p : Platform) where
  open p use {World, perform, legacy_text, kanali_text}

  -- The texts of the errors that end a link do not start like that of a reboot.
  pub record IsPlain : Type 0 where
    pub plain_legacy :
        (e : LegacyError)
        → legacy_lost e ≡ true
        → starts_with (legacy_text e) (codes "rebooting") ≡ false
    pub plain_kanali :
        (e : KanaliError)
        → kanali_lost e ≡ true
        → starts_with (kanali_text e) (codes "rebooting") ≡ false

  module _ (plain : IsPlain) where
    of_legacy-IsHonest :
        {A : Type 0} (reply : A → Reply) (r : Result LegacyError A) (status : DaemonStatus)
        → IsHonest (conclude (Handle.of_legacy p reply r) status).0
    unfolding Handle.of_legacy
    of_legacy-IsHonest reply (ok a) status = conclude_ok (reply a) status
    of_legacy-IsHonest reply (err e) status =
        conclude_err (legacy_text e) (legacy_lost e) status (plain.plain_legacy e)

    of_kanali-IsHonest :
        {A : Type 0} (reply : A → Reply) (r : Result KanaliError A) (status : DaemonStatus)
        → IsHonest (conclude (Handle.of_kanali p reply r) status).0
    unfolding Handle.of_kanali
    of_kanali-IsHonest reply (ok a) status = conclude_ok (reply a) status
    of_kanali-IsHonest reply (err e) status =
        conclude_err (kanali_text e) (kanali_lost e) status (plain.plain_kanali e)

    of_failure-IsHonest :
        (r : Result Bytes Bytes) (status : DaemonStatus)
        → IsHonest (conclude (Handle.of_failure r) status).0
    unfolding Handle.of_failure
    of_failure-IsHonest (ok word) status = conclude_ok _ status
    of_failure-IsHonest (err m) status =
        conclude_err m false status (λ e. absurd (ground (arith, e)))

    info-IsHonest :
        (i : Option Info) (status : DaemonStatus)
        → IsHonest (conclude (Handle.link_info_reply i) status).0
    unfolding Handle.link_info_reply
    info-IsHonest (some i) status = conclude_ok _ status
    info-IsHonest none status = conclude_err _ false status (λ e. absurd (ground (arith, e)))

    refused-IsHonest :
        (message : Bytes) (status : DaemonStatus)
        → IsHonest (conclude (err (message, false)) status).0
    refused-IsHonest message status =
        conclude_err message false status (λ e. absurd (ground (arith, e)))

    legacy-IsHonest :
        (client : ℕ) (request : Request) (status : DaemonStatus) (w : World)
        → request ≢ Request.reboot
        → (let (served, after, w') = Handle.serve_legacy p client request status w in
            IsHonest (conclude served after).0)
    unfolding Handle.serve_legacy Handle.not_on_legacy
    legacy-IsHonest client Request.status status w n = conclude_ok _ _
    legacy-IsHonest client Request.info status w n = of_legacy-IsHonest _ _ _
    legacy-IsHonest client (Request.apply state) status w n = of_legacy-IsHonest _ _ _
    legacy-IsHonest client (Request.brightness value) status w n = of_legacy-IsHonest _ _ _
    legacy-IsHonest client (Request.rotate degrees) status w n = of_legacy-IsHonest _ _ _
    legacy-IsHonest client Request.readback status w n = conclude_ok _ _
    legacy-IsHonest client (Request.delete_media names) status w n = of_legacy-IsHonest _ _ _
    legacy-IsHonest client (Request.fan_lcd percent) status w n = of_legacy-IsHonest _ _ _
    legacy-IsHonest client Request.reboot status w n = absurd (n refl)
    legacy-IsHonest client (Request.raw method command body true) status w n =
        of_legacy-IsHonest _ _ _
    legacy-IsHonest client (Request.raw method command body false) status w n =
        of_legacy-IsHonest _ _ _
    legacy-IsHonest client Request.catalog status w n = refused-IsHonest _ _
    legacy-IsHonest client (Request.upload path name) status w n = refused-IsHonest _ _

    kanali-IsHonest :
        (link : Link) (request : Request) (status : DaemonStatus) (w : World)
        → (let (served, after, w') = Handle.serve_kanali p link request status w in
            IsHonest (conclude served after).0)
    unfolding Handle.serve_kanali Handle.not_on_kanali
    kanali-IsHonest link Request.status status w = conclude_ok _ _
    kanali-IsHonest link Request.info status w = info-IsHonest _ _
    kanali-IsHonest link (Request.apply state) status w = of_failure-IsHonest _ _
    kanali-IsHonest link (Request.brightness value) status w = of_kanali-IsHonest _ _ _
    kanali-IsHonest link (Request.rotate degrees) status w = of_kanali-IsHonest _ _ _
    kanali-IsHonest link Request.readback status w = of_kanali-IsHonest _ _ _
    kanali-IsHonest link (Request.delete_media names) status w = of_kanali-IsHonest _ _ _
    kanali-IsHonest link Request.catalog status w = of_kanali-IsHonest _ _ _
    kanali-IsHonest link (Request.upload path name) status w = of_kanali-IsHonest _ _ _
    kanali-IsHonest link (Request.fan_lcd _) status w = refused-IsHonest _ _
    kanali-IsHonest link Request.reboot status w = refused-IsHonest _ _
    kanali-IsHonest link (Request.raw _ _ _ _) status w = refused-IsHonest _ _

    serve_owned-IsHonest :
        (owned : Option Owned) (request : Request) (status : DaemonStatus) (w : World)
        → request ≢ Request.reboot
        → IsHonest (Handle.serve_owned p owned request status w).0
    unfolding Handle.serve_owned Handle.serve IsHonest
    serve_owned-IsHonest none request status w n _ = refl
    serve_owned-IsHonest (some (legacy_client client)) request status w n e =
        legacy-IsHonest client request status w n e
    serve_owned-IsHonest (some (kanali_link link)) request status w n e =
        kanali-IsHonest link request status w e

    -- When a request other than a reboot is answered as a success, the link is not given up, provided
    -- that no error which ends a link has a text that starts like that of a reboot.
    pub handle-IsHonest :
        (owned : Option Owned) (request : Request) (status : DaemonStatus) (w : World)
        → request ≢ Request.reboot
        → (handle p owned request status w).0.0.ok ≡ true
        → (handle p owned request status w).0.1 ≡ false
    unfolding handle IsHonest
    handle-IsHonest owned Request.status status w n _ = refl
    handle-IsHonest owned request status w n e = serve_owned-IsHonest owned request status w n e

  -- Without a link, only a request for the status succeeds, and no request changes the status or
  -- reaches a device.
  pub handle_offline :
      (request : Request) (status : DaemonStatus) (w : World)
      → ((handle p none request status w).0.0.ok ≡ is_status request)
        × ((handle p none request status w).1 ≡ status)
        × ((handle p none request status w).2 ≡ w)
  unfolding handle is_status Handle.serve_owned
  handle_offline Request.status status w = (refl, refl, refl)
  handle_offline Request.info status w = (refl, refl, refl)
  handle_offline Request.reboot status w = (refl, refl, refl)
  handle_offline Request.catalog status w = (refl, refl, refl)
  handle_offline Request.readback status w = (refl, refl, refl)
  handle_offline (Request.apply _) status w = (refl, refl, refl)
  handle_offline (Request.brightness _) status w = (refl, refl, refl)
  handle_offline (Request.delete_media _) status w = (refl, refl, refl)
  handle_offline (Request.fan_lcd _) status w = (refl, refl, refl)
  handle_offline (Request.raw _ _ _ _) status w = (refl, refl, refl)
  handle_offline (Request.upload _ _) status w = (refl, refl, refl)
  handle_offline (Request.rotate _) status w = (refl, refl, refl)
