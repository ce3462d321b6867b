-- ===== src/Tool/Daemon/Handle/Tests.antt =====
-- Requests that the daemon answers on a desk.
use tryxctl.Prelude.{◌≡◌, refl, true, false, none, some, [], starts_with, arith}
use tryxctl.Tool.{DaemonStatus, Request, legacy_protocol, no_fans, default_screen}
use tryxctl.Tool.Daemon.{kanali_link}
use tryxctl.Tool.Daemon.Desk.{Desk, saved, the_link, desk_platform}
use tryxctl.Tool.Daemon.Handle
use tryxctl.Tool.Daemon.Handle.{handle}
use tryxctl.Tool.Daemon.Handle.Honest.{IsPlain, handle-IsHonest}

abbrev here : Desk
here = record { clock = 9000000000; attached = true; alive = true }

abbrev idle : DaemonStatus
idle = record {
  protocol = legacy_protocol;
  product = none;
  tty = [];
  connected = false;
  reconnects = 0;
  started_unix = 1700000000;
  interval = 2;
  pushes = 0;
  info = none;
  sample = none;
  fans = no_fans;
  screen = default_screen;
  last_error = none;
}

plain_texts : IsPlain desk_platform
unfolding starts_with
plain_texts = record { plain_legacy = λ e h. refl; plain_kanali = λ e h. refl }

adopts :
    (handle desk_platform (some (kanali_link the_link)) (Request.apply saved) idle here).0.0.ok
    ≡ true
unfolding handle Handle.conclude
adopts = refl

handle-IsHonest_example :
    (handle desk_platform (some (kanali_link the_link)) (Request.apply saved) idle here).0.1 ≡ false
handle-IsHonest_example =
    handle-IsHonest desk_platform plain_texts (some (kanali_link the_link)) (Request.apply saved)
      idle here (λ e. absurd (ground (arith, e))) adopts
