-- ===== src/Tool/Daemon/Loop/Tests.antt =====
-- The daemon on a desk: the display is found, kept, and lost.
use tryxctl.Prelude.{◌+◌, ◌-◌, ◌≡◌, ◌<◌, refl, true, false, Option, none, some, ok}
use tryxctl.Tool.Platform.{timeout}
use tryxctl.Tool.Daemon
use tryxctl.Tool.Daemon.Desk.{Desk, the_link, desk_platform}
use tryxctl.Tool.Daemon.{Owned, kanali_link}
use tryxctl.Tool.Daemon.Loop.{Daemon, next_instant, start, iterate}
use tryxctl.Tool.Daemon.Loop.Sound.{IsSound}
use tryxctl.Tool.Daemon.Loop.Reach.{started, iterated, Reach-IsSound}
use tryxctl.Tool.Daemon.Loop.Refines.{Move, view, iterate-Move}
use tryxctl.Tool.Daemon.Loop.Rests.{HasError, iterate-HasError, iterate_rests}

abbrev daemon_of : Option Daemon → Daemon → Daemon
daemon_of none d = d
daemon_of (some d) _ = d

abbrev absent : Desk
absent = record { clock = 0; attached = false; alive = true }

abbrev back : Desk
back = record { clock = 9000000000; attached = true; alive = true }

abbrev dead : Desk
dead = record { clock = 9000000000; attached = true; alive = false }

abbrev waiting : Daemon
waiting = (start desk_platform 2 1700000000 absent).0

abbrev holding : Daemon
holding = daemon_of (iterate desk_platform 2 waiting back).0 waiting

-- The daemon after a wait on a link that is dead.
abbrev dropped : Daemon
dropped = daemon_of (iterate desk_platform 2 holding dead).0 holding

-- The daemon after a wait on a link that answers.
abbrev steady : Daemon
steady = daemon_of (iterate desk_platform 2 holding back).0 holding

found :
    (Daemon.open_backend desk_platform waiting.status
      (record back { clock = 9000000000 + (next_instant waiting - 9000000000) })).0
    ≡ ok (kanali_link the_link)
unfolding Daemon.open_backend
found = refl

waited : (iterate desk_platform 2 waiting back).0 ≡ some holding
unfolding start iterate Daemon.open_backend next_instant
waited = refl

holds : holding.owned ≡ some (kanali_link the_link)
unfolding start iterate Daemon.open_backend
holds = refl

loses : (iterate desk_platform 2 holding dead).0 ≡ some dropped
unfolding start iterate Daemon.open_backend next_instant
loses = refl

lost : dropped.owned ≡ none
unfolding start iterate Daemon.open_backend next_instant Daemon.kanali_lost
lost = refl

keeps : (iterate desk_platform 2 holding back).0 ≡ some steady
unfolding start iterate Daemon.open_backend next_instant
keeps = refl

still :
    (iterate desk_platform 2 waiting (start desk_platform 2 1700000000 absent).1).0
    ≡ some (
        daemon_of
          (iterate desk_platform 2 waiting (start desk_platform 2 1700000000 absent).1).0
          waiting)
unfolding start iterate Daemon.open_backend next_instant
still = refl

Reach-IsSound_example :
    IsSound 2
      (iterate desk_platform 2 waiting (start desk_platform 2 1700000000 absent).1).1.clock
      (daemon_of
        (iterate desk_platform 2 waiting (start desk_platform 2 1700000000 absent).1).0
        waiting)
Reach-IsSound_example = Reach-IsSound (iterated (started 1700000000 absent) still)

iterate-Move_example : Move timeout (view holding) (view dropped)
iterate-Move_example = iterate-Move desk_platform 2 holding dead loses

iterate-HasError_example : HasError desk_platform 2 (kanali_link the_link) dropped.status
iterate-HasError_example = iterate-HasError desk_platform 2 holding dead holds loses lost

iterate_rests_example : 9000000000 + (next_instant holding - 9000000000) < next_instant steady
iterate_rests_example = iterate_rests desk_platform 2 holding back holds refl keeps
