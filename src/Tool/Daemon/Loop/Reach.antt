-- ===== src/Tool/Daemon/Loop/Reach.antt =====
-- The states that the loop of the daemon reaches, at the start of an iteration.
use tryxctl.Prelude.{ℕ, ◌≡◌, some}
use tryxctl.Tool.Platform.{Platform}
use tryxctl.Tool.Daemon.Loop.{Daemon, start, iterate}
use tryxctl.Tool.Daemon.Loop.Sound.{IsSound}
use tryxctl.Tool.Daemon.Loop.Keeping.{start-IsSound, iterate-IsSound}

pub data Reach (p : Platform) (interval : ℕ) : Daemon → p.World → Type 0 where
  started :
      (time : ℕ) (w : p.World)
      → Reach p interval (start p interval time w).0 (start p interval time w).1
  iterated :
      {d d' : Daemon} {w : p.World}
      → Reach p interval d w
      → (iterate p interval d w).0 ≡ some d'
      → Reach p interval d' (iterate p interval d w).1

-- Whenever the daemon starts an iteration, its status is connected exactly when it holds a link,
-- fewer than three pushes in a row were silent, and the instant that it waits for is at most 3 s
-- away without a link, 2 s with a KANALI link, and the interval, at least 1 s, with a legacy one.
pub Reach-IsSound :
    {p : Platform} {interval : ℕ} {d : Daemon} {w : p.World}
    → Reach p interval d w
    → IsSound interval (p.now w) d
Reach-IsSound {p} {interval} (started time w) = start-IsSound p interval time w
Reach-IsSound {p} {interval} (iterated {d} {d'} {w} r h) =
    iterate-IsSound p interval d w (Reach-IsSound r) h
