-- ===== src/Tool/Daemon/Loop/Progress.antt =====
-- What a timed-out wait of the daemon without a link leads to: the display is looked for,
-- and pushed to when it is there.
use tryxctl.Prelude.{ℕ, ◌-◌, ◌≡◌, ◌≤◌, true, some}
use tryxctl.Tool.Platform.{Platform, timeout, receive}
use tryxctl.Tool.Daemon.{Owned}
use tryxctl.Tool.Daemon.Loop
use tryxctl.Tool.Daemon.Loop.{Daemon, next_instant, iterate}
use tryxctl.Tool.Daemon.Loop.Pushing.{HasPushed}

module _ (p : Platform) (interval : ℕ) where
  open p use {World, now, perform, ticks, waits}

  -- A link that was just opened is held, with its status, and its first push is due.
  pub record IsOpened (instant : ℕ) (owned : Owned) (d : Daemon) : Type 0 where
    pub held : d.owned ≡ some owned
    pub connected : d.status.connected ≡ true
    pub counted : d.silent_pushes ≡ 0
    pub due : d.next_push ≡ instant
    pub at_once : next_instant d ≡ instant

  -- From an instant on, the next wait on the link that times out makes a push, or drops the link.
  pub PushesNext : ℕ → Owned → Daemon → Type 0
  PushesNext instant owned d =
      (later : World) (d' : Daemon)
      → instant ≤ now later
      → (perform (receive (next_instant d - now later)) later).0.0 ≡ timeout
      → (iterate p interval d later).0 ≡ some d'
      → (pushed : ℕ) × (instant ≤ pushed) × HasPushed p interval pushed owned d'
