-- ===== src/Tool/Daemon/Loop/Keeping.antt =====
-- The invariant is kept by an iteration of the loop, and holds whenever the loop is reached.
use tryxctl.Prelude.{
  ℕ, ◌+◌, ◌-◌, ◌≡◌, ◌≤◌, refl, sym, ap, ◌∙◌, Bool, true, false, Option, none, some, leb, Result, ok,
  err, Bytes, Bool-cases, inl, inr, arith,
}
use mathlib.Core.Option.{some-injective}
use tryxctl.Kanali.Errors.{KanaliError}
use tryxctl.Tool.{Request, DaemonStatus}
use tryxctl.Tool.Platform.{
  Platform, Received, message, timeout, disconnected, link_keepalive, receive,
}
use tryxctl.Tool.Daemon.{
  Owned, legacy_client, kanali_link, push_interval, open_backend, push, keepalive_interval, seconds,
}
use tryxctl.Tool.Daemon.Clock.{le_trans, push_ticks}
use tryxctl.Tool.Daemon.Keeps.{push_connected, open_backend_connected}
use tryxctl.Tool.Daemon.Loop
use tryxctl.Tool.Daemon.Loop.{Daemon, next_instant, start, iterate}
use tryxctl.Tool.Daemon.Loop.Sound
use tryxctl.Tool.Daemon.Loop.Sound.{
  IsSound, IsBeat, is_some, longest_wait, push_interval_longest, later-IsSound,
}

module _ (p : Platform) (interval : ℕ) where
  open p use {World, now, perform, ticks}

  due_of :
      (owned held : Option Owned) (push keepalive reconnect instant : ℕ)
      → owned ≡ held
      → Loop.instant_for owned push keepalive reconnect ≤ instant + longest_wait interval owned
      → Loop.instant_for held push keepalive reconnect ≤ instant + longest_wait interval held
  due_of owned held push keepalive reconnect instant e h = rw (← e) h

  sound-IsBeat :
      (instant : ℕ) (current : Owned) (lost : Bool) (d : Daemon)
      → d.owned ≡ some current
      → IsSound interval instant d
      → IsBeat interval instant current lost d
  unfolding is_some next_instant
  sound-IsBeat instant current lost d o s = record {
    held = o;
    up = s.connected ∙ ap is_some o;
    few = λ _. s.silent;
    soon =
        due_of d.owned (some current) d.next_push d.next_keepalive d.next_reconnect instant o s.due;
  }

  -- Without an error the link is kept until the end of the iteration.
  beat-IsSound :
      (instant : ℕ) (current : Owned) (d : Daemon)
      → IsBeat interval instant current false d
      → IsSound interval instant d
  unfolding is_some next_instant
  beat-IsSound instant current d b = record {
    connected = b.up ∙ sym (ap is_some b.held);
    silent = b.few refl;
    due = rw b.held b.soon;
  }

  keepalive_answered-IsBeat :
      (instant : ℕ) (link : tryxctl.Tool.Platform.Link) (r : Result KanaliError (Unit {0}))
      (d : Daemon)
      → IsBeat interval instant (kanali_link link) false d
      → IsBeat interval instant
          (kanali_link link)
          (Loop.keepalive_answered p interval r d).0
          (record (Loop.keepalive_answered p interval r d).1 {
            next_keepalive = instant + keepalive_interval;
          })
  unfolding Loop.keepalive_answered Loop.instant_for longest_wait
  keepalive_answered-IsBeat instant link (ok _) d b = record {
    held = b.held;
    up = b.up;
    few = b.few;
    soon = omega arith;
  }
  keepalive_answered-IsBeat instant link (err e) d b = record {
    held = b.held;
    up = b.up;
    few = λ _. b.few refl;
    soon = omega arith;
  }

  keep_alive-IsBeat :
      (instant : ℕ) (current : Owned) (d : Daemon) (w : World)
      → IsBeat interval instant current false d
      → IsBeat interval instant current
          (Loop.keep_alive p interval instant current d w).0
          (Loop.keep_alive p interval instant current d w).1
  unfolding Loop.keep_alive
  keep_alive-IsBeat instant (legacy_client c) d w b = b
  keep_alive-IsBeat instant (kanali_link link) d w b =
      elim (Bool-cases (leb d.next_keepalive instant)) [
        | inl ready ↦
            simp ready (
              keepalive_answered-IsBeat instant link (perform (link_keepalive link.handle) w).0 d b)
        | inr early ↦ simp early b
      ]

  keep_alive_ticks :
      (instant : ℕ) (current : Owned) (d : Daemon) (w : World)
      → now w ≤ now (Loop.keep_alive p interval instant current d w).2
  unfolding Loop.keep_alive
  keep_alive_ticks instant (legacy_client c) d w = omega arith
  keep_alive_ticks instant (kanali_link link) d w =
      elim (Bool-cases (leb d.next_keepalive instant)) [
        | inl ready ↦ simp ready (ticks (link_keepalive link.handle) w)
        | inr early ↦ simp early (omega arith)
      ]

  soon_after_push :
      (instant : ℕ) (current : Owned) (keepalive reconnect : ℕ)
      → Loop.instant_for
          (some current)
          (instant + push_interval current interval)
          keepalive
          reconnect
        ≤ instant + longest_wait interval (some current)
  unfolding Loop.instant_for
  soon_after_push instant (legacy_client c) keepalive reconnect =
      omega (arith, push_interval_longest (legacy_client c) interval)
  soon_after_push instant (kanali_link l) keepalive reconnect =
      omega (arith, push_interval_longest (kanali_link l) interval)

  push_answered-IsBeat :
      (instant : ℕ) (current : Owned) (r : Result Bool (Unit {0})) (d : Daemon)
      → IsBeat interval instant current false d
      → IsBeat interval instant current
          (Loop.push_answered p interval r d).0
          (record (Loop.push_answered p interval r d).1 {
            next_push = instant + push_interval current interval;
          })
  unfolding Loop.push_answered
  push_answered-IsBeat instant current (ok _) d b = record {
    held = b.held;
    up = b.up;
    few = λ _. omega arith;
    soon = soon_after_push instant current d.next_keepalive d.next_reconnect;
  }
  push_answered-IsBeat instant current (err dead) d b = record {
    held = b.held;
    up = b.up;
    few = λ h. ground (arith, h);
    soon = soon_after_push instant current d.next_keepalive d.next_reconnect;
  }

  push_due-IsBeat :
      (instant : ℕ) (current : Owned) (lost : Bool) (d : Daemon) (w : World)
      → IsBeat interval instant current lost d
      → IsBeat interval instant current
          (Loop.push_due p interval instant current (lost, d, w)).0
          (Loop.push_due p interval instant current (lost, d, w)).1
  unfolding Loop.push_due
  push_due-IsBeat instant current true d w b = b
  push_due-IsBeat instant current false d w b = elim (Bool-cases (leb d.next_push instant)) [
    | inl ready ↦
        let (r, status, after) = push p current d.status w in
        simp ready (
          push_answered-IsBeat instant current r (record d { status = status })
            (record {
              held = b.held;
              up = push_connected p current d.status w ∙ b.up;
              few = b.few;
              soon = b.soon;
            }))
    | inr early ↦ simp early b
  ]

  push_due_ticks :
      (instant : ℕ) (current : Owned) (lost : Bool) (d : Daemon) (w : World)
      → now w ≤ now (Loop.push_due p interval instant current (lost, d, w)).2
  unfolding Loop.push_due
  push_due_ticks instant current true d w = omega arith
  push_due_ticks instant current false d w = elim (Bool-cases (leb d.next_push instant)) [
    | inl ready ↦ simp ready (push_ticks p current d.status w)
    | inr early ↦ simp early (omega arith)
  ]

  settle-IsSound :
      (instant : ℕ) (current : Owned) (lost : Bool) (d : Daemon) (w : World)
      → IsBeat interval instant current lost d
      → IsSound interval instant (Loop.settle p interval instant (lost, d, w)).0
  unfolding Loop.settle
  settle-IsSound instant current true d w b =
      Sound.dropped-IsSound p interval instant current d b.held b.up
  settle-IsSound instant current false d w b = beat-IsSound instant current d b

  tick_owned-IsSound :
      (owned : Option Owned) (d : Daemon) (w : World)
      → d.owned ≡ owned
      → IsSound interval (now w) d
      → IsSound interval
          (now (Loop.tick_owned p interval owned d w).1)
          (Loop.tick_owned p interval owned d w).0
  unfolding Loop.tick_owned Loop.settle
  tick_owned-IsSound none d w o s = Sound.reconnect-IsSound p interval d w o s
  tick_owned-IsSound (some current) d w o s =
      let (lost, d1, w1) = Loop.keep_alive p interval (now w) current d w in
      let (gone, d2, w2) = Loop.push_due p interval (now w) current (lost, d1, w1) in
      later-IsSound
        (le_trans (now w) _ _ (keep_alive_ticks (now w) current d w)
          (push_due_ticks (now w) current lost d1 w1))
        (settle-IsSound (now w) current gone d2 w2 (
          push_due-IsBeat (now w) current lost d1 w1
            (keep_alive-IsBeat (now w) current d w (sound-IsBeat (now w) current false d o s))))

  received-IsSound :
      (result : Received) (d : Daemon) (w : World) {d' : Daemon}
      → IsSound interval (now w) d
      → (Loop.received p interval result (d, w)).0 ≡ some d'
      → IsSound interval (now (Loop.received p interval result (d, w)).1) d'
  unfolding Loop.received Loop.tick
  received-IsSound (message request) d w s h =
      rw (← some-injective _ _ h) (Sound.serve_message-IsSound p interval request d w s)
  received-IsSound timeout d w s h =
      rw (← some-injective _ _ h) (tick_owned-IsSound d.owned d w refl s)
  received-IsSound disconnected d w s h = absurd (ground (arith, h))

  pub iterate-IsSound :
      (d : Daemon) (w : World) {d' : Daemon}
      → IsSound interval (now w) d
      → (iterate p interval d w).0 ≡ some d'
      → IsSound interval (now (iterate p interval d w).1) d'
  unfolding iterate Loop.resumed
  iterate-IsSound d w s h =
      let ((result, overran), w1) = perform (receive (next_instant d - now w)) w in
      let (d1, w2) = Loop.resume_owned p interval overran d.owned d w1 in
      received-IsSound result d1 w2
        (Sound.resume_owned-IsSound p interval overran d.owned d w1 refl
          (later-IsSound (ticks (receive (next_instant d - now w)) w) s))
        h

  first_opened-IsSound :
      (r : Result Bytes Owned × DaemonStatus × World)
      → r.1.connected ≡ false
      → (Loop.first_opened p interval r).1.connected ≡ is_some (Loop.first_opened p interval r).0
  unfolding Loop.first_opened is_some
  first_opened-IsSound (ok owned, status, w) c = refl
  first_opened-IsSound (err m, status, w) c = c

  first_due :
      (owned : Option Owned) (instant : ℕ)
      → Loop.instant_for owned instant instant (instant + seconds 3)
        ≤ instant + longest_wait interval owned
  unfolding Loop.instant_for longest_wait
  first_due none instant = omega arith
  first_due (some (legacy_client c)) instant = omega arith
  first_due (some (kanali_link l)) instant = omega arith

  pub start-IsSound :
      (started : ℕ) (w : World)
      → IsSound interval (now (start p interval started w).1) (start p interval started w).0
  unfolding start next_instant Loop.initial_status
  start-IsSound started w =
      let first = Loop.initial_status started interval in
      let opened = open_backend p first w in
      let (owned, status, w1) = Loop.first_opened p interval opened in
      record {
        connected = first_opened-IsSound opened (open_backend_connected p first w);
        silent = omega arith;
        due = first_due owned (now w1);
      }
