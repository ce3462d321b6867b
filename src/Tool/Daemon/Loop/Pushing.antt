-- ===== src/Tool/Daemon/Loop/Pushing.antt =====
-- What the first iterations on a link do: a push that is due is made, unless the link is dropped.
use mathlib.Core.Option.{some-injective}
use tryxctl.Prelude.{
  ℕ, ◌+◌, ◌-◌, ◌≡◌, ◌≤◌, refl, ◌∙◌, Bool, true, false, Option, none, some, leb, Result, ok, err,
  Bool-cases, inl, inr, ◌⊎◌, arith,
}
use tryxctl.Kanali.Errors.{KanaliError}
use tryxctl.Tool.Platform.{Platform, Received, timeout, link_keepalive, receive}
use tryxctl.Tool.Daemon.{Owned, legacy_client, kanali_link, push_interval, resume_gap}
use tryxctl.Tool.Daemon.Clock.{restore_ticks}
use tryxctl.Tool.Daemon.Loop
use tryxctl.Tool.Daemon.Loop.{Daemon, next_instant, iterate}
use tryxctl.Tool.Daemon.Loop.Sound.{disconnect_owned}

module _ (p : Platform) (interval : ℕ) where
  open p use {World, now, perform}

  -- A push was made on the link at an instant, or the link was dropped.
  pub HasPushed : ℕ → Owned → Daemon → Type 0
  HasPushed instant current d =
      (d.owned ≡ none) ⊎ (d.next_push ≡ instant + push_interval current interval)

  keepalive_answered_push :
      (r : Result KanaliError (Unit {0})) (d : Daemon)
      → (Loop.keepalive_answered p interval r d).1.next_push ≡ d.next_push
  unfolding Loop.keepalive_answered
  keepalive_answered_push (ok _) d = refl
  keepalive_answered_push (err e) d = refl

  keep_alive_push :
      (instant : ℕ) (current : Owned) (d : Daemon) (w : World)
      → (Loop.keep_alive p interval instant current d w).1.next_push ≡ d.next_push
  unfolding Loop.keep_alive
  keep_alive_push instant (legacy_client c) d w = refl
  keep_alive_push instant (kanali_link link) d w =
      elim (Bool-cases (leb d.next_keepalive instant)) [
        | inl ready ↦
            simp ready (keepalive_answered_push (perform (link_keepalive link.handle) w).0 d)
        | inr early ↦ simp early refl
      ]

  push_due_push :
      (instant : ℕ) (current : Owned) (lost : Bool) (d : Daemon) (w : World)
      → d.next_push ≤ instant
      → ((Loop.push_due p interval instant current (lost, d, w)).0 ≡ true)
        ⊎ ((Loop.push_due p interval instant current (lost, d, w)).1.next_push
            ≡ instant + push_interval current interval)
  unfolding Loop.push_due
  push_due_push instant current true d w h = inl refl
  push_due_push instant current false d w h =
      let ready : leb d.next_push instant ≡ true = ground (arith, h) in inr (simp ready refl)

  settle-HasPushed :
      (instant : ℕ) (current : Owned) (lost : Bool) (d : Daemon) (w : World)
      → (lost ≡ true) ⊎ (d.next_push ≡ instant + push_interval current interval)
      → HasPushed instant current (Loop.settle p interval instant (lost, d, w)).0
  unfolding Loop.settle Loop.drop_link Loop.disconnect HasPushed
  settle-HasPushed instant current true d w h = inl (disconnect_owned p interval d.owned d refl)
  settle-HasPushed instant current false d w (inl e) = absurd (ground (arith, e))
  settle-HasPushed instant current false d w (inr e) = inr e

  tick_owned-HasPushed :
      (owned : Option Owned) (d : Daemon) (w : World) {current : Owned}
      → owned ≡ some current
      → d.next_push ≤ now w
      → HasPushed (now w) current (Loop.tick_owned p interval owned d w).0
  unfolding Loop.tick_owned
  tick_owned-HasPushed none d w h n = absurd (ground (arith, h))
  tick_owned-HasPushed (some current) d w h n = rw (← some-injective _ _ h) (
      let (lost, d1, w1) = Loop.keep_alive p interval (now w) current d w in
      let (gone, d2, w2) = Loop.push_due p interval (now w) current (lost, d1, w1) in
      settle-HasPushed (now w) current gone d2 w2 (
        push_due_push (now w) current lost d1 w1
          (omega (arith, keep_alive_push (now w) current d w, n))))

  -- After the screen was applied again, or not, the link is the same and the push still due.
  IsResumed : ℕ → Option Owned → Daemon × World → Type 0
  IsResumed instant owned (d, w) = (d.owned ≡ owned) × (d.next_push ≤ now w) × (instant ≤ now w)

  resume_owned-IsResumed :
      (overran : ℕ) (owned : Option Owned) (d : Daemon) (w : World)
      → d.next_push ≤ now w
      → IsResumed (now w) d.owned (Loop.resume_owned p interval overran owned d w)
  unfolding Loop.resume_owned IsResumed
  resume_owned-IsResumed overran none d w h = (refl, h, omega arith)
  resume_owned-IsResumed overran (some current) d w h = elim (Bool-cases (leb resume_gap overran)) [
    | inl away ↦ simp away (refl, omega arith, restore_ticks p current d.status w)
    | inr here_ ↦ simp here_ (refl, h, omega arith)
  ]

  received-HasPushed :
      (result : Received) (d : Daemon) (w : World) {current : Owned} {d' : Daemon}
      → d.owned ≡ some current
      → d.next_push ≤ now w
      → result ≡ timeout
      → (Loop.received p interval result (d, w)).0 ≡ some d'
      → HasPushed (now w) current d'
  unfolding Loop.received Loop.tick
  received-HasPushed timeout d w o n e h =
      rw (← some-injective _ _ h) (tick_owned-HasPushed d.owned d w o n)
  received-HasPushed _ d w o n e h = absurd (ground (arith, e))

  -- A wait on a link that times out when the push is due makes it, at an instant from the end of the
  -- wait on, or drops the link.
  pub iterate-HasPushed :
      (d : Daemon) (w : World) {current : Owned} {d' : Daemon}
      → d.owned ≡ some current
      → (perform (receive (next_instant d - now w)) w).0.0 ≡ timeout
      → d.next_push ≤ now (perform (receive (next_instant d - now w)) w).1
      → (iterate p interval d w).0 ≡ some d'
      → (instant : ℕ) × (now (perform (receive (next_instant d - now w)) w).1 ≤ instant)
        × HasPushed instant current d'
  unfolding iterate Loop.resumed IsResumed
  iterate-HasPushed d w o t n h =
      let ((result, overran), w1) = perform (receive (next_instant d - now w)) w in
      let (d1, w2) = Loop.resume_owned p interval overran d.owned d w1 in
      let (same, due, later) = resume_owned-IsResumed overran d.owned d w1 n in
      (now w2, later, received-HasPushed result d1 w2 (same ∙ o) due t h)
