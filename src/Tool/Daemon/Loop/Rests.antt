-- ===== src/Tool/Daemon/Loop/Rests.antt =====
-- After a timed-out wait on a link the next instant is later than the end of the wait, and a dropped
-- link leaves the error that it was dropped for.
use mathlib.Core.Option.{some-injective}
use tryxctl.Prelude.{
  ℕ, ◌+◌, ◌-◌, ◌≡◌, ◌≤◌, ◌<◌, refl, ◌∙◌, Bool, true, false, ◌++◌, Option, none, some, leb, Result,
  ok, err, Bytes, Bool-cases, inl, inr, arith,
}
use tryxctl.Prelude.Text.{codes}
use tryxctl.Kanali.Errors.{KanaliError}
use tryxctl.Tool.{Request, DaemonStatus}
use tryxctl.Tool.Platform.{
  Platform, Received, message, timeout, disconnected, Link, link_keepalive, receive,
}
use tryxctl.Tool.Daemon.{
  Owned, legacy_client, kanali_link, kanali_lost, push, push_interval, resume_gap,
  keepalive_interval,
}
use tryxctl.Tool.Daemon.Clock.{restore_ticks}
use tryxctl.Tool.Daemon.Keeps.{FailedPush, push_error}
use tryxctl.Tool.Daemon.Handle.{failure, handle}
use tryxctl.Tool.Daemon.Handle.Answers.{handle_lost}
use tryxctl.Tool.Daemon.Loop
use tryxctl.Tool.Daemon.Loop.{Daemon, next_instant, iterate}
use tryxctl.Tool.Daemon.Loop.Sound.{disconnect_owned}

push_interval_positive : (current : Owned) (interval : ℕ) → 0 < push_interval current interval
unfolding push_interval
push_interval_positive (legacy_client c) interval = omega arith
push_interval_positive (kanali_link l) interval = omega arith

module _ (p : Platform) (interval : ℕ) where
  open p use {World, now, perform, kanali_text}

  -- The texts for which a link is dropped: the error of a keepalive that found it dead, that of a
  -- push that failed, or the message of the failure that was replied to a request.
  pub data Reason : Owned → Bytes → Type 0 where
    by_keepalive :
        (link : Link) (w : World) (e : KanaliError)
        → (perform (link_keepalive link.handle) w).0 ≡ err e
        → kanali_lost e ≡ true
        → Reason (kanali_link link) (codes "keepalive: " ++ kanali_text e)
    by_push : {current : Owned} {m : Bytes} → FailedPush p current m → Reason current m
    by_request :
        {current : Owned} {m : Bytes} (request : Request) (status : DaemonStatus) (w : World)
        → (handle p (some current) request status w).0 ≡ failure m true
        → Reason current m

  pub HasError : Owned → DaemonStatus → Type 0
  HasError current status = (m : Bytes) × (status.last_error ≡ some m) × Reason current m

  -- After a keepalive at an instant: the next one is later, and a link found dead leaves an error.
  record IsKept (instant : ℕ) (current : Owned) (lost : Bool) (d : Daemon) : Type 0 where
    held : d.owned ≡ some current
    later :
        (push : ℕ)
        → instant < push
        → instant < Loop.instant_for (some current) push d.next_keepalive d.next_reconnect
    why : lost ≡ true → HasError current d.status

  -- After a push: what the link still has to do is later.
  record IsPushed (instant : ℕ) (current : Owned) (lost : Bool) (d : Daemon) : Type 0 where
    held : d.owned ≡ some current
    later :
        lost ≡ false
        → instant < Loop.instant_for (some current) d.next_push d.next_keepalive d.next_reconnect
    why : lost ≡ true → HasError current d.status

  -- After a wait that timed out: the next instant is later, and a link that is gone left an error.
  record HasRested (instant : ℕ) (current : Owned) (d : Daemon) : Type 0 where
    rests : instant < next_instant d
    why : d.owned ≡ none → HasError current d.status

  keepalive_answered-IsKept :
      (instant : ℕ) (link : Link) (r : Result KanaliError (Unit {0})) (d : Daemon) (w : World)
      → (perform (link_keepalive link.handle) w).0 ≡ r
      → d.owned ≡ some (kanali_link link)
      → IsKept instant
          (kanali_link link)
          (Loop.keepalive_answered p interval r d).0
          (record (Loop.keepalive_answered p interval r d).1 {
            next_keepalive = instant + keepalive_interval;
          })
  unfolding Loop.keepalive_answered Loop.instant_for HasError
  keepalive_answered-IsKept instant link (ok _) d w asked o = record {
    held = o;
    later = λ n h. omega (arith, h);
    why = λ h. absurd (ground (arith, h));
  }
  keepalive_answered-IsKept instant link (err e) d w asked o = record {
    held = o;
    later = λ n h. omega (arith, h);
    why = λ dead. (codes "keepalive: " ++ kanali_text e, refl, by_keepalive link w e asked dead);
  }

  keep_alive-IsKept :
      (instant : ℕ) (current : Owned) (d : Daemon) (w : World)
      → d.owned ≡ some current
      → IsKept instant current
          (Loop.keep_alive p interval instant current d w).0
          (Loop.keep_alive p interval instant current d w).1
  unfolding Loop.keep_alive Loop.instant_for
  keep_alive-IsKept instant (legacy_client c) d w o = record {
    held = o;
    later = λ n h. h;
    why = λ h. absurd (ground (arith, h));
  }
  keep_alive-IsKept instant (kanali_link link) d w o =
      elim (Bool-cases (leb d.next_keepalive instant)) [
        | inl ready ↦ simp ready (
            keepalive_answered-IsKept instant link (perform (link_keepalive link.handle) w).0 d w
              refl o)
        | inr early ↦ simp early (record {
          held = o;
          later = λ n h. ground (arith, h, early);
          why = λ h. absurd (ground (arith, h));
        })
      ]

  push_answered-IsPushed :
      (instant : ℕ) (current : Owned) (r : Result Bool (Unit {0})) (d : Daemon)
      → d.owned ≡ some current
      → ((push : ℕ)
          → instant < push
          → instant < Loop.instant_for (some current) push d.next_keepalive d.next_reconnect)
      → ((dead : Bool) → r ≡ err dead → HasError current d.status)
      → IsPushed instant current
          (Loop.push_answered p interval r d).0
          (record (Loop.push_answered p interval r d).1 {
            next_push = instant + push_interval current interval;
          })
  unfolding Loop.push_answered
  push_answered-IsPushed instant current (ok _) d o l y = record {
    held = o;
    later = λ _. l _ (omega (arith, push_interval_positive current interval));
    why = λ h. absurd (ground (arith, h));
  }
  push_answered-IsPushed instant current (err dead) d o l y = record {
    held = o;
    later = λ _. l _ (omega (arith, push_interval_positive current interval));
    why = λ _. y dead refl;
  }

  push_due-IsPushed :
      (instant : ℕ) (current : Owned) (lost : Bool) (d : Daemon) (w : World)
      → IsKept instant current lost d
      → IsPushed instant current
          (Loop.push_due p interval instant current (lost, d, w)).0
          (Loop.push_due p interval instant current (lost, d, w)).1
  unfolding Loop.push_due HasError
  push_due-IsPushed instant current true d w k = record {
    held = k.held;
    later = λ h. absurd (ground (arith, h));
    why = k.why;
  }
  push_due-IsPushed instant current false d w k = elim (Bool-cases (leb d.next_push instant)) [
    | inl ready ↦
        let (r, status, after) = push p current d.status w in
        simp ready (
          push_answered-IsPushed instant current r (record d { status = status }) k.held k.later
            (λ dead h.
              (let (m, e, why) = push_error p current d.status w dead h in (m, e, by_push why))))
    | inr early ↦ simp early (record {
      held = k.held;
      later = λ _. k.later d.next_push (ground (arith, early));
      why = k.why;
    })
  ]

  missing-HasRested :
      (instant : ℕ) (current : Owned) (d : Daemon)
      → d.owned ≡ none
      → instant < d.next_reconnect
      → HasError current d.status
      → HasRested instant current d
  unfolding next_instant Loop.instant_for
  missing-HasRested instant current d o n e = record { rests = rw o n; why = λ _. e }

  held-HasRested :
      (instant : ℕ) (current : Owned) (d : Daemon)
      → IsPushed instant current false d
      → HasRested instant current d
  unfolding next_instant
  held-HasRested instant current d k = record {
    rests = rw k.held (k.later refl);
    why = λ h. absurd (ground (arith, h, k.held));
  }

  dropped_error :
      (current : Owned) (owned : Option Owned) (d : Daemon)
      → HasError current d.status
      → HasError current (Loop.disconnect_from owned d).status
  unfolding Loop.disconnect_from HasError
  dropped_error current none d e = e
  dropped_error current (some c) d e = e

  settle-HasRested :
      (instant : ℕ) (current : Owned) (lost : Bool) (d : Daemon) (w : World)
      → IsPushed instant current lost d
      → HasRested instant current (Loop.settle p interval instant (lost, d, w)).0
  unfolding Loop.settle Loop.drop_link Loop.disconnect
  settle-HasRested instant current true d w k =
      missing-HasRested instant current _ (disconnect_owned p interval d.owned d refl) (omega arith)
        (dropped_error current d.owned d (k.why refl))
  settle-HasRested instant current false d w k = held-HasRested instant current d k

  tick_owned-HasRested :
      (owned : Option Owned) (d : Daemon) (w : World) {current : Owned}
      → d.owned ≡ owned
      → owned ≡ some current
      → HasRested (now w) current (Loop.tick_owned p interval owned d w).0
  unfolding Loop.tick_owned
  tick_owned-HasRested none d w o h = absurd (ground (arith, h))
  tick_owned-HasRested (some current) d w o h = rw (← some-injective _ _ h) (
      let (lost, d1, w1) = Loop.keep_alive p interval (now w) current d w in
      let (gone, d2, w2) = Loop.push_due p interval (now w) current (lost, d1, w1) in
      settle-HasRested (now w) current gone d2 w2
        (push_due-IsPushed (now w) current lost d1 w1 (keep_alive-IsKept (now w) current d w o)))

  resume_owned_owned :
      (overran : ℕ) (owned : Option Owned) (d : Daemon) (w : World)
      → (Loop.resume_owned p interval overran owned d w).0.owned ≡ d.owned
  unfolding Loop.resume_owned
  resume_owned_owned overran none d w = refl
  resume_owned_owned overran (some current) d w = elim (Bool-cases (leb resume_gap overran)) [
    | inl away ↦ simp away refl
    | inr here_ ↦ simp here_ refl
  ]

  resume_owned_ticks :
      (overran : ℕ) (owned : Option Owned) (d : Daemon) (w : World)
      → now w ≤ now (Loop.resume_owned p interval overran owned d w).1
  unfolding Loop.resume_owned
  resume_owned_ticks overran none d w = omega arith
  resume_owned_ticks overran (some current) d w = elim (Bool-cases (leb resume_gap overran)) [
    | inl away ↦ simp away (restore_ticks p current d.status w)
    | inr here_ ↦ simp here_ (omega arith)
  ]

  serve_message-HasError :
      (request : Request) (d : Daemon) (w : World) {current : Owned}
      → d.owned ≡ some current
      → (Loop.serve_message p interval request d w).0.owned ≡ none
      → HasError current (Loop.serve_message p interval request d w).0.status
  unfolding Loop.serve_message Loop.drop_link Loop.disconnect HasError
  serve_message-HasError request d w {current} o h =
      let ((reply, lost), status, w') = handle p d.owned request d.status w in
      elim (Bool-cases (handle p d.owned request d.status w).0.1) [
        | inl gone ↦
            let (m, e, told) = handle_lost p d.owned request d.status w gone in
            simp gone (
              dropped_error current d.owned (record d { status = status })
                (m, e, by_request request d.status w (rw (← o) told)))
        | inr held ↦ absurd (ground (arith, h, held, o))
      ]

  received-HasError :
      (result : Received) (d : Daemon) (w : World) {current : Owned} {d' : Daemon}
      → d.owned ≡ some current
      → (Loop.received p interval result (d, w)).0 ≡ some d'
      → d'.owned ≡ none
      → HasError current d'.status
  unfolding Loop.received Loop.tick
  received-HasError (message request) d w o h =
      rw (← some-injective _ _ h) (serve_message-HasError request d w o)
  received-HasError timeout d w o h =
      rw (← some-injective _ _ h) (tick_owned-HasRested d.owned d w refl o).why
  received-HasError disconnected d w o h = absurd (ground (arith, h))

  received-HasRested :
      (result : Received) (d : Daemon) (w : World) {current : Owned} {d' : Daemon}
      → d.owned ≡ some current
      → result ≡ timeout
      → (Loop.received p interval result (d, w)).0 ≡ some d'
      → now w < next_instant d'
  unfolding Loop.received Loop.tick
  received-HasRested (message request) d w o e h = absurd (ground (arith, e))
  received-HasRested timeout d w o e h =
      rw (← some-injective _ _ h) (tick_owned-HasRested d.owned d w refl o).rests
  received-HasRested disconnected d w o e h = absurd (ground (arith, e))

  -- An iteration that loses the link leaves as the last error the text of why: "keepalive: " and the
  -- error of a keepalive that found the link dead, "push: " and the error of a push that failed, or
  -- the message of the failure that was replied to a request.
  pub iterate-HasError :
      (d : Daemon) (w : World) {current : Owned} {d' : Daemon}
      → d.owned ≡ some current
      → (iterate p interval d w).0 ≡ some d'
      → d'.owned ≡ none
      → HasError current d'.status
  unfolding iterate Loop.resumed
  iterate-HasError d w o h =
      let ((result, overran), w1) = perform (receive (next_instant d - now w)) w in
      let (d1, w2) = Loop.resume_owned p interval overran d.owned d w1 in
      received-HasError result d1 w2 (resume_owned_owned overran d.owned d w1 ∙ o) h

  -- When a wait times out on a link, the instant that the loop waits for next is later than the end
  -- of that wait.
  pub iterate_rests :
      (d : Daemon) (w : World) {current : Owned} {d' : Daemon}
      → d.owned ≡ some current
      → (perform (receive (next_instant d - now w)) w).0.0 ≡ timeout
      → (iterate p interval d w).0 ≡ some d'
      → now (perform (receive (next_instant d - now w)) w).1 < next_instant d'
  unfolding iterate Loop.resumed
  iterate_rests d w o t h =
      let ((result, overran), w1) = perform (receive (next_instant d - now w)) w in
      let (d1, w2) = Loop.resume_owned p interval overran d.owned d w1 in
      let later =
        received-HasRested result d1 w2 (resume_owned_owned overran d.owned d w1 ∙ o) t h in
      omega (arith, later, resume_owned_ticks overran d.owned d w1)
