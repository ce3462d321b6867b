-- ===== src/Tool/Daemon/Loop/Refines.antt =====
-- The loop of the daemon against a machine that knows only whether there is a link, and how many
-- pushes in a row were silent.
use mathlib.Core.Option.{some-injective}
use tryxctl.Prelude.{
  ℕ, ◌+◌, ◌-◌, ◌≡◌, ◌<◌, refl, Bool, true, false, Option, none, some, leb, Result, ok, err, Bytes,
  Bool-cases, inl, inr, arith,
}
use tryxctl.Kanali.Errors.{KanaliError}
use tryxctl.Tool.{Request, DaemonStatus}
use tryxctl.Tool.Platform.{
  Platform, Received, message, timeout, disconnected, link_keepalive, receive, send_reply,
}
use tryxctl.Tool.Daemon.{Owned, legacy_client, kanali_link, open_backend, push, resume_gap}
use tryxctl.Tool.Daemon.Handle.{handle}
use tryxctl.Tool.Daemon.Handle.Answers.{handle_missing}
use tryxctl.Tool.Daemon.Loop
use tryxctl.Tool.Daemon.Loop.{Daemon, next_instant, iterate}
use tryxctl.Tool.Daemon.Loop.Sound.{disconnect_owned}

pub data LinkState : Type 0 where
  down : LinkState
  up : ℕ → LinkState

-- What an iteration may do to the link, by what the wait gave.
pub data Move : Received → LinkState → LinkState → Type 0 where
  answered : {r : Request} {s : LinkState} → Move (message r) s s
  lost_serving : {r : Request} {n : ℕ} → Move (message r) (up n) down
  not_found : Move timeout down down
  found : Move timeout down (up 0)
  kept : {n : ℕ} → Move timeout (up n) (up n)
  pushed : {n : ℕ} → Move timeout (up n) (up 0)
  missed : {n : ℕ} → n + 1 < 3 → Move timeout (up n) (up (n + 1))
  dropped : {n : ℕ} → Move timeout (up n) down

view_of : Option Owned → ℕ → LinkState
view_of none silent = down
view_of (some _) silent = up silent

pub view : Daemon → LinkState
unfolding view_of
view d = view_of d.owned d.silent_pushes

-- The silent pushes after a push, or after none.
data Fate (n m : ℕ) : Type 0 where
  same : m ≡ n → Fate n m
  reset : m ≡ 0 → Fate n m
  one_more : m ≡ n + 1 → n + 1 < 3 → Fate n m

record HasFate (n : ℕ) (current : Owned) (lost : Bool) (d : Daemon) : Type 0 where
  held : d.owned ≡ some current
  fate : lost ≡ false → Fate n d.silent_pushes

fate-Move : {n m : ℕ} → Fate n m → Move timeout (up n) (up m)
fate-Move (same e) = rw e kept
fate-Move (reset e) = rw e pushed
fate-Move (one_more e h) = rw e (missed h)

view_up : (d : Daemon) {current : Owned} → d.owned ≡ some current → view d ≡ up d.silent_pushes
unfolding view
view_up d e = rw e refl

view_down : (d : Daemon) → d.owned ≡ none → view d ≡ down
unfolding view
view_down d e = rw e refl

down_Move : {n : ℕ} (d : Daemon) → d.owned ≡ none → Move timeout (up n) (view d)
down_Move d e = rw (view_down d e) dropped

served_Move :
    {request : Request} (d after : Daemon) {current : Owned}
    → d.owned ≡ some current
    → after.owned ≡ none
    → Move (message request) (view d) (view after)
served_Move d after o e = rw (view_up d o, view_down after e) lost_serving

module _ (p : Platform) (interval : ℕ) where
  open p use {World, now, perform}

  keepalive_answered-HasFate :
      (instant n : ℕ) (current : Owned) (r : Result KanaliError (Unit {0})) (d : Daemon)
      → d.owned ≡ some current
      → d.silent_pushes ≡ n
      → HasFate n current
          (Loop.keepalive_answered p interval r d).0
          (record (Loop.keepalive_answered p interval r d).1 { next_keepalive = instant })
  unfolding Loop.keepalive_answered
  keepalive_answered-HasFate instant n current (ok _) d o e = record {
    held = o;
    fate = λ _. same e;
  }
  keepalive_answered-HasFate instant n current (err _) d o e = record {
    held = o;
    fate = λ _. same e;
  }

  keepalive_answered_silent :
      (r : Result KanaliError (Unit {0})) (d : Daemon)
      → (Loop.keepalive_answered p interval r d).1.silent_pushes ≡ d.silent_pushes
  unfolding Loop.keepalive_answered
  keepalive_answered_silent (ok _) d = refl
  keepalive_answered_silent (err _) d = refl

  keep_alive-HasFate :
      (instant : ℕ) (current : Owned) (d : Daemon) (w : World)
      → d.owned ≡ some current
      → HasFate d.silent_pushes current
          (Loop.keep_alive p interval instant current d w).0
          (Loop.keep_alive p interval instant current d w).1
        × ((Loop.keep_alive p interval instant current d w).1.silent_pushes ≡ d.silent_pushes)
  unfolding Loop.keep_alive
  keep_alive-HasFate instant (legacy_client c) d w o =
      (record { held = o; fate = λ _. same refl }, refl)
  keep_alive-HasFate instant (kanali_link link) d w o =
      elim (Bool-cases (leb d.next_keepalive instant)) [
        | inl ready ↦
            let r = (perform (link_keepalive link.handle) w).0 in
            simp ready (
              keepalive_answered-HasFate _ d.silent_pushes (kanali_link link) r d o refl,
              keepalive_answered_silent r d,
            )
        | inr early ↦ simp early (record { held = o; fate = λ _. same refl }, refl)
      ]

  push_answered-HasFate :
      (instant n : ℕ) (current : Owned) (r : Result Bool (Unit {0})) (d : Daemon)
      → d.owned ≡ some current
      → d.silent_pushes ≡ n
      → HasFate n current
          (Loop.push_answered p interval r d).0
          (record (Loop.push_answered p interval r d).1 { next_push = instant })
  unfolding Loop.push_answered
  push_answered-HasFate instant n current (ok _) d o e = record { held = o; fate = λ _. reset refl }
  push_answered-HasFate instant n current (err dead) d o e = record {
    held = o;
    fate = λ h. one_more (omega (arith, e)) (ground (arith, h, e));
  }

  push_due-HasFate :
      (instant n : ℕ) (current : Owned) (lost : Bool) (d : Daemon) (w : World)
      → HasFate n current lost d
      → d.silent_pushes ≡ n
      → HasFate n current
          (Loop.push_due p interval instant current (lost, d, w)).0
          (Loop.push_due p interval instant current (lost, d, w)).1
  unfolding Loop.push_due
  push_due-HasFate instant n current true d w f e = f
  push_due-HasFate instant n current false d w f e = elim (Bool-cases (leb d.next_push instant)) [
    | inl ready ↦
        let (r, status, after) = push p current d.status w in
        simp ready (push_answered-HasFate _ n current r (record d { status = status }) f.held e)
    | inr early ↦ simp early f
  ]

  settle-Move :
      (instant n : ℕ) (current : Owned) (lost : Bool) (d : Daemon) (w : World)
      → HasFate n current lost d
      → Move timeout (up n) (view (Loop.settle p interval instant (lost, d, w)).0)
  unfolding Loop.settle Loop.drop_link Loop.disconnect
  settle-Move instant n current true d w f =
      down_Move _ (disconnect_owned p interval d.owned d refl)
  settle-Move instant n current false d w f = rw (view_up d f.held) (fate-Move (f.fate refl))

  reopened-Move :
      (instant : ℕ) (d : Daemon) (r : Result Bytes Owned × DaemonStatus × World)
      → d.owned ≡ none
      → Move timeout down (view (Loop.reopened p interval instant d r).0)
  unfolding Loop.reopened view
  reopened-Move instant d (ok owned, status, w) o = found
  reopened-Move instant d (err m, status, w) o = rw o not_found

  tick_owned-Move :
      (owned : Option Owned) (d : Daemon) (w : World)
      → d.owned ≡ owned
      → Move timeout (view d) (view (Loop.tick_owned p interval owned d w).0)
  unfolding Loop.tick_owned Loop.reconnect
  tick_owned-Move none d w o = rw (view_down d o) elim (Bool-cases (leb d.next_reconnect (now w))) [
    | inl ready ↦ simp ready (reopened-Move (now w) d (open_backend p d.status w) o)
    | inr early ↦ simp early (rw (view_down d o) not_found)
  ]
  tick_owned-Move (some current) d w o =
      let (f, e) = keep_alive-HasFate (now w) current d w o in
      let (lost, d1, w1) = Loop.keep_alive p interval (now w) current d w in
      let (gone, d2, w2) = Loop.push_due p interval (now w) current (lost, d1, w1) in
      rw (view_up d o) (
        settle-Move (now w) d.silent_pushes current gone d2 w2
          (push_due-HasFate (now w) d.silent_pushes current lost d1 w1 f e))

  served_by :
      (owned : Option Owned) (request : Request) (d : Daemon) (w : World)
      → d.owned ≡ owned
      → Move (message request) (view d) (view (Loop.serve_message p interval request d w).0)
  unfolding Loop.serve_message Loop.drop_link Loop.disconnect view
  served_by none request d w o =
      let quiet : (handle p d.owned request d.status w).0.1 ≡ false =
        rw o (handle_missing p request d.status w) in
      simp quiet answered
  served_by (some current) request d w o =
      let ((reply, lost), status, w') = handle p d.owned request d.status w in
      let instant = now (perform (send_reply reply) w').1 in
      let d1 = record d { status = status } in
      elim (Bool-cases (handle p d.owned request d.status w).0.1) [
        | inl gone ↦ simp gone (
            served_Move d (Loop.drop_link p interval instant d1) o
              (disconnect_owned p interval d.owned d1 refl))
        | inr held ↦ simp held answered
      ]

  resume_view :
      (overran : ℕ) (owned : Option Owned) (d : Daemon) (w : World)
      → view (Loop.resume_owned p interval overran owned d w).0 ≡ view d
  unfolding Loop.resume_owned view
  resume_view overran none d w = refl
  resume_view overran (some current) d w = elim (Bool-cases (leb resume_gap overran)) [
    | inl away ↦ simp away refl
    | inr here_ ↦ simp here_ refl
  ]

  received-Move :
      (result : Received) (d : Daemon) (w : World) {d' : Daemon}
      → (Loop.received p interval result (d, w)).0 ≡ some d'
      → Move result (view d) (view d')
  unfolding Loop.received Loop.tick
  received-Move (message request) d w h =
      rw (← some-injective _ _ h) (served_by d.owned request d w refl)
  received-Move timeout d w h = rw (← some-injective _ _ h) (tick_owned-Move d.owned d w refl)
  received-Move disconnected d w h = absurd (ground (arith, h))

  -- An iteration moves the link as the machine does: a request can only end it, and a wait that
  -- timed out finds the display, keeps the link, resets or adds to the silent pushes while they are
  -- fewer than three, or drops the link.
  pub iterate-Move :
      (d : Daemon) (w : World) {d' : Daemon}
      → (iterate p interval d w).0 ≡ some d'
      → Move (perform (receive (next_instant d - now w)) w).0.0 (view d) (view d')
  unfolding iterate Loop.resumed
  iterate-Move d w h =
      let ((result, overran), w1) = perform (receive (next_instant d - now w)) w in
      let (d1, w2) = Loop.resume_owned p interval overran d.owned d w1 in
      rw (← resume_view overran d.owned d w1) (received-Move result d1 w2 h)
