-- ===== src/Tool/Daemon/Loop/Sound.antt =====
-- The invariant of the daemon's loop.
use tryxctl.Prelude.{
  ℕ, ◌+◌, ◌%◌, ◌^◌, ◌≡◌, ◌≤◌, ◌<◌, refl, sym, ap, ◌∙◌, Bool, true, false, Option, none, some, max,
  leb, Result, ok, err, Bytes, Bool-cases, inl, inr, arith,
}
use tryxctl.Tool.{Request, DaemonStatus}
use tryxctl.Tool.Platform.{Platform, send_reply}
use tryxctl.Tool.Daemon.{
  Owned, legacy_client, kanali_link, push_interval, open_backend, restore, push, reconnect_interval,
  silent_push_limit, keepalive_interval, seconds,
}
use tryxctl.Tool.Daemon.Clock.{le_trans, open_backend_ticks, restore_ticks}
use tryxctl.Tool.Daemon.Keeps.{open_backend_connected, restore_connected}
use tryxctl.Tool.Daemon.Handle.{handle}
use tryxctl.Tool.Daemon.Handle.Answers.{handle_connected, handle_ticks}
use tryxctl.Tool.Daemon.Loop
use tryxctl.Tool.Daemon.Loop.{Daemon, next_instant, disconnect, start, iterate}

unfoldable pub is_some : Option Owned → Bool
is_some none = false
is_some (some _) = true

-- The longest wait: 3 s for the display to come back, 2 s on a KANALI link, and the user's interval
-- on a legacy one.
unfoldable pub longest_wait : ℕ → Option Owned → ℕ
longest_wait interval none = seconds 3
longest_wait interval (some (legacy_client _)) = seconds (max interval 1)
longest_wait interval (some (kanali_link _)) = seconds 2

-- The status says whether there is a link, fewer than three pushes in a row were silent, and the
-- next instant is no further away than the longest wait.
pub record IsSound (interval now : ℕ) (d : Daemon) : Type 0 where
  pub connected : d.status.connected ≡ is_some d.owned
  pub silent : d.silent_pushes < silent_push_limit
  pub due : next_instant d ≤ now + longest_wait interval d.owned

-- The state between a keepalive or a push at an instant and the end of the iteration.
pub record IsBeat (interval instant : ℕ) (current : Owned) (lost : Bool) (d : Daemon) : Type 0 where
  pub held : d.owned ≡ some current
  pub up : d.status.connected ≡ true
  pub few : lost ≡ false → d.silent_pushes < silent_push_limit
  pub soon :
      Loop.instant_for (some current) d.next_push d.next_keepalive d.next_reconnect
      ≤ instant + longest_wait interval (some current)

pub push_interval_longest :
    (current : Owned) (interval : ℕ)
    → push_interval current interval ≤ longest_wait interval (some current)
unfolding push_interval longest_wait
push_interval_longest (legacy_client _) interval = omega arith
push_interval_longest (kanali_link _) interval = omega arith

-- A later instant changes nothing for what is due.
pub later-IsSound :
    {interval a b : ℕ} {d : Daemon} → a ≤ b → IsSound interval a d → IsSound interval b d
later-IsSound {interval} {a} {b} {d} h s = record {
  connected = s.connected;
  silent = s.silent;
  due = le_trans _ _ _ s.due (omega (arith, h));
}

module _ (p : Platform) (interval : ℕ) where
  open p use {World, now, perform, ticks}

  pub disconnect_owned :
      (owned : Option Owned) (d : Daemon)
      → d.owned ≡ owned
      → (Loop.disconnect_from owned d).owned ≡ none
  unfolding Loop.disconnect_from
  disconnect_owned none d e = e
  disconnect_owned (some current) d e = refl

  pub disconnect_status :
      (owned : Option Owned) (d : Daemon)
      → d.owned ≡ owned
      → d.status.connected ≡ is_some owned
      → (Loop.disconnect_from owned d).status.connected ≡ false
  unfolding Loop.disconnect_from is_some
  disconnect_status none d e h = h
  disconnect_status (some current) d e h = refl

  disconnect_silent :
      (owned : Option Owned) (d : Daemon)
      → (Loop.disconnect_from owned d).silent_pushes ≡ d.silent_pushes
  unfolding Loop.disconnect_from
  disconnect_silent none d = refl
  disconnect_silent (some current) d = refl

  -- Without a link, the next attempt to open the display is all that matters.
  pub missing-IsSound :
      (instant : ℕ) (d : Daemon)
      → d.owned ≡ none
      → d.status.connected ≡ false
      → d.silent_pushes < silent_push_limit
      → d.next_reconnect ≤ instant + seconds 3
      → IsSound interval instant d
  unfolding is_some longest_wait next_instant Loop.instant_for
  missing-IsSound instant d o c s n = record { connected = rw o c; silent = s; due = rw o n }

  drop_link-IsSound :
      (instant : ℕ) (d : Daemon)
      → d.status.connected ≡ is_some d.owned
      → d.silent_pushes < silent_push_limit
      → IsSound interval instant (Loop.drop_link p interval instant d)
  unfolding Loop.drop_link disconnect
  drop_link-IsSound instant d c s =
      missing-IsSound instant _ (disconnect_owned d.owned d refl)
        (disconnect_status d.owned d refl c) (rw (disconnect_silent d.owned d) s) (omega arith)

  -- The link is dropped, and the silent pushes are counted anew.
  pub dropped-IsSound :
      (instant : ℕ) (current : Owned) (d : Daemon)
      → d.owned ≡ some current
      → d.status.connected ≡ true
      → IsSound interval instant
          (record (Loop.drop_link p interval instant d) { silent_pushes = 0 })
  unfolding Loop.drop_link disconnect is_some
  dropped-IsSound instant current d o c =
      missing-IsSound instant _ (disconnect_owned d.owned d refl)
        (disconnect_status d.owned d refl (c ∙ sym (ap is_some o))) (omega arith) (omega arith)

  -- A change of the status, with a link that is held.
  status-IsSound :
      (instant : ℕ) (d : Daemon) (status : DaemonStatus)
      → status.connected ≡ d.status.connected
      → IsSound interval instant d
      → IsSound interval instant (record d { status = status })
  unfolding next_instant
  status-IsSound instant d status e s = record {
    connected = e ∙ s.connected;
    silent = s.silent;
    due = s.due;
  }

  pub serve_message-IsSound :
      (request : Request) (d : Daemon) (w : World)
      → IsSound interval (now w) d
      → IsSound interval
          (now (Loop.serve_message p interval request d w).1)
          (Loop.serve_message p interval request d w).0
  unfolding Loop.serve_message
  serve_message-IsSound request d w s =
      let ((reply, lost), status, w') = handle p d.owned request d.status w in
      let w'' = (perform (send_reply reply) w').1 in
      let later =
        le_trans (now w) _ _ (handle_ticks p d.owned request d.status w)
          (ticks (send_reply reply) w') in
      let kept = handle_connected p d.owned request d.status w in
      elim (Bool-cases (handle p d.owned request d.status w).0.1) [
        | inl gone ↦ simp gone (
            drop_link-IsSound (now w'') (record d { status = status }) (kept ∙ s.connected)
              s.silent)
        | inr held ↦ simp held (later-IsSound later (status-IsSound (now w) d status kept s))
      ]

  -- A link that was just restored is pushed to at once.
  pub fresh-IsSound :
      (instant : ℕ) (current : Owned) (d : Daemon)
      → d.owned ≡ some current
      → d.status.connected ≡ true
      → d.silent_pushes < silent_push_limit
      → d.next_push ≤ instant
      → IsSound interval instant d
  unfolding is_some longest_wait next_instant Loop.instant_for
  fresh-IsSound instant (legacy_client c) d o u s n = record {
    connected = rw o u;
    silent = s;
    due = rw o (omega arith);
  }
  fresh-IsSound instant (kanali_link l) d o u s n = record {
    connected = rw o u;
    silent = s;
    due = rw o (omega arith);
  }

  pub resume_owned-IsSound :
      (overran : ℕ) (owned : Option Owned) (d : Daemon) (w : World)
      → d.owned ≡ owned
      → IsSound interval (now w) d
      → IsSound interval
          (now (Loop.resume_owned p interval overran owned d w).1)
          (Loop.resume_owned p interval overran owned d w).0
  unfolding Loop.resume_owned is_some
  resume_owned-IsSound overran none d w o s = s
  resume_owned-IsSound overran (some current) d w o s =
      elim (Bool-cases (leb tryxctl.Tool.Daemon.resume_gap overran)) [
        | inl away ↦
            let (status, after) = restore p current d.status w in
            simp away (
              fresh-IsSound (now after) current
                (record d { status = status; next_push = now after }) o
                (restore_connected p current d.status w ∙ s.connected ∙ ap is_some o) s.silent
                (omega arith))
        | inr here_ ↦ simp here_ s
      ]

  reopened-IsSound :
      (instant : ℕ) (d : Daemon) (r : Result Bytes Owned × DaemonStatus × World)
      → d.owned ≡ none
      → d.silent_pushes < silent_push_limit
      → r.1.connected ≡ false
      → instant ≤ now r.2
      → IsSound interval
          (now (Loop.reopened p interval instant d r).1)
          (Loop.reopened p interval instant d r).0
  unfolding Loop.reopened
  reopened-IsSound instant d (ok owned, status, w) o s c h =
      let status' = record status {
        reconnects = (status.reconnects + 1) % 2 ^ 32;
        last_error = none;
      } in
      fresh-IsSound _ owned _ refl refl (omega arith)
        (le_trans instant _ _ h (restore_ticks p owned status' w))
  reopened-IsSound instant d (err m, status, w) o s c h =
      missing-IsSound (now w) _ o c s (omega (arith, h))

  pub reconnect-IsSound :
      (d : Daemon) (w : World)
      → d.owned ≡ none
      → IsSound interval (now w) d
      → IsSound interval
          (now (Loop.reconnect p interval (now w) d w).1)
          (Loop.reconnect p interval (now w) d w).0
  unfolding Loop.reconnect is_some
  reconnect-IsSound d w o s = elim (Bool-cases (leb d.next_reconnect (now w))) [
    | inl ready ↦ simp ready (
        reopened-IsSound (now w) d (open_backend p d.status w) o s.silent
          (open_backend_connected p d.status w ∙ s.connected ∙ ap is_some o)
          (open_backend_ticks p d.status w))
    | inr early ↦ simp early s
  ]
