-- ===== src/Tool/Daemon/Loop.antt =====
-- The loop of `run` in crates/tryxctl/src/daemon.rs: one iteration, from its wait to the last change
-- of its variables. An instant is a number of nanoseconds on the monotonic clock.
pub mod Sound
pub mod Keeping
pub mod Reach
pub mod Refines
pub mod Pushing
pub mod Progress
pub mod Rests
mod Tests
use tryxctl.Prelude.{
  ℕ, ◌+◌, ◌-◌, ◌*◌, ◌%◌, ◌^◌, Bool, true, false, ◌&&◌, ◌||◌, ◌++◌, not, Option, none, some,
  if◌then◌else◌, min, leb, Result, ok, err, Bytes,
}
use tryxctl.Prelude.Text.{codes}
use tryxctl.Kanali.Errors.{KanaliError}
use tryxctl.Tool.{Request, Reply, DaemonStatus, legacy_protocol, no_fans, default_screen}
use tryxctl.Tool.Platform.{
  Platform, Received, message, timeout, disconnected, Link, link_keepalive, receive, send_reply,
}
use tryxctl.Tool.Daemon.{
  Owned, legacy_client, kanali_link, kanali_lost, push_interval, failed_with, open_backend, restore,
  push, reconnect_interval, silent_push_limit, resume_gap, keepalive_interval,
}
use tryxctl.Tool.Daemon.Handle.{handle}

-- The variables of `run`.
pub record Daemon : Type 0 where
  pub owned : Option Owned
  pub status : DaemonStatus
  pub next_push : ℕ
  pub next_keepalive : ℕ
  pub next_reconnect : ℕ
  pub silent_pushes : ℕ

pub instant_for : Option Owned → (push keepalive reconnect : ℕ) → ℕ
instant_for none push keepalive reconnect = reconnect
instant_for (some (legacy_client _)) push keepalive reconnect = push
instant_for (some (kanali_link _)) push keepalive reconnect = min push keepalive

-- The instant that the loop waits for.
pub next_instant : Daemon → ℕ
unfolding instant_for
next_instant d = instant_for d.owned d.next_push d.next_keepalive d.next_reconnect

pub disconnect_from : Option Owned → Daemon → Daemon
disconnect_from none d = d
disconnect_from (some _) d = record d {
  owned = none;
  status = record d.status { connected = false };
}

-- The link is dropped, if there is one.
pub disconnect : Daemon → Daemon
unfolding disconnect_from
disconnect d = disconnect_from d.owned d

initial_status : ℕ → ℕ → DaemonStatus
initial_status started interval = record {
  protocol = legacy_protocol;
  product = none;
  tty = codes "";
  connected = false;
  reconnects = 0;
  started_unix = started;
  interval = interval;
  pushes = 0;
  info = none;
  sample = none;
  fans = no_fans;
  screen = default_screen;
  last_error = none;
}

-- `interval` is the user's, in seconds.
module _ (p : Platform) (interval : ℕ) where
  open p use {World, now, perform, kanali_text}

  -- The first attempt to open the display, when the process starts.
  first_opened : Result Bytes Owned × DaemonStatus × World → Option Owned × DaemonStatus × World
  first_opened (ok owned, status, w) =
      let (status, w) = restore p owned status w in
      (some owned, record status { connected = true }, w)
  first_opened (err m, status, w) = (none, failed_with m status, w)

  -- The variables when the loop is entered.
  pub start : ℕ → World → Daemon × World
  unfolding first_opened initial_status
  start started w =
      let (owned, status, w) = first_opened (open_backend p (initial_status started interval) w) in
      (
        record {
          owned = owned;
          status = status;
          next_push = now w;
          next_keepalive = now w;
          next_reconnect = now w + reconnect_interval;
          silent_pushes = 0;
        },
        w,
      )

  pub resume_owned : ℕ → Option Owned → Daemon → World → Daemon × World
  resume_owned overran none d w = (d, w)
  resume_owned overran (some current) d w =
      if leb resume_gap overran
      then (let (status, after) = restore p current d.status w in
          (record d { status = status; next_push = now after }, after))
      else (d, w)

  -- After the host was asleep, the screen is applied again.
  resumed : ℕ → Daemon → World → Daemon × World
  unfolding resume_owned
  resumed overran d w = resume_owned overran d.owned d w

  -- The link is dropped, and the next attempt to open the display is set.
  pub drop_link : ℕ → Daemon → Daemon
  unfolding disconnect
  drop_link instant d = record (disconnect d) { next_reconnect = instant + reconnect_interval }

  pub serve_message : Request → Daemon → World → Daemon × World
  unfolding drop_link
  serve_message request d w =
      let ((reply, lost), status, w) = handle p d.owned request d.status w in
      let (sent, w) = perform (send_reply reply) w in
      let d = record d { status = status } in (if lost then drop_link (now w) d else d, w)

  -- What an attempt to open the display at an instant gives.
  reopened : ℕ → Daemon → Result Bytes Owned × DaemonStatus × World → Daemon × World
  reopened instant d (ok owned, status, w) =
      let status = record status {
        reconnects = (status.reconnects + 1) % 2 ^ 32;
        last_error = none;
      } in
      let (status, w) = restore p owned status w in
      (
        record d {
          owned = some owned;
          status = record status { connected = true };
          silent_pushes = 0;
          next_push = instant;
          next_keepalive = instant;
        },
        w,
      )
  reopened instant d (err m, status, w) =
      (record d { status = failed_with m status; next_reconnect = instant + reconnect_interval }, w)

  pub reconnect : ℕ → Daemon → World → Daemon × World
  unfolding reopened
  reconnect instant d w =
      if leb d.next_reconnect instant
      then reopened instant d (open_backend p d.status w)
      else (d, w)

  -- A ping and a lease; whether the link is lost.
  keepalive_answered : Result KanaliError (Unit {0}) → Daemon → Bool × Daemon
  keepalive_answered (ok _) d = (false, d)
  keepalive_answered (err e) d = (
    kanali_lost e,
    record d { status = failed_with (codes "keepalive: " ++ kanali_text e) d.status },
  )

  keep_alive : ℕ → Owned → Daemon → World → Bool × Daemon × World
  unfolding keepalive_answered
  keep_alive instant (legacy_client _) d w = (false, d, w)
  keep_alive instant (kanali_link link) d w =
      if leb d.next_keepalive instant
      then (let (r, after) = perform (link_keepalive link.handle) w in
          let (lost, d) = keepalive_answered r d in
          (lost, record d { next_keepalive = instant + keepalive_interval }, after))
      else (false, d, w)

  push_answered : Result Bool (Unit {0}) → Daemon → Bool × Daemon
  push_answered (ok _) d = (false, record d { silent_pushes = 0 })
  push_answered (err dead) d = (
    dead || leb silent_push_limit (d.silent_pushes + 1),
    record d { silent_pushes = d.silent_pushes + 1 },
  )

  push_due : ℕ → Owned → Bool × Daemon × World → Bool × Daemon × World
  unfolding push_answered
  push_due instant current (lost, d, w) =
      if not lost && leb d.next_push instant
      then (let (r, status, after) = push p current d.status w in
          let (gone, d) = push_answered r (record d { status = status }) in
          (lost || gone, record d { next_push = instant + push_interval current interval }, after))
      else (lost, d, w)

  settle : ℕ → Bool × Daemon × World → Daemon × World
  unfolding drop_link
  settle instant (lost, d, w) =
      (if lost then record (drop_link instant d) { silent_pushes = 0 } else d, w)

  tick_owned : Option Owned → Daemon → World → Daemon × World
  unfolding reconnect keep_alive push_due settle
  tick_owned none d w = reconnect (now w) d w
  tick_owned (some current) d w =
      settle (now w) (push_due (now w) current (keep_alive (now w) current d w))

  -- The wait timed out: the display is looked for, or kept alive and pushed to.
  pub tick : Daemon → World → Daemon × World
  unfolding tick_owned
  tick d w = tick_owned d.owned d w

  -- `none` when every sender of requests is gone, which ends the loop.
  received : Received → Daemon × World → Option Daemon × World
  unfolding serve_message tick
  received (message request) (d, w) = let (d, w) = serve_message request d w in (some d, w)
  received timeout (d, w) = let (d, w) = tick d w in (some d, w)
  received disconnected (d, w) = (none, w)

  pub iterate : Daemon → World → Option Daemon × World
  unfolding received resumed next_instant
  iterate d w =
      let ((result, overran), w) = perform (receive (next_instant d - now w)) w in
      received result (resumed overran d w)
