-- ===== src/Kanali/Session/Exchange/Ending.antt =====
-- The loops of the session end: a read by its deadline, replies by their bounds.
use Prim.Native.String.{String}
use tryxctl.Prelude.{
  ℕ, zero, suc, ◌+◌, ◌-◌, ◌≤◌, ◌<◌, ◌≡◌, ◌≢◌, refl, ap, max, min, ◌&&◌, none, some, Option, [], ◌∷◌,
  arith, length, drop, leb, ◌==◌, Bytes, Bool-cases, Option-cases, Result-cases, inl, inr, Result,
  ok, err, length-drop,
}
use tryxctl.Proto.{MalformedFrame}
use tryxctl.Kanali.Wire.{Codec, Request, Response}
use tryxctl.Kanali.Transport.{Pipe, TransportError, timeout}
use tryxctl.Kanali.Errors.{Outcome, done, failed, stuck, transport}
use tryxctl.Kanali.Session.{
  Expect, Profile, request_name, millis, max_skipped_frames, max_skipped_bytes, read_buffer,
  read_slice,
}
use tryxctl.Kanali.Session.Exchange
use tryxctl.Kanali.Session.Exchange.{Session}
use tryxctl.Kanali.Session.Exchange.Draining.{Stopped, drain-Stopped}

module _ (pipe : Pipe) (codec : Codec) where
  open pipe use {World, now, write, read}

  abbrev State : Type 0
  State = Session World

  abbrev Ends : {A : Type 0} → Outcome A × State → Type 0
  Ends o = o.0 ≢ stuck

  -- A chain ends if both its parts do.
  continue-Ends :
      {A B : Type 0} (f : A → Exchange.Exec pipe codec B) (o : Outcome A) (s : State)
      → o ≢ stuck
      → ((a : A) → o ≡ done a → Ends (f a s))
      → Ends (Exchange.continue pipe codec f o s)
  continue-Ends f (done a) s h k = k a refl
  continue-Ends f (failed e) s h k = λ e. cc
  continue-Ends f stuck s h k = absurd (h refl)

  found-Ends :
      (taken : Result MalformedFrame (Option Bytes)) (again : Exchange.Exec pipe codec Bytes)
      (s : State)
      → Ends (again s)
      → Ends (Exchange.found pipe codec taken again s)
  unfolding Exchange.found
  found-Ends (ok (some payload)) again s h = λ e. cc
  found-Ends (ok none) again s h = h
  found-Ends (err e) again s h = h

  read_more-Ends :
      (r : Result TransportError Bytes) (s : State)
      → Ends (Exchange.read_more pipe codec r s)
        × (((Exchange.read_more pipe codec r s).1).world ≡ s.world)
  unfolding Exchange.read_more
  read_more-Ends (ok bytes) s = ((λ e. cc), refl)
  read_more-Ends (err timeout) s = ((λ e. cc), refl)
  read_more-Ends (err _) s = ((λ e. cc), refl)

  -- A read that goes on has moved the clock, and had time left.
  read_slice_of-ticks :
      (deadline : ℕ) (s : State)
      → (Ends (Exchange.read_slice_of pipe codec deadline s))
        × ((u : Unit {0})
            → (Exchange.read_slice_of pipe codec deadline s).0 ≡ done u
            → (now (s.world) < now (((Exchange.read_slice_of pipe codec deadline s).1).world))
              × (now (s.world) < deadline))
  unfolding Exchange.read_slice_of
  read_slice_of-ticks deadline s =
      let remaining = deadline - now (s.world) in
      let got = read (s.world) read_buffer (min remaining read_slice) in
      let t = record s { world = got.1 } in
      elim (Bool-cases (remaining == 0)) [
        | inl late ↦ rw late ((λ e. cc), (λ u e. cc))
        | inr early ↦
            let (ends, kept) = read_more-Ends (got.0) t in
            rw early
              (ends, λ u e. (rw kept (pipe.read_ticks (s.world) read_buffer _), ground arith))
      ]

  read_frame_loop-Ends :
      (fuel deadline : ℕ) (s : State)
      → deadline - now (s.world) < fuel
      → Ends (Exchange.read_frame_loop pipe codec fuel deadline s)
  unfolding Exchange.read_frame_loop
  read_frame_loop-Ends zero deadline s h = absurd (omega arith)
  read_frame_loop-Ends (suc fuel) deadline s h =
      let next = Exchange.next_frame pipe codec (s.pending) in
      let t = record s { pending = next.1 } in
      let slice = Exchange.read_slice_of pipe codec deadline t in
      let (ends, ticks) = read_slice_of-ticks deadline t in
      found-Ends (next.0) _ t (
        continue-Ends (λ _. Exchange.read_frame_loop pipe codec fuel deadline) (slice.0) (slice.1)
          ends (λ u e. read_frame_loop-Ends fuel deadline (slice.1) (omega (arith, ticks u e))))

  -- A read of a frame ends: with a frame, with a timeout, or with an error of the transport.
  pub read_frame-Ends : (limit : ℕ) (s : State) → Ends (Exchange.read_frame pipe codec limit s)
  unfolding Exchange.read_frame
  read_frame-Ends limit s = read_frame_loop-Ends (suc limit) _ s (omega arith)

  parsed_reply-Ends :
      (name : String) (payload : Bytes) (s : State)
      → Ends (Exchange.parsed_reply pipe codec name payload s)
  unfolding Exchange.parsed_reply
  parsed_reply-Ends name payload s = elim (Option-cases (codec.decode payload)) [
    | inl e ↦ λ h. ground (arith, e)
    | inr (r, e) ↦ λ h. ground (arith, e)
  ]

  answered-Ends :
      (name : String) (limit : ℕ) (r : Outcome Bytes)
      → r ≢ stuck
      → Exchange.answered pipe codec name limit r ≢ stuck
  unfolding Exchange.answered
  answered-Ends name limit (done b) h = λ e. cc
  answered-Ends name limit (failed (transport timeout)) h = λ e. cc
  answered-Ends name limit (failed _) h = λ e. cc
  answered-Ends name limit stuck h = h

  read_reply-Ends :
      (name : String) (limit deadline : ℕ) (s : State)
      → Ends (Exchange.read_reply pipe codec name limit deadline s)
  unfolding Exchange.read_reply
  read_reply-Ends name limit deadline s =
      let remaining = deadline - now (s.world) in
      let got = Exchange.read_frame pipe codec remaining s in
      elim (Bool-cases (remaining == 0)) [
        | inl late ↦ rw late (λ e. cc)
        | inr early ↦ rw early (
            continue-Ends (Exchange.parsed_reply pipe codec name) _ (got.1)
              (answered-Ends name limit (got.0) (read_frame-Ends remaining s))
              (λ payload e. parsed_reply-Ends name payload (got.1)))
      ]

  module _ {A : Type 0} (name : String) (limit deadline : ℕ)
      (verdict : Response → Option (Outcome A))
      (decided : (reply : Response) → verdict reply ≢ some stuck) where
    settle-Ends :
        (again : Exchange.Exec pipe codec A) (v : Option (Outcome A)) (s : State)
        → v ≢ some stuck
        → Ends (again s)
        → Ends (Exchange.settle pipe codec again v s)
    unfolding Exchange.settle
    settle-Ends again none s h k = k
    settle-Ends again (some v) s h k = λ e. h (ap some e)

    -- The bound on the frames skipped ends the loop.
    reply_loop-Ends :
        (fuel frames bytes : ℕ) (s : State)
        → frames ≤ max_skipped_frames + 1
        → max_skipped_frames + 1 < fuel + frames
        → Ends (Exchange.reply_loop pipe codec name limit deadline verdict fuel frames bytes s)
    unfolding Exchange.reply_loop
    reply_loop-Ends zero frames bytes s g h = absurd (omega arith)
    reply_loop-Ends (suc fuel) frames bytes s g h =
        elim (Bool-cases (leb frames max_skipped_frames && leb bytes max_skipped_bytes)) [
          | inl within ↦
              let read = Exchange.read_reply pipe codec name limit deadline s in
              rw within (
                continue-Ends _ (read.0) (read.1) (read_reply-Ends name limit deadline s) (λ p e.
                  settle-Ends _ (verdict (p.1)) (read.1) (decided (p.1)) (
                    reply_loop-Ends fuel (frames + 1) (bytes + p.0 + 8) (read.1)
                      (ground (arith, within)) (omega arith))))
          | inr over ↦ rw over (λ e. cc)
        ]

  -- A write goes on while the pipe takes a byte at least from a call that succeeds.
  module _
      (progress : (w : World) (b : Bytes) (t n : ℕ)
        → 0 < length b
        → (write w b t).0 ≡ ok n
        → 0 < n) where
    pipe_write-Ends :
        (b : Bytes) (t : ℕ) (s : State)
        → 0 < length b
        → Ends (Exchange.pipe_write pipe codec b t s)
          × ((n : ℕ) → (Exchange.pipe_write pipe codec b t s).0 ≡ done n → 0 < n)
    unfolding Exchange.pipe_write Exchange.of_result
    pipe_write-Ends b t s h = elim (Result-cases ((write (s.world) b t).0)) [
      | inl (n, e) ↦ rw e ((λ q. cc), λ m q. progress (s.world) b t m h (ground (arith, e, q)))
      | inr (x, e) ↦ rw e ((λ q. cc), λ m q. cc)
    ]

    write_loop-Ends :
        (fuel deadline : ℕ) (b : Bytes) (s : State)
        → length b ≤ fuel
        → Ends (Exchange.write_loop pipe codec fuel deadline b s)
    unfolding Exchange.write_loop
    write_loop-Ends fuel deadline [] s h = λ e. cc
    write_loop-Ends zero deadline (x ∷ b) s h = absurd (omega arith)
    write_loop-Ends (suc fuel) deadline (x ∷ b) s h =
        let limit = max (deadline - now (s.world)) (millis 1) in
        let wrote = Exchange.pipe_write pipe codec (x ∷ b) limit s in
        let (ends, some_taken) = pipe_write-Ends (x ∷ b) limit s (omega arith) in
        continue-Ends (λ n. Exchange.write_loop pipe codec fuel deadline (drop n (x ∷ b))) (wrote.0)
          (wrote.1) ends
          (λ n e.
            write_loop-Ends fuel deadline (drop n (x ∷ b)) (wrote.1)
              (omega (arith, length-drop n (x ∷ b), some_taken n e)))

    judge-decides :
        (name : String) (expected : Expect) (track : ℕ) (reply : Response)
        → Exchange.judge name expected track reply ≢ some stuck
    unfolding Exchange.judge Exchange.judge_tracked
    judge-decides name expected track reply = λ h. ground (arith, h)

    encoded-Ends : (r : Request) (s : State) → Ends (Exchange.encoded pipe codec r s)
    unfolding Exchange.encoded
    encoded-Ends r s = λ h. ground (arith, h)

    execute_parts-Ends :
        (request : Request) (expected : Expect) (profile : Profile) (fixed : Option ℕ) (s : State)
        → Ends (Exchange.execute pipe codec request expected profile fixed s)
    unfolding Exchange.execute Exchange.drain_unit Exchange.write_all
    execute_parts-Ends request expected profile fixed s =
        let name = request_name (request.body) in
        let stamped = Exchange.stamp pipe codec request fixed s in
        let track = (stamped.0).0 in
        let limit = Exchange.response_timeout profile in
        let coded = Exchange.encoded pipe codec ((stamped.0).1) (stamped.1) in
        let drained = Exchange.drain_unit pipe codec (millis 20) (coded.1) in
        let replies = λ (_ : Unit {0}) (u : State).
          Exchange.reply_loop pipe codec name limit (now (u.world) + limit)
            (Exchange.judge name expected track) 258 0 0 u in
        let write =
          λ (bytes : Bytes). Exchange.write_all pipe codec bytes (Exchange.write_timeout profile) in
        let send =
          λ (bytes : Bytes) (_ : Unit {0}). Exchange.◌>>=◌ pipe codec (write bytes) replies in
        let clear = λ (bytes : Bytes).
          Exchange.◌>>=◌ pipe codec (Exchange.drain_unit pipe codec (millis 20)) (send bytes) in
        continue-Ends clear (coded.0) (coded.1) (encoded-Ends ((stamped.0).1) (stamped.1))
          (λ bytes e.
            let wrote = write bytes (drained.1) in
            continue-Ends replies (wrote.0) (wrote.1)
              (write_loop-Ends (length bytes) _ bytes (drained.1) (omega arith))
              (λ u e2.
                reply_loop-Ends name limit _ (Exchange.judge name expected track)
                  (judge-decides name expected track) 258 0 0 (wrote.1) (omega arith)
                  (omega arith)))

    -- A tracked request ends, with a reply or an error, over a pipe whose successful writes take a
    -- byte at least: its loops of writes, reads and replies do not run out of rounds. The drain
    -- before its write stops when 20 ms have passed since the request was stamped, or at a read that
    -- failed, and not for want of rounds.
    pub execute-Ends :
        (request : Request) (expected : Expect) (profile : Profile) (fixed : Option ℕ) (s : State)
        → Ends (Exchange.execute pipe codec request expected profile fixed s)
          × Stopped pipe codec
              (now ((Exchange.stamp pipe codec request fixed s).1.world) + millis 20)
              (Exchange.drain pipe codec
                (millis 20)
                (Exchange.stamp pipe codec request fixed s).1).1.world
    execute-Ends request expected profile fixed s = (
      execute_parts-Ends request expected profile fixed s,
      drain-Stopped pipe codec (millis 20) (Exchange.stamp pipe codec request fixed s).1,
    )
