-- ===== src/Kanali/Session/Exchange/Replies.antt =====
-- Which reply a tracked request accepts.
use Prim.Native.String.{String}
use tryxctl.Prelude.{
  ℕ, zero, suc, ◌+◌, ◌≡◌, refl, ap, true, ◌&&◌, none, some, Option, arith, leb, Bytes, Bool-cases,
  Option-cases, inl, inr, ◌⊎◌,
}
use tryxctl.Kanali.Wire.{Codec, WireHeader, Request, Response, ProtocolError}
use tryxctl.Kanali.Transport.{Pipe}
use tryxctl.Kanali.Errors.{Outcome, done, failed, stuck}
use tryxctl.Kanali.Session.{
  Expect, matches, Profile, request_name, millis, max_skipped_frames, max_skipped_bytes,
  encode_request,
}
use tryxctl.Kanali.Session.Exchange
use tryxctl.Kanali.Session.Exchange.{Session, is_stray, judge, judge_tracked}

-- A request with this track id in its header, and no checksum.
abbrev pub with_track : Request → ℕ → Request
with_track request track = record request {
  header = some (record { version = 1; track_id = track; payload_crc32 = 0 });
}

-- A reply that settles the request with this track id: it carries that id and the expected body,
-- reports no error, and is no event.
pub record Settles (expected : Expect) (track : ℕ) (reply : Response) : Type 0 where
  pub header : WireHeader
  pub has_header : reply.header ≡ some header
  pub same_track : header.track_id ≡ track
  pub expected_body : matches expected reply.body ≡ true
  pub no_error :
      (reply.error ≡ none) ⊎ ((e : ProtocolError) × (reply.error ≡ some e) × (e.code ≡ 0))

judge_tracked-done :
    (name : String) (expected : Expect) (reply r : Response)
    → judge_tracked name expected reply ≡ done r
    → (r ≡ reply)
      × (matches expected reply.body ≡ true)
      × ((reply.error ≡ none) ⊎ ((e : ProtocolError) × (reply.error ≡ some e) × (e.code ≡ 0)))
unfolding judge_tracked
judge_tracked-done name expected reply r h = elim (Option-cases (reply.error)) [
  | inl e ↦ (ground (arith, e), ground (arith, e), inl e)
  | inr (x, e) ↦ (ground (arith, e), ground (arith, e), inr (x, e, ground (arith, e)))
]

pub judge-done :
    (name : String) (expected : Expect) (track : ℕ) (reply r : Response)
    → judge name expected track reply ≡ some (done r)
    → Settles expected track r
unfolding judge
judge-done name expected track reply r h = elim (Option-cases (reply.header)) [
  | inl e ↦ absurd (ground (arith, e))
  | inr (x, e) ↦
      let verdict : judge_tracked name expected reply ≡ done r = ground (arith, e) in
      let (same, body, fine) = judge_tracked-done name expected reply r verdict in
      rw same (record {
        header = x;
        has_header = e;
        same_track = ground (arith, e);
        expected_body = body;
        no_error = fine;
      })
]

module _ (pipe : Pipe) (codec : Codec) where
  abbrev State : Type 0
  State = Session (pipe.World)

  continue-done :
      {A B : Type 0} (f : A → Exchange.Exec pipe codec B) (o : Outcome A) (s t : State) (b : B)
      → Exchange.continue pipe codec f o s ≡ (done b, t)
      → (a : A) × (o ≡ done a) × (f a s ≡ (done b, t))
  continue-done f (done a) s t b h = (a, refl, h)
  continue-done f (failed e) s t b h = cc
  continue-done f stuck s t b h = cc

  settle-done :
      {A : Type 0} (again : Exchange.Exec pipe codec A) (v : Option (Outcome A)) (s t : State)
      (a : A)
      → Exchange.settle pipe codec again v s ≡ (done a, t)
      → (v ≡ some (done a)) ⊎ (again s ≡ (done a, t))
  unfolding Exchange.settle
  settle-done again none s t a h = inr h
  settle-done again (some v) s t a h = inl (ground (arith, h))

  module _ {A : Type 0} (P : A → Type 0) (name : String) (limit deadline : ℕ)
      (verdict : Response → Option (Outcome A))
      (accepted : (reply : Response) (a : A) → verdict reply ≡ some (done a) → P a) where
    -- What the loop returns has been accepted by the verdict on some reply.
    reply_loop-done :
        (fuel frames bytes : ℕ) (s t : State) (a : A)
        → Exchange.reply_loop pipe codec name limit deadline verdict fuel frames bytes s
          ≡ (done a, t)
        → P a
    unfolding Exchange.reply_loop
    reply_loop-done zero frames bytes s t a h = cc
    reply_loop-done (suc fuel) frames bytes s t a h =
        elim (Bool-cases (leb frames max_skipped_frames && leb bytes max_skipped_bytes)) [
          | inl within ↦
              let read = Exchange.read_reply pipe codec name limit deadline s in
              let got =
                continue-done {A = ℕ × Response} {B = A}
                  (λ p.
                    Exchange.settle pipe codec
                      (Exchange.reply_loop pipe codec name limit deadline verdict fuel (frames + 1)
                        (bytes + p.0 + 8))
                      (verdict (p.1)))
                  (read.0) (read.1) t a (rw within at h) in
              elim (settle-done _ _ _ t a (got.2)) [
                | inl e ↦ accepted (got.0).1 a e
                | inr e ↦ reply_loop-done fuel (frames + 1) (bytes + (got.0).0 + 8) _ t a e
              ]
          | inr over ↦ let end = rw over at h in cc (ap (λ (p : Outcome A × State). p.0) end)
        ]

  stamp-with_track :
      (request : Request) (fixed : Option ℕ) (s : State)
      → (Exchange.stamp pipe codec request fixed s).0.1
        ≡ with_track request (Exchange.stamp pipe codec request fixed s).0.0
  unfolding Exchange.stamp
  stamp-with_track request fixed s = refl

  encoded-done :
      (request : Request) (s : State) (bytes : Bytes)
      → (Exchange.encoded pipe codec request s).0 ≡ done bytes
      → encode_request codec request ≡ some bytes
  unfolding Exchange.encoded
  encoded-done request s bytes h = elim (Option-cases (encode_request codec request)) [
    | inl e ↦ absurd (ground (arith, e, h))
    | inr (b, e) ↦ ground (arith, e, h)
  ]

  -- A tracked request that returns a reply returns one that settles it: the reply carries the track
  -- id that `stamp` put in the header of the request, which encodes in this form, and the expected
  -- body, and reports no error.
  pub execute-Settles :
      (request : Request) (expected : Expect) (profile : Profile) (fixed : Option ℕ) (s t : State)
      (reply : Response)
      → Exchange.execute pipe codec request expected profile fixed s ≡ (done reply, t)
      → ((Exchange.stamp pipe codec request fixed s).0.1
          ≡ with_track request (Exchange.stamp pipe codec request fixed s).0.0)
        × ((bytes : Bytes) × (encode_request codec
                (with_track request (Exchange.stamp pipe codec request fixed s).0.0)
              ≡ some bytes))
        × Settles expected ((Exchange.stamp pipe codec request fixed s).0).0 reply
  unfolding Exchange.execute
  execute-Settles request expected profile fixed s t reply h =
      let name = request_name (request.body) in
      let stamped = Exchange.stamp pipe codec request fixed s in
      let limit = Exchange.response_timeout profile in
      let s0 = stamped.1 in
      let coded = Exchange.encoded pipe codec ((stamped.0).1) s0 in
      let drained = Exchange.drain_unit pipe codec (millis 20) (coded.1) in
      let replies = λ (_ : Unit {0}) (u : State).
        Exchange.reply_loop pipe codec name limit (pipe.now (u.world) + limit)
          (judge name expected ((stamped.0).0)) 258 0 0 u in
      let write =
        λ (bytes : Bytes). Exchange.write_all pipe codec bytes (Exchange.write_timeout profile) in
      let send =
        λ (bytes : Bytes) (_ : Unit {0}). Exchange.◌>>=◌ pipe codec (write bytes) replies in
      let clear = λ (bytes : Bytes).
        Exchange.◌>>=◌ pipe codec (Exchange.drain_unit pipe codec (millis 20)) (send bytes) in
      let (bytes, got, rest) = continue-done clear (coded.0) (coded.1) t reply h in
      let (_, _, later) = continue-done (send bytes) (drained.0) (drained.1) t reply rest in
      let wrote = write bytes (drained.1) in
      let (_, _, last) = continue-done replies (wrote.0) (wrote.1) t reply later in
      (
        stamp-with_track request fixed s,
        (
          bytes,
          encoded-done (with_track request ((stamped.0).0)) s0 bytes
              (rw (← stamp-with_track request fixed s) got),
        ),
        reply_loop-done (Settles expected ((stamped.0).0)) name limit
            (pipe.now ((wrote.1).world) + limit) (judge name expected ((stamped.0).0))
            (judge-done name expected ((stamped.0).0)) 258 0 0 (wrote.1) t reply last,
      )
