-- ===== src/Kanali/Session/Exchange.antt =====
-- The methods of `Session`: reading and writing frames, and tracked requests. A loop takes fuel.
pub mod Replies
pub mod Draining
pub mod Ending
mod Tests
use Prim.Native.String.{String}
use tryxctl.Prelude.{
  ℕ, zero, suc, ◌+◌, ◌-◌, ◌*◌, ◌/◌, min, max, Bool, true, false, ◌&&◌, ◌||◌, not, Option, none,
  some, [], ◌∷◌, ◌++◌, ltb, leb, ◌==◌, if◌then◌else◌, length, drop, Result, ok, err, Bytes,
}
use tryxctl.Prelude.Text.{codes}
use tryxctl.Proto
use tryxctl.Proto.{MalformedFrame}
use tryxctl.Kanali.Wire.{
  Codec, WireHeader, Request, RequestBody, Response, ResponseBody, DeviceInformation, ProtocolError,
}
use tryxctl.Kanali.Transport.{Pipe, TransportError, timeout}
use tryxctl.Kanali.Errors.{
  Outcome, done, failed, stuck, KanaliError, transport, no_response, rejected, invalid_response,
  invalid, not_protobuf, no_header, too_many_frames, no_device_information, unexpected,
}
use tryxctl.Kanali.Session.{
  Expect, matches, Profile, normal, file_transmit, request_name, next_track, encode_request, millis,
  transaction_timeout, file_transmit_write_timeout, file_transmit_response_timeout,
  bootstrap_write_timeout, readiness_deadline, read_slice, max_skipped_frames, max_skipped_bytes,
  read_buffer,
}

pub record Session (W : Type 0) : Type 0 where
  pub world : W
  pub pending : Bytes
  pub track : ℕ

is_pong : Option ResponseBody → Bool
is_pong (some (ResponseBody.pong _)) = true
is_pong _ = false

is_event : Option ResponseBody → Bool
is_event (some (ResponseBody.asynchronous_event _)) = true
is_event _ = false

expects_pong : Expect → Bool
expects_pong Expect.pong = true
expects_pong _ = false

-- Whether a reply is skipped whatever its track: an event, or a pong that was not asked for.
pub is_stray : Expect → Option ResponseBody → Bool
unfolding is_pong is_event expects_pong
is_stray expected body = is_event body || (is_pong body && not (expects_pong expected))

-- A reply that carries the request's track id.
pub judge_tracked : String → Expect → Response → Outcome Response
judge_tracked name expected parsed = elim (parsed.error) [
  | none ↦
      if matches expected parsed.body
      then done parsed
      else failed (invalid_response name (unexpected parsed))
  | some error ↦
      if error.code == 0
      then (if matches expected parsed.body
          then done parsed
          else failed (invalid_response name (unexpected parsed)))
      else failed (rejected name error.why)
]

-- The verdict on one reply; `none` skips it.
pub judge : String → Expect → ℕ → Response → Option (Outcome Response)
judge name expected track parsed =
    if is_stray expected parsed.body then none else elim (parsed.header) [
      | none ↦ some (failed (invalid_response name no_header))
      | some header ↦
          if header.track_id == track then some (judge_tracked name expected parsed) else none
    ]

is_bootstrap : Option WireHeader → Bool
is_bootstrap none = false
is_bootstrap (some h) = h.version == 1 && h.track_id == 0 && h.payload_crc32 == 0

-- The verdict on one reply before a track is known.
pub judge_bootstrap : Expect → Response → Option (Outcome (Option ResponseBody))
unfolding is_bootstrap
judge_bootstrap expected parsed =
    if is_bootstrap parsed.header && matches expected parsed.body
    then some (done parsed.body)
    else none

write_timeout : Profile → ℕ
write_timeout normal = transaction_timeout
write_timeout file_transmit = file_transmit_write_timeout

response_timeout : Profile → ℕ
response_timeout normal = transaction_timeout
response_timeout file_transmit = file_transmit_response_timeout

module _ (pipe : Pipe) (codec : Codec) where
  open pipe use {World, now, write, read, sleep}

  abbrev pub Exec : Type 0 → Type 0
  Exec A = Session World → Outcome A × Session World

  abbrev pub continue : {A B : Type 0} → (A → Exec B) → Outcome A → Exec B
  continue f (done a) s = f a s
  continue f (failed e) s = (failed e, s)
  continue f stuck s = (stuck, s)

  infixl 5 ◌>>=◌ ◌>>◌
  abbrev pub ◌>>=◌ : {A B : Type 0} → Exec A → (A → Exec B) → Exec B
  ◌>>=◌ m f s = continue f (m s).0 (m s).1

  abbrev pub ◌>>◌ : {B : Type 0} → Exec (Unit {0}) → Exec B → Exec B
  m >> k = m >>= λ _. k

  abbrev pub return : {A : Type 0} → A → Exec A
  return a s = (done a, s)

  abbrev pub throw : {A : Type 0} → KanaliError → Exec A
  throw e s = (failed e, s)

  of_result : {A : Type 0} → Result TransportError A → Outcome A
  of_result (ok a) = done a
  of_result (err e) = failed (transport e)

  pub pipe_write : Bytes → ℕ → Exec ℕ
  unfolding of_result
  pipe_write bytes limit s =
      let (r, w) = write (s.world) bytes limit in (of_result r, record s { world = w })

  -- The rest of the bytes, one call of the pipe for each unit of fuel.
  pub write_loop : ℕ → ℕ → Bytes → Exec Unit
  write_loop fuel deadline [] s = (done tt, s)
  write_loop zero deadline (b ∷ bytes) s = (stuck, s)
  write_loop (suc fuel) deadline (b ∷ bytes) s =
      (do
        written ← pipe_write (b ∷ bytes) (max (deadline - now (s.world)) (millis 1))
        write_loop fuel deadline (drop written (b ∷ bytes)))
        s

  -- A write that accepts a byte at least is enough for each unit of fuel.
  pub write_all : Bytes → ℕ → Exec Unit
  write_all bytes limit s = write_loop (length bytes) (now (s.world) + limit) bytes s

  -- The pending bytes, resynchronised, with the frame at their front.
  pub next_frame : Bytes → Result MalformedFrame (Option Bytes) × Bytes
  next_frame pending = Proto.take_frame ((Proto.discard_bytes_before_plausible_frame pending).1)

  -- What a read brings; a timeout of the slice brings nothing.
  pub read_more : Result TransportError Bytes → Exec Unit
  read_more (ok bytes) s = (done tt, record s { pending = s.pending ++ bytes })
  read_more (err timeout) s = (done tt, s)
  read_more (err e) s = (failed (transport e), s)

  pub read_slice_of : ℕ → Exec Unit
  read_slice_of deadline s =
      let remaining = deadline - now (s.world) in
      if remaining == 0
      then (failed (transport timeout), s)
      else (let (r, w) = read (s.world) read_buffer (min remaining read_slice) in
          read_more r (record s { world = w }))

  -- The payload, or one round more.
  found : Result MalformedFrame (Option Bytes) → Exec Bytes → Exec Bytes
  found (ok (some payload)) again s = (done payload, s)
  found _ again s = again s

  pub read_frame_loop : ℕ → ℕ → Exec Bytes
  unfolding found
  read_frame_loop zero deadline s = (stuck, s)
  read_frame_loop (suc fuel) deadline s =
      let (taken, rest) = next_frame (s.pending) in
      let again =
        λ (t : Session World). (read_slice_of deadline >>= λ _. read_frame_loop fuel deadline) t in
      found taken again (record s { pending = rest })

  -- The clock moves in every round.
  pub read_frame : ℕ → Exec Bytes
  read_frame limit s = read_frame_loop (suc limit) (now (s.world) + limit) s

  -- A read that brings bytes counts them, and any error ends the loop.
  drained :
      (ℕ → Session World → ℕ × Session World)
      → ℕ
      → Result TransportError Bytes
      → Session World
      → ℕ × Session World
  drained again discarded (ok bytes) s = again (discarded + length bytes) s
  drained again discarded (err e) s = (discarded, s)

  pub drain_loop : ℕ → ℕ → ℕ → Session World → ℕ × Session World
  unfolding drained
  drain_loop zero deadline discarded s = (discarded, s)
  drain_loop (suc fuel) deadline discarded s =
      let (r, w) = read (s.world) read_buffer (max (deadline - now (s.world)) (millis 1)) in
      let rest =
        drained (λ n t. drain_loop fuel deadline n t) discarded r (record s { world = w }) in
      if ltb (now (s.world)) deadline then rest else (discarded, s)

  pub drain : ℕ → Session World → ℕ × Session World
  drain window s =
      let (n, t) = drain_loop window (now (s.world) + window) 0 s in (n, record t { pending = [] })

  drain_unit : ℕ → Exec Unit
  drain_unit window s = (done tt, (drain window s).1)

  -- The fixed track id, or the next one.
  pub choose_track : Option ℕ → Session World → ℕ × Session World
  choose_track (some track) s = (track, s)
  choose_track none s = let (state, id) = next_track (s.track) in (id, record s { track = state })

  pub stamp : Request → Option ℕ → Session World → (ℕ × Request) × Session World
  stamp request fixed_track s =
      let (track, t) = choose_track fixed_track s in
      let header : WireHeader = record { version = 1; track_id = track; payload_crc32 = 0 } in
      ((track, record request { header = some header }), t)

  encoded : Request → Exec Bytes
  encoded request s = elim (encode_request codec request) [
    | none ↦ (failed (invalid "request larger than 1 MiB"), s)
    | some bytes ↦ (done bytes, s)
  ]

  pub write_only : Request → Exec Unit
  unfolding encoded
  write_only request = do bytes ← encoded request; write_all bytes transaction_timeout

  pub write_tracked_only : Request → Exec ℕ
  unfolding encoded
  write_tracked_only request s =
      let ((track, stamped), t) = stamp request none s in
      (do bytes ← encoded stamped; write_all bytes transaction_timeout; return track) t

  -- A timeout of the transport means that the device did not answer.
  answered : String → ℕ → Outcome Bytes → Outcome Bytes
  answered name limit (failed (transport timeout)) = failed (no_response name (limit / 1000000))
  answered name limit r = r

  parsed_reply : String → Bytes → Exec (ℕ × Response)
  parsed_reply name payload s = elim (codec.decode payload) [
    | none ↦ (failed (invalid_response name not_protobuf), s)
    | some parsed ↦ (done (length payload, parsed), s)
  ]

  -- One frame before the deadline, decoded.
  pub read_reply : String → ℕ → ℕ → Exec (ℕ × Response)
  unfolding answered parsed_reply
  read_reply name limit deadline s =
      let remaining = deadline - now (s.world) in
      if remaining == 0
      then (failed (no_response name (limit / 1000000)), s)
      else (let (r, t) = read_frame remaining s in
          continue (parsed_reply name) (answered name limit r) t)

  -- What a verdict means for the loop.
  settle : {A : Type 0} → Exec A → Option (Outcome A) → Exec A
  settle again none s = again s
  settle again (some verdict) s = (verdict, s)

  -- Replies are read until one settles the matter, while what was skipped is within bounds.
  pub reply_loop :
      {A : Type 0} → String → ℕ → ℕ → (Response → Option (Outcome A)) → ℕ → ℕ → ℕ → Exec A
  unfolding settle
  reply_loop name limit deadline verdict zero frames bytes s = (stuck, s)
  reply_loop name limit deadline verdict (suc fuel) frames bytes s =
      let next = λ (p : ℕ × Response).
        settle (reply_loop name limit deadline verdict fuel (frames + 1) (bytes + p.0 + 8))
          (verdict (p.1)) in
      let rest = (read_reply name limit deadline >>= next) s in
      if leb frames max_skipped_frames && leb bytes max_skipped_bytes
      then rest
      else (failed (invalid_response name too_many_frames), s)

  pub execute : Request → Expect → Profile → Option ℕ → Exec Response
  unfolding encoded drain_unit write_timeout response_timeout
  execute request expected profile fixed_track s =
      let name = request_name (request.body) in
      let ((track, stamped), t) = stamp request fixed_track s in
      (do
        bytes ← encoded stamped
        drain_unit (millis 20)
        write_all bytes (write_timeout profile)
        let limit = response_timeout profile
        λ u. reply_loop name limit (now (u.world) + limit) (judge name expected track) 258 0 0 u)
        t

  pub read_bootstrap : Expect → ℕ → Exec (Option ResponseBody)
  read_bootstrap expected limit s =
      reply_loop "bootstrap" limit (now (s.world) + limit) (judge_bootstrap expected) 258 0 0 s

  bootstrap_request : RequestBody → Request
  bootstrap_request body = record {
    header = some (record { version = 1; track_id = 0; payload_crc32 = 0 });
    body = some body;
  }

  information_query : Request
  unfolding bootstrap_request
  information_query = bootstrap_request (RequestBody.device_information_query (codes "NA"))

  -- Whether the pipe accepted a part of the query; `none` if it is certain that nothing was sent.
  sent : Result TransportError ℕ → Option (Outcome ℕ)
  sent (ok zero) = none
  sent (ok (suc n)) = some (done (suc n))
  sent (err timeout) = none
  sent (err e) = some (failed (transport e))

  information : Option ResponseBody → Outcome DeviceInformation
  information (some (ResponseBody.device_information info)) = done info
  information _ = failed (invalid_response "device_information_query" no_device_information)

  -- The query is on its way: the rest of it is written, and the answer read.
  after_query : ℕ → Bytes → Outcome ℕ → Exec DeviceInformation
  unfolding information
  after_query deadline bytes r =
      continue
        (λ written. do
          write_all (drop written bytes) bootstrap_write_timeout
          λ s.
              (do
                body ←
                    read_bootstrap Expect.device_information
                      (max (deadline - now (s.world)) (millis 1000))
                λ t. (information body, t))
                s)
        r

  -- The query again after a pause that doubles up to two seconds, one round for each unit of fuel.
  pub query_loop : ℕ → ℕ → ℕ → Bytes → Exec DeviceInformation
  unfolding sent after_query
  query_loop zero deadline backoff bytes s = (stuck, s)
  query_loop (suc fuel) deadline backoff bytes s =
      let (r, w) = write (s.world) bytes bootstrap_write_timeout in
      let t = record s { world = w } in
      let again =
        query_loop fuel deadline (min (backoff * 2) (millis 2000)) bytes
          (record t { world = sleep w backoff }) in
      elim (sent r) [
        | none ↦
            if leb deadline (now w + backoff)
            then (failed (no_response "device_information_query" (readiness_deadline / 1000000)), t)
            else again
        | some r' ↦ after_query deadline bytes r' t
      ]

  -- A one-time query; what comes back, or that nothing does, is ignored.
  one_shot : RequestBody → Expect → Exec Unit
  unfolding encoded bootstrap_request
  one_shot body expected = do
    bytes ← encoded (bootstrap_request body)
    write_all bytes bootstrap_write_timeout
    λ s. (done tt, (read_bootstrap expected transaction_timeout s).1)

  -- Half a second of pause a round: forty rounds fill the twenty seconds.
  pub bootstrap : Exec DeviceInformation
  unfolding encoded one_shot information_query
  bootstrap s =
      (do
        bytes ← encoded information_query
        info ← query_loop 41 (now (s.world) + readiness_deadline) (millis 500) bytes
        one_shot (RequestBody.system_configuration_query (codes "NA")) Expect.system_configuration
        one_shot (RequestBody.device_authentication_query 1) Expect.device_authentication
        return info)
        s
