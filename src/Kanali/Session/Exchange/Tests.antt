-- ===== src/Kanali/Session/Exchange/Tests.antt =====
-- Runs of the session over a scripted pipe.
use tryxctl.Prelude.{
  ℕ, ◌+◌, ◌<◌, ◌≡◌, ◌≢◌, refl, none, some, Option, List, [], ◌∷◌, arith, length, Bytes, Result, ok,
  err, equal, starts_with,
}
use tryxctl.Proto
use tryxctl.Kanali.Wire.{Codec, Request, RequestBody, Response, ResponseBody}
use tryxctl.Kanali.Transport.{Pipe, TransportError, timeout}
use tryxctl.Kanali.Errors.{done, stuck}
use tryxctl.Kanali.Session.{
  Expect, normal, matches, matches_body, request_name, encode_request, millis,
}
use tryxctl.Kanali.Session.Exchange
use tryxctl.Kanali.Session.Exchange.{Session}
use tryxctl.Kanali.Session.Exchange.Replies.{execute-Settles, Settles, with_track}
use tryxctl.Kanali.Session.Exchange.Draining.{Stopped}
use tryxctl.Kanali.Session.Exchange.Ending.{execute-Ends}

-- A clock, and for each read what it brings: `none` is a timeout.
abbrev Script : Type 0
Script = ℕ × List (Option Bytes)

abbrev scripted_write : Script → Bytes → ℕ → Result TransportError ℕ × Script
scripted_write w bytes limit = (ok (length bytes), (w.0 + 1, w.1))

abbrev scripted_read : Script → ℕ → ℕ → Result TransportError Bytes × Script
scripted_read (n, []) size limit = (err timeout, (n + 1, []))
scripted_read (n, none ∷ rest) size limit = (err timeout, (n + 1, rest))
scripted_read (n, some bytes ∷ rest) size limit = (ok bytes, (n + 1, rest))

scripted_read_ticks : (w : Script) (size t : ℕ) → w.0 < ((scripted_read w size t).1).0
scripted_read_ticks (n, []) size t = omega arith
scripted_read_ticks (n, none ∷ rest) size t = omega arith
scripted_read_ticks (n, some bytes ∷ rest) size t = omega arith

abbrev scripted : Pipe
scripted = record {
  World = Script;
  now = λ w. w.0;
  write = scripted_write;
  read = scripted_read;
  sleep = λ w t. (w.0 + t, w.1);
  write_ticks = λ w b t. omega arith;
  read_ticks = scripted_read_ticks;
  sleep_ticks = λ w t. omega arith;
}

-- A reply on the wire is its track id.
abbrev reply_to : ℕ → Response
reply_to track = record {
  header = some (record { version = 1; track_id = track; payload_crc32 = 0 });
  error = none;
  body = some (ResponseBody.pong []);
}

abbrev decoded : Bytes → Option Response
decoded [] = none
decoded (b ∷ bs) = some (reply_to b)

abbrev byte_codec : Codec
byte_codec = record { encode_to_vec = λ r. 1 ∷ []; decode = decoded }

abbrev ping_request : Request
ping_request = record { header = none; body = some (RequestBody.ping []) }

abbrev frame_of : ℕ → Bytes
frame_of b = 0x54 ∷ 0x52 ∷ 0x59 ∷ 0x58 ∷ 1 ∷ 0 ∷ 0 ∷ 0 ∷ b ∷ []

-- The answer to an older request, then ours.
abbrev start : Session Script
start = record {
  world = (0, none ∷ some (frame_of 5) ∷ some (frame_of 7) ∷ []);
  pending = [];
  track = 1;
}

abbrev finish : Session Script
finish = record { world = (4, []); pending = []; track = 1 }

-- The answer to the older request is skipped.
run :
    Exchange.execute scripted byte_codec ping_request Expect.pong normal (some 7) start
    ≡ (done (reply_to 7), finish)
unfolding Exchange.execute encode_request Proto.encode Exchange.write_all Exchange.write_loop
    Exchange.pipe_write Exchange.reply_loop Exchange.read_reply Exchange.drain Exchange.drain_loop
    Exchange.stamp Exchange.choose_track Exchange.read_frame Exchange.read_frame_loop
    Exchange.next_frame Proto.take_frame Proto.discard_bytes_before_plausible_frame
    Proto.discard_plausible_loop Exchange.answered Exchange.drain_unit Exchange.drained
    Exchange.encoded Exchange.expects_pong Exchange.found Exchange.is_event Exchange.is_pong
    Exchange.is_stray Exchange.judge Exchange.judge_tracked Exchange.of_result Exchange.parsed_reply
    Exchange.read_more Exchange.read_slice_of Exchange.response_timeout Exchange.settle
    Exchange.write_timeout matches matches_body request_name Proto.discard_at
    Proto.discard_bytes_before_frame_magic Proto.discard_unmatched Proto.find Proto.payload_len
    Proto.preserved_prefix Proto.heads_frame equal starts_with
run = refl

execute-Settles_example :
    ((Exchange.stamp scripted byte_codec ping_request (some 7) start).0.1
      ≡ with_track ping_request
          (Exchange.stamp scripted byte_codec ping_request (some 7) start).0.0)
    × ((bytes : Bytes) × (encode_request byte_codec (
            with_track ping_request
              (Exchange.stamp scripted byte_codec ping_request (some 7) start).0.0)
          ≡ some bytes))
    × Settles Expect.pong
        ((Exchange.stamp scripted byte_codec ping_request (some 7) start).0).0
        (reply_to 7)
execute-Settles_example =
    execute-Settles scripted byte_codec ping_request Expect.pong normal (some 7) start finish
      (reply_to 7) run

scripted-progress :
    (w : Script) (b : Bytes) (t n : ℕ) → 0 < length b → (scripted_write w b t).0 ≡ ok n → 0 < n
scripted-progress w b t n h e = ground (arith, h, e)

execute-Ends_example :
    ((Exchange.execute scripted byte_codec ping_request Expect.pong normal none start).0 ≢ stuck)
    × Stopped scripted byte_codec
        ((Exchange.stamp scripted byte_codec ping_request none start).1.world.0 + millis 20)
        (Exchange.drain scripted byte_codec
          (millis 20)
          (Exchange.stamp scripted byte_codec ping_request none start).1).1.world
execute-Ends_example =
    execute-Ends scripted byte_codec scripted-progress ping_request Expect.pong normal none start
