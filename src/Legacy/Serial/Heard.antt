-- ===== src/Legacy/Serial/Heard.antt =====
-- What a request on the command channel returns, against what the port gave after it was written.
use tryxctl.Prelude.{
  ap, ℕ, zero, suc, ◌+◌, ◌≡◌, ◌≤◌, refl, Option, none, some, [], ◌∷◌, ◌++◌, append-nil, ltb, Result,
  ok, err, Bytes, Bool-cases, inl, inr, arith,
}
use tryxctl.Legacy.{LegacyError, malformed_response, no_response, request_too_long}
use tryxctl.Legacy.Frame.{Response, take_frame, parse_response}
use tryxctl.Legacy.Frame.Taking.{take_frame-none, take_frame-empty}
use tryxctl.Legacy.Frame.Wrap.{build_frame_error}
use tryxctl.Legacy.Serial
use tryxctl.Legacy.Serial.{
  Port, PortError, timed_out, interrupted, broken, Link, SerialLink, send_with, read_response,
  request_with,
}

module _ (port : Port) where
  open port use {World, now, read, Json, from_str}

  -- Reads from one state of the port to another, and the bytes that they brought.
  pub data Heard (start : World) : Bytes → World → Type 0 where
    silence : Heard start [] start
    heard :
        {bs : Bytes} {w : World} {cs : Bytes}
        → Heard start bs w
        → (read w).0 ≡ ok cs
        → Heard start (bs ++ cs) (read w).1
    missed :
        {bs : Bytes} {w : World} {e : PortError}
        → Heard start bs w
        → (read w).0 ≡ err e
        → Heard start bs (read w).1

  -- A response is that of the first frame in what was heard; a malformed one is a frame that cannot be
  -- parsed; and a missing one was waited for, and nothing heard was a frame.
  pub IsVerdict : World → ℕ → Option (Result LegacyError (Response Json)) → World → Type 0
  IsVerdict start deadline (some (ok response)) w =
      (bytes : Bytes) × (frame : Bytes) × (rest : Bytes) × Heard start bytes w
      × (take_frame bytes ≡ (some frame, rest))
      × (parse_response Json from_str frame ≡ some response)
  IsVerdict start deadline (some (err (no_response _ _))) w =
      (deadline ≤ now w) × ((bytes : Bytes) × Heard start bytes w × ((take_frame bytes).0 ≡ none))
  IsVerdict start deadline (some (err (malformed_response _))) w =
      (bytes : Bytes) × (frame : Bytes) × (rest : Bytes) × Heard start bytes w
      × (take_frame bytes ≡ (some frame, rest))
      × (parse_response Json from_str frame ≡ none)
  IsVerdict start deadline _ w = Unit

  abbrev Answer : Type 0
  Answer = Option (Result LegacyError (Response Json)) × World

  parsed-IsVerdict :
      (command bytes frame rest : Bytes) (start : World) (deadline : ℕ) (w : World)
      (response : Option (Response Json))
      → take_frame bytes ≡ (some frame, rest)
      → Heard start bytes w
      → parse_response Json from_str frame ≡ response
      → IsVerdict start deadline (some (Serial.parsed port command response)) w
  unfolding Serial.parsed IsVerdict
  parsed-IsVerdict command bytes frame rest start deadline w (some response) e h p =
      (bytes, frame, rest, h, e, p)
  parsed-IsVerdict command bytes frame rest start deadline w none e h p =
      (bytes, frame, rest, h, e, p)

  framed-IsVerdict :
      (again : Bytes → World → Answer) (command bytes : Bytes) (start : World) (deadline : ℕ)
      (taken : Option Bytes × Bytes) (w : World)
      → take_frame bytes ≡ taken
      → Heard start bytes w
      → ((take_frame bytes).0 ≡ none → IsVerdict start deadline (again bytes w).0 (again bytes w).1)
      → IsVerdict start deadline
          (Serial.framed port again command taken w).0
          (Serial.framed port again command taken w).1
  unfolding Serial.framed
  framed-IsVerdict again command bytes start deadline (some frame, rest) w e h k =
      parsed-IsVerdict command bytes frame rest start deadline w _ e h refl
  framed-IsVerdict again command bytes start deadline (none, rest) w e h k =
      rw (take_frame-none bytes rest e) (k (ap (λ (r : Option Bytes × Bytes). r.0) e))

  heard-IsVerdict :
      (again : Bytes → World → Answer) (command buffer : Bytes) (start : World) (deadline : ℕ)
      (w : World) (r : Result PortError Bytes)
      → (read w).0 ≡ r
      → Heard start buffer w
      → (take_frame buffer).0 ≡ none
      → ((b : Bytes)
          → Heard start b (read w).1
          → (take_frame b).0 ≡ none
          → IsVerdict start deadline (again b (read w).1).0 (again b (read w).1).1)
      → IsVerdict start deadline
          (Serial.heard port again command buffer r (read w).1).0
          (Serial.heard port again command buffer r (read w).1).1
  unfolding Serial.heard IsVerdict
  heard-IsVerdict again command buffer start deadline w (ok []) e h q k =
      let more : Heard start (buffer ++ []) (read w).1 = heard h e in
      k buffer (rw (← append-nil buffer) more) q
  heard-IsVerdict again command buffer start deadline w (ok (b ∷ bs)) e h q k =
      framed-IsVerdict again command (buffer ++ (b ∷ bs)) start deadline
        (take_frame (buffer ++ (b ∷ bs))) (read w).1 refl (heard h e)
        (k (buffer ++ (b ∷ bs)) (heard h e))
  heard-IsVerdict again command buffer start deadline w (err timed_out) e h q k =
      k buffer (missed h e) q
  heard-IsVerdict again command buffer start deadline w (err interrupted) e h q k =
      k buffer (missed h e) q
  heard-IsVerdict again command buffer start deadline w (err (broken x)) e h q k = tt

  response_loop-IsVerdict :
      (fuel : ℕ) (command : Bytes) (timeout deadline : ℕ) (buffer : Bytes) (start w : World)
      → Heard start buffer w
      → (take_frame buffer).0 ≡ none
      → IsVerdict start deadline
          (Serial.response_loop port fuel command timeout deadline buffer w).0
          (Serial.response_loop port fuel command timeout deadline buffer w).1
  unfolding Serial.response_loop IsVerdict
  response_loop-IsVerdict zero command timeout deadline buffer start w h q = tt
  response_loop-IsVerdict (suc fuel) command timeout deadline buffer start w h q =
      elim (Bool-cases (ltb (now w) deadline)) [
        | inl early ↦ simp early (
            heard-IsVerdict (λ b t. Serial.response_loop port fuel command timeout deadline b t)
              command buffer start deadline w (read w).0 refl h q
              (λ b more none_yet.
                response_loop-IsVerdict fuel command timeout deadline b start (read w).1 more
                  none_yet))
        | inr late ↦ simp late (ground (arith, late), (buffer, h, q))
      ]

  read_response-IsVerdict :
      (command : Bytes) (link : SerialLink World)
      → IsVerdict link.world
          (now link.world + link.response_timeout)
          (read_response port command link).0
          (read_response port command link).1.world
  unfolding read_response
  read_response-IsVerdict command link =
      response_loop-IsVerdict (suc link.response_timeout) command link.response_timeout _ []
        link.world link.world silence take_frame-empty

  -- A failure to write is none of a missing or a malformed response.
  IsSendError : Result LegacyError (Unit {0}) → Type 0
  IsSendError (err (no_response _ _)) = ⊥
  IsSendError (err (malformed_response _)) = ⊥
  IsSendError _ = Unit

  answered-IsVerdict :
      (command : Bytes) (r : Result LegacyError (Unit {0})) (link : SerialLink World)
      → IsSendError r
      → IsVerdict link.world
          (now link.world + link.response_timeout)
          (Serial.answered port command r link).0
          (Serial.answered port command r link).1.world
  unfolding Serial.answered IsVerdict IsSendError
  answered-IsVerdict command (ok _) link h = read_response-IsVerdict command link
  answered-IsVerdict command (err (no_response _ _)) link h = absurd h
  answered-IsVerdict command (err (LegacyError.serial _ _)) link h = tt
  answered-IsVerdict command (err (LegacyError.io _)) link h = tt
  answered-IsVerdict command (err (LegacyError.request_too_long _)) link h = tt
  answered-IsVerdict command (err (LegacyError.malformed_response _)) link h = absurd h
  answered-IsVerdict command (err (LegacyError.missing_json _)) link h = tt
  answered-IsVerdict command (err LegacyError.adb_missing) link h = tt
  answered-IsVerdict command (err (LegacyError.adb _ _)) link h = tt
  answered-IsVerdict command (err (LegacyError.unsafe_media_name _)) link h = tt

  written-IsSendError : (r : Result Bytes (Unit {0})) → IsSendError (Serial.written port r)
  unfolding IsSendError Serial.written
  written-IsSendError (ok _) = tt
  written-IsSendError (err _) = tt

  too_long-IsSendError :
      (n : ℕ) (e : LegacyError) (w : Link port)
      → request_too_long n ≡ e
      → IsSendError (Serial.write_frame port (err e) w).0
  unfolding Serial.write_frame IsSendError
  too_long-IsSendError n e w h = rw (← h) tt

  write_frame-IsSendError :
      (frame : Result LegacyError Bytes) (link : Link port)
      → ((e : LegacyError) → frame ≡ err e → (n : ℕ) × (request_too_long n ≡ e))
      → IsSendError (Serial.write_frame port frame link).0
  unfolding Serial.write_frame IsSendError
  write_frame-IsSendError (ok bytes) link h = written-IsSendError _
  write_frame-IsSendError (err e) link h = too_long-IsSendError (h e refl).0 e link (h e refl).1

  send_with-IsSendError :
      (method command content : Bytes) (link : Link port)
      → IsSendError (send_with port method command content link).0
  unfolding send_with
  send_with-IsSendError method command content link =
      write_frame-IsSendError _ _ (build_frame_error _ _ _ _ _)

  -- A request that returns a response returns the one parsed from the first frame in the bytes that
  -- the port gave since the request was written, however they were split; a request that reports
  -- a malformed response got such a frame, which cannot be parsed; and one that reports that no response
  -- came has waited for the whole timeout since then, and what was given to it holds no frame.
  pub request_with-IsVerdict :
      (method command content : Bytes) (link : Link port)
      → IsVerdict
          (send_with port method command content link).1.world
          (now (send_with port method command content link).1.world
            + (send_with port method command content link).1.response_timeout)
          (request_with port method command content link).0
          (request_with port method command content link).1.world
  unfolding request_with
  request_with-IsVerdict method command content link =
      answered-IsVerdict command (send_with port method command content link).0
        (send_with port method command content link).1
        (send_with-IsSendError method command content link)
