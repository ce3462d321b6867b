-- ===== src/Legacy/Serial/Ending.antt =====
-- The wait for a response and the drain before a write end by their deadlines.
use tryxctl.Prelude.{
  ℕ, zero, suc, ◌+◌, ◌-◌, ◌≡◌, ◌≢◌, ◌≤◌, ◌<◌, refl, Option, none, some, [], ◌∷◌, ◌++◌, ltb, Result,
  ok, err, Bytes, Bool-cases, inl, inr, arith,
}
use tryxctl.Legacy.{LegacyError}
use tryxctl.Legacy.Frame.{Response, take_frame}
use tryxctl.Legacy.Serial
use tryxctl.Legacy.Serial.{
  Port, PortError, timed_out, interrupted, broken, SerialLink, read_response, request_with, drain,
  drain_window, send_with,
}

module _ (port : Port) where
  open port use {World, now, read, Json, read_ticks}

  abbrev Answer : Type 0
  Answer = Option (Result LegacyError (Response Json)) × World

  -- Why a drain stops in a world: its deadline has passed, or the last read brought nothing or
  -- failed otherwise than by an interruption.
  pub data Stopped : ℕ → World → Type 0 where
    is_late : {deadline : ℕ} {w : World} → deadline ≤ now w → Stopped deadline w
    is_idle :
        {deadline : ℕ} {w : World} (before : World) → read before ≡ (ok [], w) → Stopped deadline w
    has_failed :
        {deadline : ℕ} {w : World} (before : World) (e : PortError)
        → e ≢ interrupted
        → read before ≡ (err e, w)
        → Stopped deadline w

  drained-Stopped :
      (again : ℕ → World → ℕ × World) (deadline discarded : ℕ) (r : Result PortError Bytes)
      (w after : World)
      → read w ≡ (r, after)
      → ((n : ℕ) → Stopped deadline (again n after).1)
      → Stopped deadline (Serial.drained port again discarded r after).1
  unfolding Serial.drained
  drained-Stopped again deadline discarded (ok []) w after h k = is_idle w h
  drained-Stopped again deadline discarded (ok (b ∷ bs)) w after h k = k _
  drained-Stopped again deadline discarded (err interrupted) w after h k = k _
  drained-Stopped again deadline discarded (err timed_out) w after h k =
      has_failed w timed_out (λ e. ground (arith, e)) h
  drained-Stopped again deadline discarded (err (broken m)) w after h k =
      has_failed w (broken m) (λ e. ground (arith, e)) h

  -- A round for each nanosecond left is enough for a drain.
  drain_loop-Stopped :
      (fuel deadline discarded : ℕ) (w : World)
      → deadline - now w ≤ fuel
      → Stopped deadline (Serial.drain_loop port fuel deadline discarded w).1
  unfolding Serial.drain_loop
  drain_loop-Stopped zero deadline discarded w h = is_late (omega (arith, h))
  drain_loop-Stopped (suc fuel) deadline discarded w h = elim (Bool-cases (ltb (now w) deadline)) [
    | inl early ↦ simp early (
        drained-Stopped (λ n t. Serial.drain_loop port fuel deadline n t) deadline discarded
          (read w).0 w (read w).1 refl
          (λ n.
            drain_loop-Stopped fuel deadline n (read w).1 (ground (arith, h, early, read_ticks w))))
    | inr late ↦ simp late (is_late (ground (arith, late)))
  ]

  drain-Stopped :
      (link : SerialLink World) → Stopped (now link.world + drain_window) (drain port link).1.world
  unfolding drain
  drain-Stopped link = drain_loop-Stopped drain_window _ 0 link.world (omega arith)

  framed-Ends :
      (again : Bytes → World → Answer) (command : Bytes) (taken : Option Bytes × Bytes) (w : World)
      → ((b : Bytes) → (again b w).0 ≢ none)
      → (Serial.framed port again command taken w).0 ≢ none
  unfolding Serial.framed
  framed-Ends again command (some bytes, buffer) w k = λ e. ground (arith, e)
  framed-Ends again command (none, buffer) w k = k buffer

  heard-Ends :
      (again : Bytes → World → Answer) (command buffer : Bytes) (r : Result PortError Bytes)
      (w : World)
      → ((b : Bytes) → (again b w).0 ≢ none)
      → (Serial.heard port again command buffer r w).0 ≢ none
  unfolding Serial.heard
  heard-Ends again command buffer (ok []) w k = k buffer
  heard-Ends again command buffer (ok (b ∷ bs)) w k =
      framed-Ends again command (take_frame (buffer ++ (b ∷ bs))) w k
  heard-Ends again command buffer (err timed_out) w k = k buffer
  heard-Ends again command buffer (err interrupted) w k = k buffer
  heard-Ends again command buffer (err (broken e)) w k = λ h. ground (arith, h)

  response_loop-Ends :
      (fuel : ℕ) (command : Bytes) (timeout deadline : ℕ) (buffer : Bytes) (w : World)
      → deadline - now w < fuel
      → (Serial.response_loop port fuel command timeout deadline buffer w).0 ≢ none
  unfolding Serial.response_loop
  response_loop-Ends zero command timeout deadline buffer w h = absurd (omega (arith, h))
  response_loop-Ends (suc fuel) command timeout deadline buffer w h =
      elim (Bool-cases (ltb (now w) deadline)) [
        | inl early ↦ simp early (
            heard-Ends (λ b t. Serial.response_loop port fuel command timeout deadline b t) command
              buffer (read w).0 (read w).1
              (λ b.
                response_loop-Ends fuel command timeout deadline b (read w).1
                  (ground (arith, h, early, read_ticks w))))
        | inr late ↦ simp late (λ e. ground (arith, e))
      ]

  read_response-Ends :
      (command : Bytes) (link : SerialLink World) → (read_response port command link).0 ≢ none
  unfolding read_response
  read_response-Ends command link =
      response_loop-Ends (suc link.response_timeout) command link.response_timeout _ [] link.world
        (omega arith)

  answered-Ends :
      (command : Bytes) (r : Result LegacyError (Unit {0})) (link : SerialLink World)
      → (Serial.answered port command r link).0 ≢ none
  unfolding Serial.answered
  answered-Ends command (ok _) link = read_response-Ends command link
  answered-Ends command (err e) link = λ h. ground (arith, h)

  request_with_answers :
      (method command content : Bytes) (link : SerialLink World)
      → (request_with port method command content link).0 ≢ none
  unfolding request_with
  request_with_answers method command content link =
      answered-Ends command (send_with port method command content link).0
        (send_with port method command content link).1

  -- A request ends, with a response or an error: the wait for its response does not run out of
  -- rounds. The drain before its write stops when its window has passed, or at a read that brings
  -- nothing or fails, and not for want of rounds.
  pub request_with-Ends :
      (method command content : Bytes) (link : SerialLink World)
      → ((request_with port method command content link).0 ≢ none)
        × Stopped (now link.world + drain_window) (drain port link).1.world
  request_with-Ends method command content link =
      (request_with_answers method command content link, drain-Stopped link)
