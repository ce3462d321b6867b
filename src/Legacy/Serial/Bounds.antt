-- ===== src/Legacy/Serial/Bounds.antt =====
-- How long a request takes.
use tryxctl.Prelude.{
  ℕ, zero, suc, ◌+◌, ◌≡◌, ◌≤◌, refl, Option, none, some, [], ◌∷◌, ◌++◌, ltb, Result, ok, err, Bytes,
  Bool-cases, inl, inr, arith,
}
use tryxctl.Legacy.{LegacyError}
use tryxctl.Legacy.Frame.{Response, take_frame}
use tryxctl.Legacy.Serial
use tryxctl.Legacy.Serial.{
  Port, PortError, timed_out, interrupted, broken, SerialLink, Link, drain, drain_window, send_with,
  read_response, request_with,
}

-- The bounds are in nanoseconds: a read takes at most `slice`, and a write at most `writing`.
module _ (port : Port) (slice writing : ℕ) where
  open port use {World, now, read, write_all, Json, from_str}

  abbrev pub ReadsInTime : Type 0
  ReadsInTime = (w : World) → now (read w).1 ≤ now w + slice

  abbrev pub WritesInTime : Type 0
  WritesInTime = (w : World) (b : Bytes) → now (write_all w b).1 ≤ now w + writing

  drained-InTime :
      (again : ℕ → World → ℕ × World) (n : ℕ) (r : Result PortError Bytes) (w : World) (bound : ℕ)
      → ((m : ℕ) → now (again m w).1 ≤ bound)
      → now w ≤ bound
      → now (Serial.drained port again n r w).1 ≤ bound
  unfolding Serial.drained
  drained-InTime again n (ok []) w bound h k = k
  drained-InTime again n (ok (b ∷ bs)) w bound h k = h _
  drained-InTime again n (err timed_out) w bound h k = k
  drained-InTime again n (err interrupted) w bound h k = h n
  drained-InTime again n (err (broken e)) w bound h k = k

  drain_loop-InTime :
      (fuel deadline n : ℕ) (w : World)
      → ReadsInTime
      → now w ≤ deadline + slice
      → now (Serial.drain_loop port fuel deadline n w).1 ≤ deadline + slice
  unfolding Serial.drain_loop
  drain_loop-InTime zero deadline n w reads h = h
  drain_loop-InTime (suc fuel) deadline n w reads h = elim (Bool-cases (ltb (now w) deadline)) [
    | inl early ↦
        let next : now (read w).1 ≤ deadline + slice = ground (arith, early, reads w) in
        simp early (
          drained-InTime (λ m t. Serial.drain_loop port fuel deadline m t) n (read w).0 (read w).1
            (deadline + slice) (λ m. drain_loop-InTime fuel deadline m (read w).1 reads next) next)
    | inr late ↦ simp late h
  ]

  drain-InTime :
      (link : Link port)
      → ReadsInTime
      → now (drain port link).1.world ≤ now link.world + drain_window + slice
  unfolding drain
  drain-InTime link reads =
      drain_loop-InTime drain_window (now link.world + drain_window) 0 link.world reads
        (omega arith)

  write_frame-InTime :
      (frame : Result LegacyError Bytes) (link : Link port)
      → WritesInTime
      → now (Serial.write_frame port frame link).1.world ≤ now link.world + writing
  unfolding Serial.write_frame
  write_frame-InTime (ok bytes) link writes = writes link.world bytes
  write_frame-InTime (err e) link writes = omega arith

  send_with-InTime :
      (method command content : Bytes) (link : Link port)
      → ReadsInTime
      → WritesInTime
      → now (send_with port method command content link).1.world
        ≤ now link.world + drain_window + slice + writing
  unfolding send_with
  send_with-InTime method command content link reads writes =
      omega (arith, drain-InTime link reads, write_frame-InTime _ _ writes)

  framed-InTime :
      (again : Bytes → World → Option (Result LegacyError (Response Json)) × World)
      (command : Bytes) (taken : Option Bytes × Bytes) (w : World) (bound : ℕ)
      → ((b : Bytes) → now (again b w).1 ≤ bound)
      → now w ≤ bound
      → now (Serial.framed port again command taken w).1 ≤ bound
  unfolding Serial.framed
  framed-InTime again command (some bytes, buffer) w bound h k = k
  framed-InTime again command (none, buffer) w bound h k = h buffer

  heard-InTime :
      (again : Bytes → World → Option (Result LegacyError (Response Json)) × World)
      (command buffer : Bytes) (r : Result PortError Bytes) (w : World) (bound : ℕ)
      → ((b : Bytes) → now (again b w).1 ≤ bound)
      → now w ≤ bound
      → now (Serial.heard port again command buffer r w).1 ≤ bound
  unfolding Serial.heard
  heard-InTime again command buffer (ok []) w bound h k = h buffer
  heard-InTime again command buffer (ok (b ∷ bs)) w bound h k =
      framed-InTime again command (take_frame (buffer ++ (b ∷ bs))) w bound h k
  heard-InTime again command buffer (err timed_out) w bound h k = h buffer
  heard-InTime again command buffer (err interrupted) w bound h k = h buffer
  heard-InTime again command buffer (err (broken e)) w bound h k = k

  response_loop-InTime :
      (fuel : ℕ) (command : Bytes) (timeout deadline : ℕ) (buffer : Bytes) (w : World)
      → ReadsInTime
      → now w ≤ deadline + slice
      → now (Serial.response_loop port fuel command timeout deadline buffer w).1 ≤ deadline + slice
  unfolding Serial.response_loop
  response_loop-InTime zero command timeout deadline buffer w reads h = h
  response_loop-InTime (suc fuel) command timeout deadline buffer w reads h =
      elim (Bool-cases (ltb (now w) deadline)) [
        | inl early ↦
            let next : now (read w).1 ≤ deadline + slice = ground (arith, early, reads w) in
            simp early (
              heard-InTime (λ b t. Serial.response_loop port fuel command timeout deadline b t)
                command buffer (read w).0 (read w).1 (deadline + slice)
                (λ b. response_loop-InTime fuel command timeout deadline b (read w).1 reads next)
                next)
        | inr late ↦ simp late h
      ]

  answered-InTime :
      (command : Bytes) (r : Result LegacyError (Unit {0})) (link : Link port)
      → ReadsInTime
      → now (Serial.answered port command r link).1.world
        ≤ now link.world + link.response_timeout + slice
  unfolding Serial.answered read_response
  answered-InTime command (ok _) link reads =
      response_loop-InTime (suc link.response_timeout) command link.response_timeout
        (now link.world + link.response_timeout) [] link.world reads (omega arith)
  answered-InTime command (err e) link reads = omega arith

  write_frame-timeout :
      (frame : Result LegacyError Bytes) (link : Link port)
      → (Serial.write_frame port frame link).1.response_timeout ≡ link.response_timeout
  unfolding Serial.write_frame
  write_frame-timeout (ok bytes) link = refl
  write_frame-timeout (err e) link = refl

  send_with-timeout :
      (method command content : Bytes) (link : Link port)
      → (send_with port method command content link).1.response_timeout ≡ link.response_timeout
  unfolding send_with drain
  send_with-timeout method command content link = write_frame-timeout _ _

  -- Where a read takes at most a slice and a write at most a given time, a request takes at most the
  -- drain window, the write, the response timeout and two slices, whatever the device sends.
  pub request_with-InTime :
      (method command content : Bytes) (link : Link port)
      → ReadsInTime
      → WritesInTime
      → now (request_with port method command content link).1.world
        ≤ now link.world + drain_window + slice + writing + link.response_timeout + slice
  unfolding request_with
  request_with-InTime method command content link reads writes = omega (
    arith,
    send_with-timeout method command content link,
    send_with-InTime method command content link reads writes,
    answered-InTime command (send_with port method command content link).0
        (send_with port method command content link).1 reads,
  )
