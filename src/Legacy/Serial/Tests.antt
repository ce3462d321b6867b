-- ===== src/Legacy/Serial/Tests.antt =====
-- A port that follows a script, and requests over it.
use tryxctl.Prelude.{
  ◌≤◌, ℕ, ◌+◌, ◌≡◌, ◌≢◌, ◌<◌, refl, none, some, List, [], ◌∷◌, ◌++◌, Result, ok, err, Bytes, arith,
}
use tryxctl.Prelude.Text.{codes}
use tryxctl.Legacy.Serial.{
  Port, PortError, timed_out, SerialLink, from_port, millis, drain, drain_window, send_with,
  request_with,
}
use tryxctl.Legacy.Serial.Ending.{Stopped, request_with-Ends}
use tryxctl.Legacy.Serial.Bounds.{request_with-InTime}
use tryxctl.Legacy.Serial.Heard.{IsVerdict, request_with-IsVerdict}

-- The time, and what the reads to come give; then they time out.
record Script : Type 0 where
  time : ℕ
  reads : List (Result PortError Bytes)

abbrev next_read : ℕ → List (Result PortError Bytes) → Result PortError Bytes × Script
next_read t [] = (err timed_out, record { time = t + millis 50; reads = [] })
next_read t (r ∷ rs) = (r, record { time = t + millis 5; reads = rs })

next_read_ticks : (t : ℕ) (rs : List (Result PortError Bytes)) → t < (next_read t rs).1.time
next_read_ticks t [] = omega arith
next_read_ticks t (r ∷ rs) = omega arith

abbrev scripted : Port
scripted = record {
  World = Script;
  now = λ s. s.time;
  read = λ s. next_read s.time s.reads;
  write_all = λ s b. (ok tt, s);
  Json = List ℕ;
  from_str = λ body. some body;
  read_ticks = λ s. next_read_ticks s.time s.reads;
  write_ticks = λ s b. omega arith;
}

-- Four stale bytes, silence, then the reply in two parts: `wrap` of "1 200\r\n\r\n{}".
abbrev script : SerialLink Script
script = from_port record {
  time = 0;
  reads =
      ok (1 ∷ 2 ∷ 3 ∷ 4 ∷ [])
      ∷ err timed_out
      ∷ ok (0x5A ∷ 0 ∷ 16 ∷ codes "1 200")
      ∷ ok (codes "\r\n\r\n{}" ++ (0x67 ∷ 0x5A ∷ []))
      ∷ [];
}

drained_bytes : (drain scripted script).0 ≡ 4
unfolding drain from_port
drained_bytes = refl

next_read-InTime :
    (t : ℕ) (rs : List (Result PortError Bytes)) → (next_read t rs).1.time ≤ t + millis 50
next_read-InTime t [] = omega arith
next_read-InTime t (r ∷ rs) = omega arith

request_with-InTime_example :
    (request_with scripted (codes "POST") (codes "conn") [] script).1.world.time
    ≤ script.world.time + drain_window + millis 50 + 0 + script.response_timeout + millis 50
request_with-InTime_example =
    request_with-InTime scripted (millis 50) 0 (codes "POST") (codes "conn") [] script
      (λ w. next_read-InTime w.time w.reads) (λ w b. omega arith)

request_with-Ends_example :
    ((request_with scripted (codes "POST") (codes "conn") [] script).0 ≢ none)
    × Stopped scripted (script.world.time + drain_window) (drain scripted script).1.world
request_with-Ends_example = request_with-Ends scripted (codes "POST") (codes "conn") [] script

request_with-IsVerdict_example :
    IsVerdict scripted
      (send_with scripted (codes "POST") (codes "conn") [] script).1.world
      ((send_with scripted (codes "POST") (codes "conn") [] script).1.world.time
        + (send_with scripted (codes "POST") (codes "conn") [] script).1.response_timeout)
      (request_with scripted (codes "POST") (codes "conn") [] script).0
      (request_with scripted (codes "POST") (codes "conn") [] script).1.world
request_with-IsVerdict_example =
    request_with-IsVerdict scripted (codes "POST") (codes "conn") [] script
