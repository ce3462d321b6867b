-- ===== src/Legacy/Serial.antt =====
-- The command channel of crates/tryx-legacy/src/serial.rs over a port, which is an interface here:
-- the bytes it reads and writes, and a clock in nanoseconds. Opening the port and tracing are left
-- out.
pub mod Ending
mod Heard
mod Bounds
mod Tests
use tryxctl.Prelude.{
  ℕ, zero, suc, ◌+◌, ◌-◌, ◌*◌, ◌/◌, ◌%◌, ◌^◌, ◌≤◌, ◌<◌, Bool, true, false, Option, none, some, List,
  [], ◌∷◌, ◌++◌, if◌then◌else◌, ltb, length, Result, ok, err, Bytes,
}
use tryxctl.Prelude.Text.{codes}
use tryxctl.Legacy.{LegacyError, io, no_response, malformed_response}
use tryxctl.Legacy.Frame.{Response, build_frame, take_frame, parse_response}

pub data PortError : Type 0 where
  timed_out interrupted : PortError
  broken : Bytes → PortError

-- A read gives at most 256 bytes here. `write_all` writes and flushes.
pub record Port : Type 1 where
  pub World : Type 0
  pub now : World → ℕ
  pub read : World → Result PortError Bytes × World
  pub write_all : World → Bytes → Result Bytes (Unit {0}) × World
  pub Json : Type 0
  pub from_str : List ℕ → Option Json
  -- What the link relies on: a read takes some time.
  pub read_ticks : (w : World) → now w < now (read w).1
  pub write_ticks : (w : World) (b : Bytes) → now w ≤ now (write_all w b).1

abbrev pub millis : ℕ → ℕ
millis n = n * 1000000

abbrev pub default_response_timeout : ℕ
default_response_timeout = millis 1000

abbrev pub drain_window : ℕ
drain_window = millis 150

pub record SerialLink (W : Type 0) : Type 0 where
  pub world : W
  pub sequence : ℕ
  pub response_timeout : ℕ

pub from_port : {W : Type 0} → W → SerialLink W
from_port w = record { world = w; sequence = 0; response_timeout = default_response_timeout }

module _ (port : Port) where
  open port use {World, now, read, write_all, Json, from_str}

  abbrev pub Link : Type 0
  Link = SerialLink World

  -- Stale bytes are counted; an interrupted read is repeated, and any other error ends the loop.
  drained : (ℕ → World → ℕ × World) → ℕ → Result PortError Bytes → World → ℕ × World
  drained again discarded (ok []) w = (discarded, w)
  drained again discarded (ok (b ∷ bs)) w = again (discarded + length (b ∷ bs)) w
  drained again discarded (err interrupted) w = again discarded w
  drained again discarded (err _) w = (discarded, w)

  drain_loop : ℕ → ℕ → ℕ → World → ℕ × World
  unfolding drained
  drain_loop zero deadline discarded w = (discarded, w)
  drain_loop (suc fuel) deadline discarded w =
      let (r, after) = read w in
      let rest = drained (λ n t. drain_loop fuel deadline n t) discarded r after in
      if ltb (now w) deadline then rest else (discarded, w)

  -- The clock moves in every round, so that the window is fuel enough.
  pub drain : Link → ℕ × Link
  unfolding drain_loop
  drain link =
      let (n, w) = drain_loop drain_window (now link.world + drain_window) 0 link.world in
      (n, record link { world = w })

  written : Result Bytes (Unit {0}) → Result LegacyError (Unit {0})
  written (ok _) = ok tt
  written (err e) = err (io e)

  write_frame : Result LegacyError Bytes → Link → Result LegacyError (Unit {0}) × Link
  unfolding written
  write_frame (err e) link = (err e, link)
  write_frame (ok bytes) link =
      let (r, w) = write_all link.world bytes in (written r, record link { world = w })

  -- The sequence is counted even if the frame cannot be built.
  pub send_with : Bytes → Bytes → Bytes → Link → Result LegacyError (Unit {0}) × Link
  unfolding write_frame
  send_with method command content link =
      let (n, drained) = drain link in
      let next = record drained { sequence = (drained.sequence + 1) % 2 ^ 32 } in
      write_frame (build_frame method command content (codes "1") next.sequence) next

  -- A frame that was received, or more to read.
  parsed : Bytes → Option (Response Json) → Result LegacyError (Response Json)
  parsed command (some response) = ok response
  parsed command none = err (malformed_response command)

  framed :
      (Bytes → World → Option (Result LegacyError (Response Json)) × World)
      → Bytes
      → Option Bytes × Bytes
      → World
      → Option (Result LegacyError (Response Json)) × World
  unfolding parsed
  framed again command (some bytes, buffer) w =
      (some (parsed command (parse_response Json from_str bytes)), w)
  framed again command (none, buffer) w = again buffer w

  heard :
      (Bytes → World → Option (Result LegacyError (Response Json)) × World)
      → Bytes
      → Bytes
      → Result PortError Bytes
      → World
      → Option (Result LegacyError (Response Json)) × World
  unfolding framed
  heard again command buffer (ok []) w = again buffer w
  heard again command buffer (ok (b ∷ bs)) w =
      framed again command (take_frame (buffer ++ (b ∷ bs))) w
  heard again command buffer (err (broken e)) w = (some (err (io e)), w)
  heard again command buffer (err _) w = again buffer w

  -- `none` is out of fuel.
  response_loop :
      ℕ → Bytes → ℕ → ℕ → Bytes → World → Option (Result LegacyError (Response Json)) × World
  unfolding heard
  response_loop zero command timeout deadline buffer w = (none, w)
  response_loop (suc fuel) command timeout deadline buffer w =
      let (r, after) = read w in
      let rest =
        heard (λ b t. response_loop fuel command timeout deadline b t) command buffer r after in
      if ltb (now w) deadline
      then rest
      else (some (err (no_response command (timeout / 1000000))), w)

  -- One round more than the nanoseconds left, which finds the deadline passed.
  pub read_response : Bytes → Link → Option (Result LegacyError (Response Json)) × Link
  unfolding response_loop
  read_response command link =
      let timeout = link.response_timeout in
      let (r, w) =
        response_loop (suc timeout) command timeout (now link.world + timeout) [] link.world in
      (r, record link { world = w })

  answered :
      Bytes
      → Result LegacyError (Unit {0})
      → Link
      → Option (Result LegacyError (Response Json)) × Link
  answered command (ok _) link = read_response command link
  answered command (err e) link = (some (err e), link)

  pub request_with :
      Bytes → Bytes → Bytes → Link → Option (Result LegacyError (Response Json)) × Link
  unfolding answered
  request_with method command content link =
      let (r, sent) = send_with method command content link in answered command r sent

  pub request : Bytes → Bytes → Link → Option (Result LegacyError (Response Json)) × Link
  request = request_with (codes "POST")

  pub send : Bytes → Bytes → Link → Result LegacyError (Unit {0}) × Link
  send = send_with (codes "POST")
