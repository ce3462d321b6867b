-- ===== src/Kanali/Transport.antt =====
-- The pipe of crates/tryx-kanali/src/transport.rs as an interface: a trait over USB or a socket.
-- A duration is a number of nanoseconds.
use tryxctl.Prelude.{ℕ, ◌+◌, ◌≤◌, ◌<◌, Result, Bytes}

pub data TransportError : Type 0 where
  timeout disconnected : TransportError
  usb io not_found : Bytes → TransportError

-- The world outside, with its clock. `read` is given the size of the buffer and a timeout.
pub record Pipe : Type 1 where
  pub World : Type 0
  pub now : World → ℕ
  pub write : World → Bytes → ℕ → Result TransportError ℕ × World
  pub read : World → ℕ → ℕ → Result TransportError Bytes × World
  pub sleep : World → ℕ → World
  -- What the session relies on: a call takes some time, and a sleep as long as it says.
  pub write_ticks : (w : World) (b : Bytes) (t : ℕ) → now w < now (write w b t).1
  pub read_ticks : (w : World) (size t : ℕ) → now w < now (read w size t).1
  pub sleep_ticks : (w : World) (t : ℕ) → now w + t ≤ now (sleep w t)
