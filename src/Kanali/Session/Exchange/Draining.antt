-- ===== src/Kanali/Session/Exchange/Draining.antt =====
-- A drain of the session ends by its deadline, or at a read that fails.
use tryxctl.Prelude.{
  ℕ, zero, suc, ◌+◌, ◌-◌, ◌≤◌, ◌≡◌, refl, max, arith, ltb, Bytes, Bool-cases, inl, inr, Result, ok,
  err,
}
use tryxctl.Kanali.Wire.{Codec}
use tryxctl.Kanali.Transport.{Pipe, TransportError}
use tryxctl.Kanali.Session.{millis, read_buffer}
use tryxctl.Kanali.Session.Exchange
use tryxctl.Kanali.Session.Exchange.{Session}

module _ (pipe : Pipe) (codec : Codec) where
  open pipe use {World, now, write, read}

  abbrev State : Type 0
  State = Session World

  -- Why a drain stops in a world: its deadline has passed, or the last read of the pipe failed.
  pub data Stopped : ℕ → World → Type 0 where
    is_late : {deadline : ℕ} {w : World} → deadline ≤ now w → Stopped deadline w
    has_failed :
        {deadline : ℕ} {w : World} (before : World) (size limit : ℕ) (e : TransportError)
        → read before size limit ≡ (err e, w)
        → Stopped deadline w

  drained-Stopped :
      (again : ℕ → State → ℕ × State) (deadline discarded size limit : ℕ)
      (r : Result TransportError Bytes) (w : World) (s : State)
      → read w size limit ≡ (r, s.world)
      → ((n : ℕ) → Stopped deadline (again n s).1.world)
      → Stopped deadline (Exchange.drained pipe codec again discarded r s).1.world
  unfolding Exchange.drained
  drained-Stopped again deadline discarded size limit (ok bytes) w s h k = k _
  drained-Stopped again deadline discarded size limit (err e) w s h k = has_failed w size limit e h

  -- A round for each nanosecond left is enough for a drain.
  drain_loop-Stopped :
      (fuel deadline discarded : ℕ) (s : State)
      → deadline - now (s.world) ≤ fuel
      → Stopped deadline (Exchange.drain_loop pipe codec fuel deadline discarded s).1.world
  unfolding Exchange.drain_loop
  drain_loop-Stopped zero deadline discarded s h = is_late (omega (arith, h))
  drain_loop-Stopped (suc fuel) deadline discarded s h =
      let limit = max (deadline - now (s.world)) (millis 1) in
      let got = read (s.world) read_buffer limit in
      let t = record s { world = got.1 } in
      elim (Bool-cases (ltb (now (s.world)) deadline)) [
        | inl early ↦ simp early (
            drained-Stopped (λ n t. Exchange.drain_loop pipe codec fuel deadline n t) deadline
              discarded read_buffer limit (got.0) (s.world) t refl
              (λ n.
                drain_loop-Stopped fuel deadline n t
                  (ground (arith, h, early, pipe.read_ticks (s.world) read_buffer limit))))
        | inr late ↦ simp late (is_late (ground (arith, late)))
      ]

  pub drain-Stopped :
      (window : ℕ) (s : State)
      → Stopped (now (s.world) + window) (Exchange.drain pipe codec window s).1.world
  unfolding Exchange.drain
  drain-Stopped window s = drain_loop-Stopped window _ 0 s (omega arith)
