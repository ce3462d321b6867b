-- ===== src/Kanali/Session/Track.antt =====
-- The track ids that a session stamps on its requests.
use tryxctl.Prelude.{ℕ, ◌^◌, ◌<◌, ◌≢◌, arith}
use tryxctl.Kanali.Session.{next_track}

-- A track id is a number of 64 bits and never 0, the id of the bootstrap exchange.
pub next_track_bounds : (track : ℕ) → ((next_track track).1 ≢ 0) × ((next_track track).1 < 2 ^ 64)
unfolding next_track
next_track_bounds track = ((λ h. ground (arith, h)), ground arith)
