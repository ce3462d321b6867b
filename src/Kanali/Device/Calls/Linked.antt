-- ===== src/Kanali/Device/Calls/Linked.antt =====
-- The session of src/session.rs as the session that `Device` uses.
use tryxctl.Prelude.{ℕ, ◌≡◌, ◌<◌, ap, Option, Bytes, ok, length, true}
use tryxctl.Kanali.Wire.{Codec, Request, Response}
use tryxctl.Kanali.Transport.{Pipe}
use tryxctl.Kanali.Errors.{done}
use tryxctl.Kanali.Session.{Expect, Profile, matches}
use tryxctl.Kanali.Session.Exchange
use tryxctl.Kanali.Session.Exchange.{Session}
use tryxctl.Kanali.Session.Exchange.Replies.{execute-Settles}
use tryxctl.Kanali.Session.Exchange.Ending.{execute-Ends}
use tryxctl.Kanali.Device.Calls.{Link}

module _ (pipe : Pipe) (codec : Codec)
    (progress : (w : pipe.World) (b : Bytes) (t n : ℕ)
      → 0 < length b
      → (pipe.write w b t).0 ≡ ok n
      → 0 < n) where
  pub execute-matches :
      (r : Request) (e : Expect) (p : Profile) (track : Option ℕ) (s : Session pipe.World)
      (reply : Response)
      → (Exchange.execute pipe codec r e p track s).0 ≡ done reply
      → matches e reply.body ≡ true
  execute-matches r e p track s reply h =
      let t = (Exchange.execute pipe codec r e p track s).1 in
      (execute-Settles pipe codec r e p track s t reply (ap (λ o. (o, t)) h)).2.expected_body

  -- A session over a pipe that takes bytes whenever a write succeeds.
  abbrev pub session_link : Link
  session_link = record {
    State = Session pipe.World;
    execute = Exchange.execute pipe codec;
    write_only = Exchange.write_only pipe codec;
    write_tracked_only = Exchange.write_tracked_only pipe codec;
    drain = Exchange.drain pipe codec;
    bootstrap = Exchange.bootstrap pipe codec;
    execute_ends = λ r e p track s. (execute-Ends pipe codec progress r e p track s).0;
    execute_matches = execute-matches;
  }
