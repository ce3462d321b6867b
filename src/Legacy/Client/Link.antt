-- ===== src/Legacy/Client/Link.antt =====
-- The serial link as the channel of a client, and what a client makes of silence on it.
use tryxctl.Prelude.{ℕ, ◌≢◌, refl, Option, none, some, Result, ok, err}
use tryxctl.Legacy.{LegacyError}
use tryxctl.Legacy.Frame.{Response}
use tryxctl.Legacy.Commands.{Json}
use tryxctl.Legacy.Serial
use tryxctl.Legacy.Serial.{Port, Link, SerialLink}
use tryxctl.Legacy.Serial.Ending.{request_with-Ends}
use tryxctl.Legacy.Client.{Channel}

taken : {A : Type 0} (o : Option A) → o ≢ none → A
taken none h = absurd (h refl)
taken (some a) h = a

-- The JSON value that the port's parser found, as a value.
valued : (port : Port) → (port.Json → Json) → Response port.Json → Response Json
valued port value_of response = record {
  raw = response.raw;
  body = response.body;
  json = elim (response.json) [ none ↦ none | some json ↦ some (value_of json) ];
  version = response.version;
  status = response.status;
  checksum_ok = response.checksum_ok;
  length_ok = response.length_ok;
}

responded :
    (port : Port)
    → (port.Json → Json)
    → Result LegacyError (Response port.Json)
    → Result LegacyError (Response Json)
unfolding valued
responded port value_of (ok response) = ok (valued port value_of response)
responded port value_of (err e) = err e

-- A request returns, so that its result is there to be taken.
pub serial_channel : (port : Port) → (port.Json → Json) → (ℕ → port.World → port.World) → Channel
unfolding taken responded
serial_channel port value_of sleep = record {
  State = Link port;
  request_with = λ method command content link.
      let answer = Serial.request_with port method command content link in
      (
        responded port value_of
            (taken answer.0 (request_with-Ends port method command content link).0),
        answer.1,
      );
  send_with = Serial.send_with port;
  sleep = λ ms link. record link { world = sleep ms link.world };
}
