-- ===== src/Kanali/Session.antt =====
-- The request and response exchange of crates/tryx-kanali/src/session.rs over a pipe and prost's
-- codec. Tracing is left out. A method returns what it gives and the session after it.
pub mod Exchange
mod Track
use Prim.Native.Nat.{bit_xor}
use Prim.Native.String.{String}
use tryxctl.Prelude.{
  ℕ, zero, suc, ◌+◌, ◌-◌, ◌*◌, ◌/◌, ◌%◌, ◌^◌, min, max, Bool, true, false, ◌&&◌, ◌||◌, not, Option,
  none, some, List, [], ◌∷◌, ◌++◌, ltb, leb, ◌==◌, if◌then◌else◌, length, take, drop, Result, ok,
  err, Bytes,
}
use tryxctl.Proto
use tryxctl.Kanali.Wire.{
  Codec, WireHeader, Request, RequestBody, Response, ResponseBody, DeviceInformation, ProtocolError,
}
use tryxctl.Kanali.Transport.{Pipe, TransportError, timeout}
use tryxctl.Kanali.Errors.{
  Outcome, done, failed, stuck, KanaliError, transport, no_response, rejected, invalid_response,
  invalid, not_protobuf, no_header, too_many_frames, no_device_information, unexpected,
}
use tryxctl.Prelude.Text.{codes}

abbrev pub millis : ℕ → ℕ
millis n = n * 1000000

abbrev pub transaction_timeout : ℕ
transaction_timeout = 5000000000

abbrev pub file_transmit_write_timeout : ℕ
file_transmit_write_timeout = 15000000000

abbrev pub file_transmit_response_timeout : ℕ
file_transmit_response_timeout = 30000000000

abbrev pub bootstrap_write_timeout : ℕ
bootstrap_write_timeout = 2000000000

abbrev pub readiness_deadline : ℕ
readiness_deadline = 20000000000

abbrev pub read_slice : ℕ
read_slice = 200000000

abbrev pub max_skipped_frames : ℕ
max_skipped_frames = 256

abbrev pub max_skipped_bytes : ℕ
max_skipped_bytes = 4194304

abbrev pub read_buffer : ℕ
read_buffer = 65536

pub data Expect : Type 0 where
  pong device_information device_authentication system_configuration media_catalog
        user_configuration acknowledgement transfer_begin_status transfer_chunk_status
        transfer_end_status media_read_chunk :
      Expect

-- `Expect::matches` on a body that is there.
unfoldable pub matches_body : Expect → ResponseBody → Bool
matches_body Expect.pong (ResponseBody.pong _) = true
matches_body Expect.device_information (ResponseBody.device_information _) = true
matches_body Expect.device_authentication (ResponseBody.device_authentication _) = true
matches_body Expect.system_configuration ResponseBody.system_configuration = true
matches_body Expect.media_catalog (ResponseBody.media_catalog _) = true
matches_body Expect.user_configuration (ResponseBody.user_configuration _) = true
matches_body Expect.acknowledgement (ResponseBody.acknowledgement _) = true
matches_body Expect.transfer_begin_status (ResponseBody.transfer_begin_status _) = true
matches_body Expect.transfer_chunk_status (ResponseBody.transfer_chunk_status _) = true
matches_body Expect.transfer_end_status (ResponseBody.transfer_end_status _) = true
matches_body Expect.media_read_chunk (ResponseBody.media_read_chunk _) = true
matches_body _ _ = false

unfoldable pub matches : Expect → Option ResponseBody → Bool
matches expected none = false
matches expected (some body) = matches_body expected body

pub data Profile : Type 0 where
  normal file_transmit : Profile

pub request_name : Option RequestBody → String
request_name (some (RequestBody.ping _)) = "ping"
request_name (some (RequestBody.device_information_query _)) = "device_information_query"
request_name (some (RequestBody.device_authentication_query _)) = "device_authentication_query"
request_name (some (RequestBody.system_configuration_query _)) = "system_configuration_query"
request_name (some (RequestBody.media_catalog_query _)) = "media_catalog_query"
request_name (some (RequestBody.user_configuration_query _)) = "user_configuration_query"
request_name (some (RequestBody.user_configuration _)) = "user_configuration"
request_name (some (RequestBody.overlay_layout _)) = "overlay_layout"
request_name (some (RequestBody.metric_batch _)) = "metric_batch"
request_name (some (RequestBody.transfer_begin _ _)) = "transfer_begin"
request_name (some (RequestBody.transfer_chunk _)) = "transfer_chunk"
request_name (some (RequestBody.transfer_end _ _)) = "transfer_end"
request_name (some (RequestBody.file_removal _ _)) = "file_removal"
request_name (some (RequestBody.media_read_chunk _ _ _)) = "media_read_chunk"
request_name none = "empty"

-- The state after one round of xorshift, and the id made from it. A shift to the left drops what
-- leaves the 64 bits.
pub next_track : ℕ → ℕ × ℕ
next_track track =
    let a = bit_xor track (track / 2 ^ 12) in
    let b = bit_xor a (a * 2 ^ 25 % 2 ^ 64) in
    let x = bit_xor b (b / 2 ^ 27) in
    let id = x * 0x2545_F491_4F6C_DD1D % 2 ^ 64 in (x, if id == 0 then 1 else id)

-- `encode_request` of lib.rs: the request framed, unless it is too large.
pub encode_request : Codec → Request → Option Bytes
encode_request codec request = Proto.encode (codec.encode_to_vec request)
