-- ===== src/Kanali/Errors.antt =====
-- `KanaliError` of crates/tryx-kanali/src/lib.rs. A detail is kept as a value where the source
-- formats a text from it; a value formatted into an `invalid` or `transfer` text is left out.
use tryxctl.Prelude.{ℕ, Bytes, List}
use Prim.Native.String.{String}
use tryxctl.Kanali.Wire.{Response}
use tryxctl.Kanali.Transport.{TransportError}

pub data Detail : Type 0 where
  not_protobuf no_header too_many_frames no_device_information no_configuration no_transfer_status :
      Detail
  unexpected : Response → Detail
  readback : List String → Detail

pub data KanaliError : Type 0 where
  transport : TransportError → KanaliError
  no_response : String → ℕ → KanaliError
  rejected : String → Bytes → KanaliError
  invalid_response : String → Detail → KanaliError
  unsupported : String → KanaliError
  invalid : String → KanaliError
  transfer : String → KanaliError
  io : Bytes → KanaliError
  encode : Bytes → KanaliError

-- What a call gives; `stuck` is no Rust value: a panic, or a loop of the model that ran out of fuel.
pub data Outcome (A : Type 0) : Type 0 where
  done : A → Outcome A
  failed : KanaliError → Outcome A
  stuck : Outcome A
