-- ===== src/Legacy/Frame.antt =====
-- The byte-stuffed frames of crates/tryx-legacy/src/frame.rs. A `&str` is its UTF-8 bytes, and a
-- `String` decoded from the wire is its code points. JSON parsing is the parameter `from_str`.
mod Escape
pub mod Wrap
pub mod Taking
mod Tests
use tryxctl.Prelude.{
  ℕ, zero, suc, ◌+◌, ◌-◌, ◌*◌, ◌/◌, ◌%◌, ◌^◌, Bool, true, false, ◌&&◌, ◌||◌, not, Option, none,
  some, List, [], ◌∷◌, ◌++◌, ltb, leb, ◌==◌, if◌then◌else◌, length, get_or, take, drop, Result, ok,
  err, Bytes, ◌>>=◌,
}
use tryxctl.Prelude.Text.{
  codes, to_decimal, split_once, first_part, split_whitespace, from_utf8_lossy,
}
use tryxctl.Legacy.{LegacyError, request_too_long}
use mathlib.Core.List.{foldl}
use mathlib.Core.Option

abbrev pub frame_marker : ℕ
frame_marker = 0x5A

abbrev pub escape_marker : ℕ
escape_marker = 0x5B

abbrev escaped_frame_marker : ℕ
escaped_frame_marker = 0x01

abbrev escaped_escape_marker : ℕ
escaped_escape_marker = 0x02

abbrev pub framing_overhead : ℕ
framing_overhead = 5

pub crc8 : Bytes → ℕ
crc8 bytes = foldl (λ sum byte. (sum + byte) % 256) 0 bytes

-- The bytes that stand for one byte.
pub escape_byte : ℕ → Bytes
escape_byte byte =
    if byte == frame_marker
    then escape_marker ∷ escaped_frame_marker ∷ []
    else if byte == escape_marker
    then escape_marker ∷ escaped_escape_marker ∷ []
    else byte ∷ []

pub escape : Bytes → Bytes
escape [] = []
escape (byte ∷ rest) = escape_byte byte ++ escape rest

pub unescape : Bytes → Bytes
unescape [] = []
unescape (byte ∷ []) = byte ∷ []
unescape (byte ∷ next ∷ rest) =
    let pair = unescape rest in
    let single = byte ∷ unescape (next ∷ rest) in
    if byte == escape_marker
    then (if next == escaped_frame_marker
        then frame_marker ∷ pair
        else if next == escaped_escape_marker
        then escape_marker ∷ pair
        else single)
    else single

-- Length prefix and text, big endian: what the checksum covers.
pub raw_frame : Bytes → Bytes
raw_frame text =
    let wire_length = length text + framing_overhead in
    wire_length / 256 % 256 ∷ wire_length % 256 ∷ text

pub wrap : Bytes → Result LegacyError Bytes
wrap text =
    if ltb 65535 (length text + framing_overhead)
    then err (request_too_long (length text))
    else ok (
        frame_marker
        ∷ (escape (raw_frame text ++ (crc8 (raw_frame text) ∷ [])) ++ (frame_marker ∷ [])))

pub build_frame : Bytes → Bytes → Bytes → Bytes → ℕ → Result LegacyError Bytes
build_frame state command content version ack_number = wrap (
    state
    ++ (codes " "
        ++ (command
            ++ (codes " "
                ++ (version
                    ++ (codes "\r\nContentType=json\r\nContentLength="
                        ++ (to_decimal (length content)
                            ++ (codes "\r\nAckNumber="
                                ++ (to_decimal ack_number ++ (codes "\r\n\r\n" ++ content))))))))))

pub record Response (Json : Type 0) : Type 0 where
  pub raw : List ℕ
  pub body : List ℕ
  pub json : Option Json
  pub version : List ℕ
  pub status : List ℕ
  pub checksum_ok : Bool
  pub length_ok : Bool

-- `tokens.next().unwrap_or_default()`, for the first and for the second token.
token : List (List ℕ) → ℕ → List ℕ
token tokens n = get_or tokens n []

module _ (Json : Type 0) (from_str : List ℕ → Option Json) where
  -- `serde_json::from_str(body).ok()`, unless the body is empty.
  json_of : List ℕ → Option Json
  json_of [] = none
  json_of (c ∷ cs) = from_str (c ∷ cs)

  -- The response with the status line and the body of `raw`, if it holds a blank line.
  pub read_text : List ℕ → Bool → Bool → Response Json
  read_text raw checksum_ok length_ok = elim (split_once raw (codes "\r\n\r\n")) [
    | none ↦ record {
      raw = raw;
      body = [];
      json = none;
      version = [];
      status = [];
      checksum_ok = checksum_ok;
      length_ok = length_ok;
    }
    | some (headers, body) ↦
        let tokens = split_whitespace (first_part headers (codes "\r\n")) in
        record {
          raw = raw;
          body = body;
          json = json_of body;
          version = token tokens 0;
          status = token tokens 1;
          checksum_ok = checksum_ok;
          length_ok = length_ok;
        }
  ]

  -- The checks on the bytes between the markers, once they are unescaped.
  parse_decoded : Bytes → Option (Response Json)
  parse_decoded decoded =
      if ltb (length decoded) 3
      then none
      else (let payload = take (length decoded - 1) decoded in
          let checksum = get_or decoded (length decoded - 1) 0 in
          let declared_length = get_or payload 0 0 * 256 + get_or payload 1 0 in
          let text = drop 2 payload in
          some (
            read_text (from_utf8_lossy text) (crc8 payload == checksum)
              (declared_length == length text + framing_overhead)))

  pub parse_response : Bytes → Option (Response Json)
  parse_response bytes =
      if ltb (length bytes) 4
        || not (get_or bytes 0 0 == frame_marker)
        || not (get_or bytes (length bytes - 1) 0 == frame_marker)
      then none
      else parse_decoded (unescape (take (length bytes - 2) (drop 1 bytes)))

-- `iter().position(|&byte| byte == FRAME_MARKER)`
pub position_marker : Bytes → Option ℕ
position_marker [] = none
position_marker (byte ∷ rest) =
    if byte == frame_marker then some 0 else Option.map suc (position_marker rest)

close_at : Bytes → ℕ → Option ℕ → Option Bytes × Bytes
close_at buffer start none = (none, buffer)
close_at buffer start (some offset) =
    let end = start + 1 + offset in
    (some (take (end + 1 - start) (drop start buffer)), drop (end + 1) buffer)

open_at : Bytes → Option ℕ → Option Bytes × Bytes
unfolding close_at
open_at buffer none = (none, buffer)
open_at buffer (some start) = close_at buffer start (position_marker (drop (start + 1) buffer))

pub take_frame : Bytes → Option Bytes × Bytes
unfolding open_at
take_frame buffer = open_at buffer (position_marker buffer)
