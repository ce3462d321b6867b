-- ===== src/Legacy/Frame/Tests.antt =====
-- Runs of the frame codec, and its theorems at concrete texts.
use tryxctl.Prelude.{
  ℕ, ◌≡◌, refl, some, Option, List, [], ◌∷◌, ◌++◌, arith, ok, true, Bytes, starts_with,
}
use tryxctl.Prelude.Text.{
  codes, to_decimal, decimal_loop, split_once, first_part, split_whitespace, words, flush,
  is_whitespace, from_utf8_lossy, utf8_run, utf8_step, utf8_finish, open_sequence, sequence_len,
  fits_sequence, is_second, is_continuation,
}
use tryxctl.Legacy.Frame.{
  crc8, escape_byte, escape, raw_frame, wrap, build_frame, token, json_of, read_text,
  parse_response, take_frame,
}
use tryxctl.Legacy.Frame.Wrap.{parse_response-wrap}
use tryxctl.Legacy.Frame.Taking.{take_frame-wrap}

abbrev two_bytes : Bytes
two_bytes = 0x5B ∷ 0x5A ∷ []

-- `wrap` of the two bytes that need stuffing.
abbrev two_frame : Bytes
two_frame = 0x5A ∷ 0 ∷ 7 ∷ 0x5B ∷ 2 ∷ 0x5B ∷ 1 ∷ 188 ∷ 0x5A ∷ []

wrap_two : wrap two_bytes ≡ ok two_frame
unfolding wrap raw_frame crc8 escape escape_byte
wrap_two = refl

-- The 68 bytes of the request that the device answered.
conn_request :
    build_frame (codes "POST") (codes "conn") [] (codes "1") 1
    ≡ ok (
        0x5A
        ∷ 0
        ∷ 0x44
        ∷ (codes "POST conn 1\r\nContentType=json\r\nContentLength=0\r\nAckNumber=1\r\n\r\n"
            ++ (0x20 ∷ 0x5A ∷ [])))
unfolding build_frame wrap raw_frame crc8 escape escape_byte to_decimal decimal_loop
conn_request = refl

utf8_runs :
    (from_utf8_lossy (0xe2 ∷ 0x82 ∷ 0xac ∷ 65 ∷ []) ≡ 0x20ac ∷ 65 ∷ [])
    × (from_utf8_lossy (0xe2 ∷ 0x82 ∷ 65 ∷ []) ≡ 0xfffd ∷ 65 ∷ [])
    × (from_utf8_lossy (0xe0 ∷ 0x80 ∷ 0xf0 ∷ []) ≡ 0xfffd ∷ 0xfffd ∷ 0xfffd ∷ [])
unfolding from_utf8_lossy utf8_run utf8_step utf8_finish open_sequence sequence_len fits_sequence
    is_second is_continuation
utf8_runs = (refl, refl, refl)

abbrev parse_text : List ℕ → Option (List ℕ)
parse_text body = some body

status_line : (read_text (List ℕ) parse_text (codes "1 OK\r\nA=b\r\n\r\n{}") true true) ≡ record {
  raw = codes "1 OK\r\nA=b\r\n\r\n{}";
  body = codes "{}";
  json = some (codes "{}");
  version = codes "1";
  status = codes "OK";
  checksum_ok = true;
  length_ok = true;
}
unfolding read_text json_of split_once first_part split_whitespace words flush is_whitespace token
    starts_with
status_line = refl

parse_response-wrap_example :
    parse_response (List ℕ) parse_text two_frame
    ≡ some (read_text (List ℕ) parse_text (from_utf8_lossy two_bytes) true true)
parse_response-wrap_example = parse_response-wrap (List ℕ) parse_text two_bytes two_frame wrap_two

take_frame-wrap_example : take_frame (7 ∷ two_frame ++ (9 ∷ [])) ≡ (some two_frame, 9 ∷ [])
take_frame-wrap_example =
    take_frame-wrap (7 ∷ []) two_bytes two_frame (9 ∷ []) (omega arith) wrap_two
