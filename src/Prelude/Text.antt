-- ===== src/Prelude/Text.antt =====
-- Rust's `str` operations, on texts that are lists of code points (or of bytes, in ASCII).
use Prim.Native.Nat.{ℕ, zero, suc, ◌+◌, ◌-◌, ◌*◌, ◌/◌, ◌%◌}
use Prim.Native.Char.{code}
use Prim.Native.String.{String}
use mathlib.Core.Bool.{Bool, ◌&&◌, ◌||◌}
use mathlib.Core.Option.{Option, none, some}
use mathlib.Core.Option
use mathlib.Core.List.{List, [], ◌∷◌, ◌++◌}
use tryxctl.Prelude.Tests.{◌==◌, leb, ltb, if◌then◌else◌}
use tryxctl.Prelude.Lists.{length, drop}
use tryxctl.Prelude.Words.{Bytes, starts_with, equal}

-- The code points of a text: its bytes, if it is ASCII.
abbrev pub codes : String → List ℕ
codes String.[] = []
codes (String.◌∷◌ c s) = code c ∷ codes s

-- One digit for each unit of fuel; a number has no more digits than its value plus one.
unfoldable pub decimal_loop : ℕ → ℕ → List ℕ
decimal_loop zero n = (48 + n % 10) ∷ []
decimal_loop (suc fuel) n =
    let high = decimal_loop fuel (n / 10) ++ ((48 + n % 10) ∷ []) in
    if ltb n 10 then (48 + n) ∷ [] else high

-- The decimal digits of an unsigned number, as `{}` prints it.
unfoldable pub to_decimal : ℕ → List ℕ
to_decimal n = decimal_loop n n

-- `text.split_once(sep)`, for a separator that is not empty.
unfoldable pub split_once : List ℕ → List ℕ → Option (List ℕ × List ℕ)
split_once [] sep = none
split_once (c ∷ cs) sep =
    if starts_with (c ∷ cs) sep
    then some ([], drop (length sep) (c ∷ cs))
    else Option.map (λ p. (c ∷ p.0, p.1)) (split_once cs sep)

-- `text.split(sep).next()`: the text in front of the first separator.
unfoldable pub first_part : List ℕ → List ℕ → List ℕ
first_part text sep = elim (split_once text sep) [ none ↦ text | some p ↦ p.0 ]

-- `char::is_whitespace`: the code points with the Unicode property White_Space.
unfoldable pub is_whitespace : ℕ → Bool
is_whitespace c =
    (leb 9 c && leb c 13)
    || c == 32
    || c == 0x85
    || c == 0xa0
    || c == 0x1680
    || (leb 0x2000 c && leb c 0x200a)
    || c == 0x2028
    || c == 0x2029
    || c == 0x202f
    || c == 0x205f
    || c == 0x3000

-- The word read so far, if there is one.
unfoldable pub flush : List ℕ → List (List ℕ)
flush [] = []
flush (c ∷ cs) = (c ∷ cs) ∷ []

unfoldable pub words : List ℕ → List ℕ → List (List ℕ)
words word [] = flush word
words word (c ∷ cs) =
    let blank = is_whitespace c in
    (if blank then flush word else []) ++ words (if blank then [] else word ++ (c ∷ [])) cs

-- `text.split_whitespace()`
unfoldable pub split_whitespace : List ℕ → List (List ℕ)
split_whitespace text = words [] text

unfoldable pub is_continuation : ℕ → Bool
is_continuation b = leb 0x80 b && leb b 0xbf

-- The bytes that may follow a leading byte, as UTF-8 restricts them.
unfoldable pub is_second : ℕ → ℕ → Bool
is_second lead b =
    if lead == 0xe0
    then leb 0xa0 b && leb b 0xbf
    else if lead == 0xed
    then leb 0x80 b && leb b 0x9f
    else if lead == 0xf0
    then leb 0x90 b && leb b 0xbf
    else if lead == 0xf4
    then leb 0x80 b && leb b 0x8f
    else is_continuation b

-- The number of bytes of the character that a leading byte opens; 0 for no leading byte.
unfoldable pub sequence_len : ℕ → ℕ
sequence_len b =
    if ltb b 0x80
    then 1
    else if leb 0xc2 b && leb b 0xdf
    then 2
    else if leb 0xe0 b && leb b 0xef
    then 3
    else if leb 0xf0 b && leb b 0xf4
    then 4
    else 0

abbrev pub replacement : ℕ
replacement = 0xfffd

-- The decoder between bytes: at a boundary, or inside a sequence with the bits read so far, the
-- bytes still wanted, and the leading byte if the next byte is the second.
pub data Utf8State : Type 0 where
  boundary : Utf8State
  inside : ℕ → ℕ → Option ℕ → Utf8State

-- A byte at a boundary.
unfoldable pub open_sequence : ℕ → List ℕ × Utf8State
open_sequence b =
    let n = sequence_len b in
    if n == 1
    then (b ∷ [], boundary)
    else if n == 2
    then ([], inside (b % 32) 1 (some b))
    else if n == 3
    then ([], inside (b % 16) 2 (some b))
    else if n == 4
    then ([], inside (b % 8) 3 (some b))
    else (replacement ∷ [], boundary)

unfoldable pub fits_sequence : Option ℕ → ℕ → Bool
fits_sequence none b = is_continuation b
fits_sequence (some lead) b = is_second lead b

-- A byte that does not fit closes the sequence with one replacement, and is read afresh.
unfoldable pub utf8_step : Utf8State → ℕ → List ℕ × Utf8State
utf8_step boundary b = open_sequence b
utf8_step (inside bits wanted lead) b =
    let value = bits * 64 + b % 64 in
    let fresh = open_sequence b in
    if fits_sequence lead b
    then (if wanted == 1 then (value ∷ [], boundary) else ([], inside value (wanted - 1) none))
    else (replacement ∷ fresh.0, fresh.1)

unfoldable pub utf8_finish : Utf8State → List ℕ
utf8_finish boundary = []
utf8_finish (inside bits wanted lead) = replacement ∷ []

unfoldable pub utf8_run : Utf8State → Bytes → List ℕ
utf8_run s [] = utf8_finish s
utf8_run s (b ∷ bs) = let (out, s') = utf8_step s b in out ++ utf8_run s' bs

-- `String::from_utf8_lossy`: each maximal ill-formed piece becomes one U+FFFD.
unfoldable pub from_utf8_lossy : Bytes → List ℕ
from_utf8_lossy bytes = utf8_run boundary bytes

-- The parts of a formatted text, joined.
abbrev pub format : List (List ℕ) → List ℕ
format [] = []
format (part ∷ parts) = part ++ format parts

-- The digits of a number in a radix up to 16, one for each unit of fuel, in front of a text.
unfoldable pub digit : ℕ → ℕ
digit d = if ltb d 10 then 48 + d else 87 + d

unfoldable pub hex_loop : ℕ → ℕ → List ℕ
hex_loop zero n = digit (n % 16) ∷ []
hex_loop (suc fuel) n =
    let high = hex_loop fuel (n / 16) ++ (digit (n % 16) ∷ []) in
    if ltb n 16 then digit n ∷ [] else high

-- `{:x}`
unfoldable pub to_hex : ℕ → List ℕ
to_hex n = hex_loop n n

unfoldable pub zeros : ℕ → List ℕ
zeros zero = []
zeros (suc n) = 48 ∷ zeros n

-- `{:06x}` at width 6.
unfoldable pub to_padded_hex : ℕ → ℕ → List ℕ
to_padded_hex width n = zeros (width - length (to_hex n)) ++ to_hex n

-- `u8::to_ascii_lowercase`
unfoldable pub lower : ℕ → ℕ
lower c = if leb 65 c && leb c 90 then c + 32 else c

unfoldable pub to_lowercase : List ℕ → List ℕ
to_lowercase [] = []
to_lowercase (c ∷ cs) = lower c ∷ to_lowercase cs

-- `text.trim_start()`
unfoldable pub trim_start : List ℕ → List ℕ
trim_start [] = []
trim_start (c ∷ cs) = let rest = trim_start cs in if is_whitespace c then rest else c ∷ cs

-- `text.trim_end()`: a character is dropped if it is blank and nothing is left behind it.
unfoldable pub keep_unless_blank : ℕ → List ℕ → List ℕ
keep_unless_blank c [] = if is_whitespace c then [] else c ∷ []
keep_unless_blank c (d ∷ ds) = c ∷ d ∷ ds

unfoldable pub trim_end : List ℕ → List ℕ
trim_end [] = []
trim_end (c ∷ cs) = keep_unless_blank c (trim_end cs)

-- `text.trim()`
unfoldable pub trim : List ℕ → List ℕ
trim text = trim_end (trim_start text)

-- `a.eq_ignore_ascii_case(b)`
unfoldable pub equal_ignoring_case : List ℕ → List ℕ → Bool
equal_ignoring_case a b = equal (to_lowercase a) (to_lowercase b)

-- `text.contains(part)`
unfoldable pub contains : List ℕ → List ℕ → Bool
contains [] part = starts_with [] part
contains (c ∷ cs) part = starts_with (c ∷ cs) part || contains cs part

-- `{:02}`
unfoldable pub to_two_digits : ℕ → List ℕ
to_two_digits n = if ltb n 10 then 48 ∷ to_decimal n else to_decimal n
