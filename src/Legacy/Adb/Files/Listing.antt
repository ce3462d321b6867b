-- ===== src/Legacy/Adb/Files/Listing.antt =====
-- The listing of the media directory, printed and read back.
use tryxctl.Prelude.{
  ℕ, ◌^◌, ◌<◌, ◌≡◌, ◌≢◌, refl, sym, true, false, List, [], ◌∷◌, ◌++◌, append-nil, append_assoc,
  Bytes, arith, All, All-append,
}
use tryxctl.Prelude.Text.{codes, to_decimal, split_once, trim_end, is_whitespace}
use tryxctl.Prelude.Digits.{IsDigit, to_decimal-AreDigits}
use tryxctl.Prelude.Numbers.{parse_unsigned-to_decimal}
use tryxctl.Prelude.Splits.{split_once-separated, trim_end-solid, trim_end-append}
use tryxctl.Legacy.Adb.{lines, media_dir, is_safe_media_name}
use tryxctl.Legacy.Adb.Names.{
  IsNameByte, name_byte-plain, name_byte_solid, is_safe_media_name_empty, is_safe_media_name-All,
}
use tryxctl.Legacy.Adb.Lines.{IsLineByte, lines_empty, lines-append}
use tryxctl.Legacy.Adb.Files
use tryxctl.Legacy.Adb.Files.{MediaFile, parse_stat_listing}

-- A line of `stat -c '%s %n'`, and the listing of several files.
abbrev pub stat_line : MediaFile → Bytes
stat_line file = to_decimal file.size ++ (32 ∷ (media_dir ++ file.name))

abbrev pub stat_listing : List MediaFile → Bytes
stat_listing [] = []
stat_listing (file ∷ files) = stat_line file ++ (10 ∷ stat_listing files)

-- A file that the client can have put there.
abbrev pub IsListed : MediaFile → Type 0
IsListed file = (is_safe_media_name file.name ≡ true) × (file.size < 2 ^ 64)

after_slash-plain :
    (part name : Bytes) → All (λ c. c ≢ 47) name → Files.after_slash part name ≡ part ++ name
unfolding Files.after_slash
after_slash-plain part [] h = sym (append-nil part)
after_slash-plain part (c ∷ name) h =
    let rest = after_slash-plain (part ++ (c ∷ [])) name h.1 in
    let shift : (part ++ (c ∷ [])) ++ name ≡ part ++ (c ∷ name) = append_assoc part (c ∷ []) name in
    ground (arith, h.0, rest, shift)

after_slash-media_dir :
    (name : Bytes) → All (λ c. c ≢ 47) name → Files.after_slash [] (media_dir ++ name) ≡ name
unfolding Files.after_slash
after_slash-media_dir name h = after_slash-plain [] name h

name-plain : (name : Bytes) → All IsNameByte name → All IsLineByte name × All (λ c. c ≢ 47) name
name-plain [] h = (tt, tt)
name-plain (c ∷ name) h =
    let (newline, return, space, slash) = name_byte-plain c h.0 in
    let rest = name-plain name h.1 in (((newline, return), rest.0), (slash, rest.1))

digits-plain : (text : Bytes) → All IsDigit text → All IsLineByte text × All (λ c. c ≢ 32) text
digits-plain [] h = (tt, tt)
digits-plain (c ∷ text) h =
    let rest = digits-plain text h.1 in
    (((ground (arith, h.0), ground (arith, h.0)), rest.0), (ground (arith, h.0), rest.1))

name_solid : (name : Bytes) → All IsNameByte name → All (λ c. is_whitespace c ≡ false) name
name_solid [] h = tt
name_solid (c ∷ name) h = (name_byte_solid c h.0, name_solid name h.1)

dir-AreLineBytes : All IsLineByte media_dir
dir-AreLineBytes = omega arith

stat_line-AreLineBytes : (file : MediaFile) → IsListed file → All IsLineByte (stat_line file)
stat_line-AreLineBytes file h =
    All-append IsLineByte (to_decimal file.size) _
      (digits-plain _ (to_decimal-AreDigits file.size)).0
      (
        (omega arith, omega arith),
        All-append IsLineByte media_dir file.name dir-AreLineBytes
            (name-plain file.name (is_safe_media_name-All file.name h.0)).0,
      )

-- A name that is safe is not empty, so that its file is listed.
media_file_safe :
    (name : Bytes) (size : ℕ)
    → is_safe_media_name name ≡ true
    → Files.media_file name size ≡ record { name = name; size = size } ∷ []
unfolding Files.media_file
media_file_safe [] size h = absurd (is_safe_media_name_empty h)
media_file_safe (c ∷ name) size h = refl

trim_end-named :
    (digits name : Bytes)
    → is_safe_media_name name ≡ true
    → trim_end (digits ++ (32 ∷ (media_dir ++ name))) ≡ digits ++ (32 ∷ (media_dir ++ name))
trim_end-named digits [] h = absurd (is_safe_media_name_empty h)
trim_end-named digits (c ∷ name) h = trim_end-append digits 32 (media_dir ++ (c ∷ name)) (
    trim_end-append (32 ∷ media_dir) c name
      (trim_end-solid (c ∷ name) (name_solid (c ∷ name) (is_safe_media_name-All (c ∷ name) h))))

trim_end-stat_line : (file : MediaFile) → IsListed file → trim_end (stat_line file) ≡ stat_line file
trim_end-stat_line file h = trim_end-named (to_decimal file.size) file.name h.0

listed-stat_line :
    (file : MediaFile)
    → IsListed file
    → Files.listed (split_once (trim_end (stat_line file)) (codes " ")) ≡ file ∷ []
unfolding Files.listed Files.sized
listed-stat_line file h =
    let digits = (digits-plain _ (to_decimal-AreDigits file.size)).1 in
    let split = split_once-separated 32 (to_decimal file.size) (media_dir ++ file.name) digits in
    let slashes = (name-plain file.name (is_safe_media_name-All file.name h.0)).1 in
    simp (trim_end-stat_line file h, split, parse_unsigned-to_decimal (2 ^ 64) file.size h.1)
      (simp (after_slash-media_dir file.name slashes) (media_file_safe file.name file.size h.0))

listing_of-stat_listing :
    (files : List MediaFile)
    → All IsListed files
    → Files.listing_of (lines (stat_listing files)) ≡ files
unfolding Files.listing_of
listing_of-stat_listing [] h = rw lines_empty refl
listing_of-stat_listing (file ∷ files) h =
    rw (lines-append (stat_line file) (stat_listing files) (stat_line-AreLineBytes file h.0))
      (simp (listed-stat_line file h.0, listing_of-stat_listing files h.1) refl)

-- The listing of files with safe names and sizes below 2^64 is read back as these files.
pub parse_stat_listing-stat_listing :
    (files : List MediaFile) → All IsListed files → parse_stat_listing (stat_listing files) ≡ files
unfolding parse_stat_listing
parse_stat_listing-stat_listing files h = listing_of-stat_listing files h
