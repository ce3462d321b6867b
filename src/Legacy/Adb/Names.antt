-- ===== src/Legacy/Adb/Names.antt =====
-- The names that the media directory accepts.
use tryxctl.Prelude.{
  leb, ◌&&◌, ◌||◌, ◌==◌, ℕ, ◌≡◌, ◌≢◌, ◌≤◌, refl, Bool, true, false, ◌||◌, [], ◌∷◌, ◌++◌, ◌==◌,
  length, ok, err, Bytes, ◌⊎◌, inl, inr, arith, All, All-append, Bool-cases, equal, starts_with,
}
use tryxctl.Prelude.Text.{codes, is_whitespace}
use tryxctl.Legacy.{unsafe_media_name}
use tryxctl.Legacy.Adb
use tryxctl.Legacy.Adb.{media_dir, is_name_byte, is_safe_media_name, remote_path}

-- A byte that a shell takes as it is: a letter, a digit, a dot, a dash, an underscore or a slash,
-- or a blank between words. The bytes are those of ASCII.
pub is_quiet : ℕ → Bool
is_quiet c =
    (leb 48 c && leb c 57)
    || (leb 65 c && leb c 90)
    || (leb 97 c && leb c 122)
    || c == 45
    || c == 46
    || c == 47
    || c == 95
    || c == 32

abbrev pub IsQuiet : ℕ → Type 0
IsQuiet c = is_quiet c ≡ true

abbrev pub IsNameByte : ℕ → Type 0
IsNameByte c = is_name_byte c ≡ true

all_bytes-All :
    (test : ℕ → Bool) (name : Bytes)
    → Adb.all_bytes test name ≡ true
    → All (λ c. test c ≡ true) name
unfolding Adb.all_bytes
all_bytes-All test [] h = tt
all_bytes-All test (c ∷ cs) h = (ground (arith, h), all_bytes-All test cs (ground (arith, h)))

All-all_bytes :
    (test : ℕ → Bool) (name : Bytes)
    → All (λ c. test c ≡ true) name
    → Adb.all_bytes test name ≡ true
unfolding Adb.all_bytes
All-all_bytes test [] h = refl
All-all_bytes test (c ∷ cs) h = ground (arith, h.0, All-all_bytes test cs h.1)

pub is_safe_media_name-All : (name : Bytes) → is_safe_media_name name ≡ true → All IsNameByte name
unfolding is_safe_media_name
is_safe_media_name-All name h = all_bytes-All is_name_byte name (ground (arith, h))

-- The tests of a safe name, met by a byte that is no dot and name bytes behind it.
pub is_safe_media_name_intro :
    (c : ℕ) (cs : Bytes)
    → c ≢ 46
    → length (c ∷ cs) ≤ 128
    → All IsNameByte (c ∷ cs)
    → is_safe_media_name (c ∷ cs) ≡ true
unfolding is_safe_media_name equal starts_with
is_safe_media_name_intro c cs first small h =
    ground (arith, first, small, All-all_bytes is_name_byte (c ∷ cs) h)

-- A name byte is none of the separators of a listing.
pub name_byte-plain : (c : ℕ) → IsNameByte c → (c ≢ 10) × (c ≢ 13) × (c ≢ 32) × (c ≢ 47)
unfolding is_name_byte
name_byte-plain c h = (ground (arith, h), ground (arith, h), ground (arith, h), ground (arith, h))

pub IsNameByte-intro :
    (c : ℕ)
    → (((leb 48 c && leb c 57)
          || (leb 65 c && leb c 90)
          || (leb 97 c && leb c 122)
          || c == 46
          || c == 95)
        || c == 45)
      ≡ true
    → IsNameByte c
unfolding is_name_byte
IsNameByte-intro c h = ground (arith, h)

pub name_byte_solid : (c : ℕ) → IsNameByte c → is_whitespace c ≡ false
unfolding is_name_byte is_whitespace
name_byte_solid c h = ground (arith, h)

pub is_safe_media_name_empty : is_safe_media_name [] ≢ true
unfolding is_safe_media_name equal
is_safe_media_name_empty h = ground (arith, h)

pub IsQuiet-names : (name : Bytes) → All IsNameByte name → All IsQuiet name
unfolding is_quiet is_name_byte
IsQuiet-names [] h = tt
IsQuiet-names (c ∷ cs) h = (ground (arith, h.0), IsQuiet-names cs h.1)

IsQuiet-media_dir : All IsQuiet media_dir
unfolding is_quiet Adb.all_bytes
IsQuiet-media_dir = all_bytes-All is_quiet media_dir refl

pub suffixes :
    All IsNameByte (codes ".png")
    × All IsNameByte (codes ".mp4")
    × All IsNameByte (codes ".jpg")
    × All IsNameByte (codes ".jpeg")
unfolding is_name_byte Adb.all_bytes
suffixes = (
  all_bytes-All is_name_byte (codes ".png") refl,
  all_bytes-All is_name_byte (codes ".mp4") refl,
  all_bytes-All is_name_byte (codes ".jpg") refl,
  all_bytes-All is_name_byte (codes ".jpeg") refl,
)

pub mv_text : All IsQuiet (codes "mv -f -- ")
unfolding is_quiet Adb.all_bytes
mv_text = all_bytes-All is_quiet (codes "mv -f -- ") refl

pub rm_text : All IsQuiet (codes "rm -- ")
unfolding is_quiet Adb.all_bytes
rm_text = all_bytes-All is_quiet (codes "rm -- ") refl

pub blank : All IsQuiet (codes " ")
unfolding is_quiet Adb.all_bytes
blank = all_bytes-All is_quiet (codes " ") refl

pub remote_path-cases :
    (name : Bytes)
    → ((is_safe_media_name name ≡ false) × (remote_path name ≡ err (unsafe_media_name name)))
      ⊎ ((is_safe_media_name name ≡ true)
          × (remote_path name ≡ ok (media_dir ++ name))
          × All IsQuiet (media_dir ++ name))
unfolding remote_path
remote_path-cases name = elim (Bool-cases (is_safe_media_name name)) [
  | inl safe ↦ inr (
    safe,
    simp safe refl,
    All-append IsQuiet media_dir name IsQuiet-media_dir
        (IsQuiet-names name (is_safe_media_name-All name safe)),
  )
  | inr bad ↦ inl (bad, simp bad refl)
]
