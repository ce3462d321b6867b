-- ===== src/Media/Check/Naming.antt =====
-- The names that files get on the display.
use tryxctl.Prelude.{
  ℕ, zero, suc, ◌≤◌, ◌≡◌, ◌≢◌, refl, ap, ◌∙◌, Bool, true, false, Option, none, some, List, [], ◌∷◌,
  ◌++◌, ◌==◌, length, take, arith, All, All-append, inl, inr, Bool-cases, length-append,
  length-take, equal,
}
use tryxctl.Prelude.Words.{equal_iff}
use tryxctl.Prelude.Text.{codes}
use tryxctl.Legacy.Adb.{is_safe_media_name}
use tryxctl.Legacy.Adb.Names.{IsNameByte, suffixes, IsNameByte-intro, is_safe_media_name_intro}
use tryxctl.Media.Check
use tryxctl.Media.Check.{
  SourcePath, Kind, image, animated_image, video, Finding, sanitize_stem, derive_name,
}
use tryxctl.Media.Check.Stem.{clean, foldl-clean, IsClean, clean-IsClean, clean-fixed, take-IsClean}
use tryxctl.Media.Check.Trim.{
  StartsSolid, trim_left-StartsSolid, trim_left-solid, trim_right-StartsSolid, trim_right_again,
  trim_left-IsClean, trim_right-IsClean, length-trim_left, length-trim_right,
}

-- What `sanitize_stem` leaves: safe characters, no dash behind a dash, neither dash nor dot at an
-- end, and 100 characters at most.
pub record IsStem (stem : List ℕ) : Type 0 where
  pub clean_text : IsClean true stem
  pub starts : StartsSolid stem
  pub ends : Check.trim_right stem ≡ stem
  pub short : length stem ≤ 100

take_whole : (n : ℕ) (cs : List ℕ) → length cs ≤ n → take n cs ≡ cs
take_whole zero [] h = refl
take_whole zero (c ∷ cs) h = absurd (omega (arith, h))
take_whole (suc n) [] h = refl
take_whole (suc n) (c ∷ cs) h = ap (◌∷◌ c) (take_whole n cs (omega (arith, h)))

trimmed-IsStem :
    (cs : List ℕ)
    → IsClean true cs
    → length cs ≤ 100
    → IsStem (Check.trim_right (Check.trim_left cs))
trimmed-IsStem cs h short = record {
  clean_text = trim_right-IsClean true (Check.trim_left cs) (trim_left-IsClean true cs h);
  starts = trim_right-StartsSolid (Check.trim_left cs) (trim_left-StartsSolid cs);
  ends = trim_right_again (Check.trim_left cs);
  short = omega (arith, short, length-trim_left cs, length-trim_right (Check.trim_left cs));
}

media-IsStem : IsStem (codes "media")
unfolding IsClean StartsSolid Check.is_kept Check.is_alphanumeric Check.is_trimmed Check.trim_right
    Check.keep_last
media-IsStem = record {
  clean_text = ((refl, refl, (refl, refl, (refl, refl, (refl, refl, (refl, refl, tt))))));
  starts = refl;
  ends = refl;
  short = omega arith;
}

or_media-IsStem : (cs : List ℕ) → IsStem cs → IsStem (Check.or_media cs)
unfolding Check.or_media
or_media-IsStem [] h = media-IsStem
or_media-IsStem (c ∷ cs) h = h

sanitize_stem-clean :
    (stem : List ℕ)
    → sanitize_stem stem
      ≡ Check.or_media (Check.trim_right (Check.trim_left (take 100 (clean true stem))))
unfolding sanitize_stem equal
sanitize_stem-clean stem =
    ap (λ (cs : List ℕ). Check.or_media (Check.trim_right (Check.trim_left (take 100 cs))))
      (foldl-clean [] false stem)

pub sanitize_stem-IsStem : (stem : List ℕ) → IsStem (sanitize_stem stem)
sanitize_stem-IsStem stem =
    let body = take-IsClean 100 true (clean true stem) (clean-IsClean true stem) in
    rw (sanitize_stem-clean stem) (
      or_media-IsStem (Check.trim_right (Check.trim_left (take 100 (clean true stem)))) (
        trimmed-IsStem (take 100 (clean true stem)) body
          (omega (arith, length-take 100 (clean true stem)))))

or_media_non_empty : (cs : List ℕ) → Check.or_media cs ≢ []
unfolding Check.or_media
or_media_non_empty [] h = ground (arith, h)
or_media_non_empty (c ∷ cs) h = ground (arith, h)

pub sanitize_stem_non_empty : (stem : List ℕ) → sanitize_stem stem ≢ []
unfolding sanitize_stem
sanitize_stem_non_empty stem = or_media_non_empty _

or_media-some : (cs : List ℕ) → cs ≢ [] → Check.or_media cs ≡ cs
unfolding Check.or_media
or_media-some [] h = absurd (h refl)
or_media-some (c ∷ cs) h = refl

-- A stem in this form is left as it is.
pub sanitize_stem-fixed : (stem : List ℕ) → stem ≢ [] → IsStem stem → sanitize_stem stem ≡ stem
sanitize_stem-fixed stem filled h =
    sanitize_stem-clean stem
    ∙ simp
        (
          clean-fixed true stem h.clean_text,
          take_whole 100 stem h.short,
          trim_left-solid stem h.starts,
          h.ends,
        )
        (or_media-some stem filled)

-- A stem is sanitised to a stem that sanitising leaves as it is.
pub sanitize_stem_idempotent :
    (stem : List ℕ) → sanitize_stem (sanitize_stem stem) ≡ sanitize_stem stem
sanitize_stem_idempotent stem =
    sanitize_stem-fixed (sanitize_stem stem) (sanitize_stem_non_empty stem)
      (sanitize_stem-IsStem stem)

IsClean-AreNameBytes : (quiet : Bool) (cs : List ℕ) → IsClean quiet cs → All IsNameByte cs
unfolding IsClean Check.is_kept Check.is_alphanumeric
IsClean-AreNameBytes quiet [] h = tt
IsClean-AreNameBytes quiet (c ∷ cs) (safe, first, rest) =
    (IsNameByte-intro c safe, IsClean-AreNameBytes (c == 45) cs rest)

-- A suffix that names can have: at most 28 bytes, all of them safe.
abbrev IsSuffix : List ℕ → Type 0
IsSuffix suffix = (length suffix ≤ 28) × All IsNameByte suffix

stem-suffix-IsSafe :
    (stem suffix : List ℕ)
    → stem ≢ []
    → IsStem stem
    → IsSuffix suffix
    → is_safe_media_name (stem ++ suffix) ≡ true
unfolding StartsSolid Check.is_trimmed
stem-suffix-IsSafe [] suffix filled h k = absurd (filled refl)
stem-suffix-IsSafe (c ∷ cs) suffix filled h k =
    is_safe_media_name_intro c (cs ++ suffix) (ground (arith, h.starts))
      (omega (arith, h.short, k.0, length-append cs suffix))
      (All-append IsNameByte (c ∷ cs) suffix (IsClean-AreNameBytes true (c ∷ cs) h.clean_text) k.1)

png : IsSuffix (codes ".png")
png = (omega arith, suffixes.0)

mp4 : IsSuffix (codes ".mp4")
mp4 = (omega arith, suffixes.1)

still_suffix : (ext : List ℕ) → Check.is_still ext ≡ true → IsSuffix (codes "." ++ ext)
unfolding Check.is_still
still_suffix ext h = elim (Bool-cases (equal ext (codes "png"))) [
  | inl e ↦ rw ((equal_iff ext (codes "png")).0 e) png
  | inr not_png ↦ elim (Bool-cases (equal ext (codes "jpg"))) [
    | inl e ↦ rw ((equal_iff ext (codes "jpg")).0 e) (omega arith, suffixes.2)
    | inr not_jpg ↦
        rw ((equal_iff ext (codes "jpeg")).0 (ground (arith, h, not_png, not_jpg)))
          (omega arith, suffixes.3)
  ]
]

extension_of-IsSuffix :
    (kind : Option Kind) (passthrough : Bool) (ext : List ℕ)
    → IsSuffix (codes "." ++ Check.extension_of kind passthrough ext)
unfolding Check.extension_of
extension_of-IsSuffix none passthrough ext = mp4
extension_of-IsSuffix (some animated_image) passthrough ext = mp4
extension_of-IsSuffix (some video) passthrough ext = mp4
extension_of-IsSuffix (some image) false ext = png
extension_of-IsSuffix (some image) true ext = elim (Bool-cases (Check.is_still ext)) [
  | inl still ↦ simp still (still_suffix ext still)
  | inr other ↦ simp other png
]

-- Whatever the path, the requested name and the kind of a source are, its name on the display is
-- one that the media directory accepts.
pub derive_name-IsSafe :
    (debug : List ℕ → List ℕ) (path : SourcePath) (requested : Option (List ℕ)) (kind : Option Kind)
    (passthrough : Bool) (findings : List Finding)
    → is_safe_media_name (derive_name debug path requested kind passthrough findings).0 ≡ true
unfolding derive_name
derive_name-IsSafe debug path requested kind passthrough findings =
    stem-suffix-IsSafe _ _ (sanitize_stem_non_empty _) (sanitize_stem-IsStem _)
      (extension_of-IsSuffix kind passthrough _)
