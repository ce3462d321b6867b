-- ===== src/Media/Check.antt =====
-- Findings and names of crates/tryx-media/src/check.rs. A text is its code points. What `std::path`
-- and the `{:?}` of a text give is taken as it is.
mod Stem
mod Trim
mod Naming
mod Tests
use tryxctl.Prelude.{
  ℕ, zero, suc, ◌+◌, Bool, true, false, ◌&&◌, ◌||◌, not, Option, none, some, List, [], ◌∷◌, ◌++◌,
  leb, ltb, ◌==◌, if◌then◌else◌, length, take, equal, starts_with, drop,
}
use mathlib.Core.List.{foldl}
use tryxctl.Prelude.Text.{codes, to_lowercase}

pub data Severity : Type 0 where
  ok auto decide fatal : Severity

pub data Kind : Type 0 where
  image animated_image video : Kind

pub record Finding : Type 0 where
  pub code : List ℕ
  pub severity : Severity
  pub message : List ℕ
  pub action : Option (List ℕ)

-- The order in which the severities are declared.
pub rank : Severity → ℕ
rank ok = 0
rank auto = 1
rank decide = 2
rank fatal = 3

worse : Severity → Severity → Severity
unfolding rank
worse a b = if leb (rank a) (rank b) then b else a

pub worst : List Finding → Severity
unfolding worse
worst findings = foldl (λ most finding. worse most finding.severity) ok findings

pub acceptable : List Finding → Bool → Bool
acceptable findings strict = elim (worst findings) [
  | fatal ↦ false
  | ok ↦ true
  | auto ↦ not strict
  | decide ↦ not strict
]

is_alphanumeric : ℕ → Bool
is_alphanumeric c = (leb 48 c && leb c 57) || (leb 65 c && leb c 90) || (leb 97 c && leb c 122)

pub is_kept : ℕ → Bool
unfolding is_alphanumeric
is_kept c = is_alphanumeric c || c == 46 || c == 95

-- One character: what is written so far, and whether a dash was written last for it.
pub sanitize_step : List ℕ × Bool → ℕ → List ℕ × Bool
unfolding is_kept
sanitize_step (out, last_dash) c =
    if is_kept c
    then (out ++ (c ∷ []), false)
    else if not last_dash && not (equal out [])
    then (out ++ (45 ∷ []), true)
    else (out, last_dash)

pub is_trimmed : ℕ → Bool
is_trimmed c = c == 45 || c == 46

pub trim_left : List ℕ → List ℕ
unfolding is_trimmed
trim_left [] = []
trim_left (c ∷ cs) = let rest = trim_left cs in if is_trimmed c then rest else c ∷ cs

keep_last : ℕ → List ℕ → List ℕ
unfolding is_trimmed
keep_last c [] = if is_trimmed c then [] else c ∷ []
keep_last c (d ∷ ds) = c ∷ d ∷ ds

pub trim_right : List ℕ → List ℕ
unfolding keep_last
trim_right [] = []
trim_right (c ∷ cs) = keep_last c (trim_right cs)

pub or_media : List ℕ → List ℕ
or_media [] = codes "media"
or_media (c ∷ cs) = c ∷ cs

pub sanitize_stem : List ℕ → List ℕ
unfolding sanitize_step trim_left trim_right or_media
sanitize_stem stem =
    let out = (foldl sanitize_step ([], false) stem).0 in
    or_media (trim_right (trim_left (take 100 out)))

-- `name.strip_suffix(suffix).unwrap_or(name)`
without_suffix : List ℕ → List ℕ → List ℕ
without_suffix [] suffix = []
without_suffix (c ∷ cs) suffix =
    let rest = c ∷ without_suffix cs suffix in if equal (c ∷ cs) suffix then [] else rest

value_or_empty : Option (List ℕ) → List ℕ
value_or_empty none = []
value_or_empty (some text) = text

is_still : List ℕ → Bool
is_still ext = equal ext (codes "png") || equal ext (codes "jpg") || equal ext (codes "jpeg")

extension_of : Option Kind → Bool → List ℕ → List ℕ
unfolding is_still
extension_of (some image) passthrough ext = if passthrough && is_still ext then ext else codes "png"
extension_of _ passthrough ext = codes "mp4"

stem_of : Option (List ℕ) → Option (List ℕ) → List ℕ → List ℕ
unfolding without_suffix value_or_empty
stem_of (some name) file_stem suffix = without_suffix name suffix
stem_of none file_stem suffix = value_or_empty file_stem

-- A path as the name takes it: `path.extension()` and `path.file_stem()`.
pub record SourcePath : Type 0 where
  pub extension : Option (List ℕ)
  pub file_stem : Option (List ℕ)

module _ (debug : List ℕ → List ℕ) where
  name_finding : List ℕ → List ℕ → Finding
  name_finding stem name = record {
    code = codes "TRYX-M-NAME";
    severity = auto;
    message = debug stem ++ codes " is not a safe device file name";
    action = some (codes "store it as " ++ name);
  }

  -- The name on the display, and the findings with what it adds.
  pub derive_name :
      SourcePath → Option (List ℕ) → Option Kind → Bool → List Finding → List ℕ × List Finding
  unfolding extension_of stem_of name_finding
  derive_name path requested kind passthrough findings =
      let suffix =
        codes "." ++ extension_of kind passthrough (to_lowercase (value_or_empty path.extension)) in
      let stem = stem_of requested path.file_stem suffix in
      let safe = sanitize_stem stem in
      let name = safe ++ suffix in
      (name, if equal safe stem then findings else findings ++ (name_finding stem name ∷ []))
