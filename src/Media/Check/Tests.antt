-- ===== src/Media/Check/Tests.antt =====
-- Names that files get, and the theorems at one of them.
use tryxctl.Prelude.{ℕ, ◌≡◌, refl, true, false, equal, none, some, List, []}
use tryxctl.Prelude.Text.{codes, to_lowercase, lower}
use tryxctl.Legacy.Adb.{is_safe_media_name}
use tryxctl.Media.Check.{SourcePath, image, video, sanitize_stem, derive_name}
use tryxctl.Media.Check.Naming.{derive_name-IsSafe}

abbrev quoted : List ℕ → List ℕ
quoted text = text

abbrev my_clip : SourcePath
my_clip = record { extension = some (codes "MOV"); file_stem = some (codes ".My  clip (1)!") }

sanitized_run : sanitize_stem (codes ".My  clip (1)!") ≡ codes "My-clip-1"
unfolding sanitize_stem equal
sanitized_run = refl

name_run : (derive_name quoted my_clip none (some video) false []).0 ≡ codes "My-clip-1.mp4"
unfolding derive_name sanitize_stem equal to_lowercase lower
name_run = refl

still_run :
    (derive_name quoted
      (record { extension = some (codes "JPG"); file_stem = some (codes "a") })
      none
      (some image)
      true
      []).0
    ≡ codes "a.jpg"
unfolding derive_name sanitize_stem equal to_lowercase lower
still_run = refl

derive_name-IsSafe_example :
    is_safe_media_name
      (derive_name quoted my_clip (some (codes "../boot.mp4")) (some video) false []).0
    ≡ true
derive_name-IsSafe_example =
    derive_name-IsSafe quoted my_clip (some (codes "../boot.mp4")) (some video) false []
