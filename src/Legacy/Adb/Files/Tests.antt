-- ===== src/Legacy/Adb/Files/Tests.antt =====
-- Runs of the parsers, and the theorems at a host that answers every program alike.
use tryxctl.Prelude.{
  ℕ, ◌+◌, equal, starts_with, ◌≡◌, refl, true, some, List, [], ◌∷◌, ok, arith, ◌⊎◌,
}
use tryxctl.Prelude.Text.{
  codes, trim, trim_end, trim_start, is_whitespace, keep_unless_blank, split_once, split_whitespace,
  words, flush,
}
use tryxctl.Prelude.Numbers.{parse_unsigned}
use tryxctl.Legacy.Adb.{lines, is_safe_media_name}
use tryxctl.Legacy.Adb.Files.{MediaFile, Host, Adb, parse_stat_listing, parse_df, rename}
use tryxctl.Legacy.Adb.Files.Listing.{stat_listing, parse_stat_listing-stat_listing}
use tryxctl.Legacy.Adb.Files.Shell.{IsRefused, RanQuietly, rename-RanQuietly}

abbrev two_files : List MediaFile
two_files =
    record { name = codes "clip_1.mp4"; size = 1048576 }
    ∷ record { name = codes "a.png"; size = 0 }
    ∷ []

usage_run :
    parse_df (codes "Filesystem 1K-blocks Used Available\n/dev/fuse 100 60 40 60% /sdcard\n \n")
    ≡ some (record { total_kib = 100; used_kib = 60; available_kib = 40 })
unfolding parse_df lines trim trim_end trim_start is_whitespace keep_unless_blank split_whitespace
    words flush parse_unsigned
usage_run = refl

spaced_name :
    parse_stat_listing (codes "7 /sdcard/pcMedia/clip one.mp4\nstat: bad\n")
    ≡ record { name = codes "clip one.mp4"; size = 7 } ∷ []
unfolding parse_stat_listing lines split_once trim_end keep_unless_blank is_whitespace starts_with
    parse_unsigned
spaced_name = refl

parse_stat_listing-stat_listing_example : parse_stat_listing (stat_listing two_files) ≡ two_files
unfolding is_safe_media_name equal starts_with
parse_stat_listing-stat_listing_example =
    parse_stat_listing-stat_listing two_files ((refl, omega arith), ((refl, omega arith), tt))

-- It counts the programs that ran.
abbrev counting : Host
counting = record {
  World = ℕ;
  output = λ n program args. (ok (record { success = true; stdout = []; stderr = [] }), n + 1);
}

abbrev one_adb : Adb
one_adb = record { program = codes "adb"; serial = some (codes "XYZ") }

rename-RanQuietly_example :
    (IsRefused counting
        (codes "a.png.part")
        0
        (rename counting one_adb (codes "a.png.part") (codes "a.png") 0)
      ⊎ IsRefused counting
          (codes "a.png")
          0
          (rename counting one_adb (codes "a.png.part") (codes "a.png") 0))
    ⊎ ((is_safe_media_name (codes "a.png.part") ≡ true)
        × (is_safe_media_name (codes "a.png") ≡ true)
        × RanQuietly counting one_adb 0
            (codes "mv -f -- /sdcard/pcMedia/a.png.part /sdcard/pcMedia/a.png")
            (rename counting one_adb (codes "a.png.part") (codes "a.png") 0))
rename-RanQuietly_example =
    rename-RanQuietly counting one_adb (codes "a.png.part") (codes "a.png") 0
