-- ===== src/Legacy/Adb/Files.antt =====
-- `Adb` of crates/tryx-legacy/src/adb.rs: the runs of the `adb` program, which is an interface here,
-- and the operations on the media directory. A local path is its text.
mod Shell
mod Listing
mod Tests
use tryxctl.Prelude.{
  ℕ, zero, suc, ◌+◌, ◌^◌, Bool, true, false, ◌&&◌, ◌||◌, not, Option, none, some, List, [], ◌∷◌,
  ◌++◌, ◌==◌, if◌then◌else◌, Result, ok, err, Bytes, ◌>>=◌,
}
use mathlib.Core.Option
use tryxctl.Prelude.Text.{
  codes, to_decimal, split_once, split_whitespace, from_utf8_lossy, trim, trim_end, contains,
  format,
}
use tryxctl.Prelude.Numbers.{parse_unsigned}
use tryxctl.Legacy.{LegacyError, adb}
use tryxctl.Legacy.Adb.{media_dir, lines, AdbDevice, parse_devices, remote_path}

pub record MediaFile : Type 0 where
  pub name : Bytes
  pub size : ℕ

pub record DiskUsage : Type 0 where
  pub total_kib : ℕ
  pub used_kib : ℕ
  pub available_kib : ℕ

-- `path.rsplit('/').next()`: what follows the last slash, of the part read so far and the rest.
after_slash : Bytes → Bytes → Bytes
after_slash part [] = part
after_slash part (c ∷ cs) = after_slash (if c == 47 then [] else part ++ (c ∷ [])) cs

media_file : Bytes → ℕ → List MediaFile
media_file [] size = []
media_file (c ∷ cs) size = record { name = c ∷ cs; size = size } ∷ []

sized : Option ℕ → Bytes → List MediaFile
unfolding media_file after_slash
sized none path = []
sized (some size) path = media_file (after_slash [] path) size

listed : Option (Bytes × Bytes) → List MediaFile
unfolding sized
listed none = []
listed (some (size, path)) = sized (parse_unsigned (2 ^ 64) size) path

listing_of : List Bytes → List MediaFile
unfolding listed
listing_of [] = []
listing_of (line ∷ rest) = listed (split_once (trim_end line) (codes " ")) ++ listing_of rest

pub parse_stat_listing : Bytes → List MediaFile
unfolding listing_of
parse_stat_listing output = listing_of (lines output)

-- The last line that is not blank, or the one found so far.
last_filled : Option Bytes → List Bytes → Option Bytes
last_filled found [] = found
last_filled found (line ∷ rest) =
    last_filled (elim (trim line) [ [] ↦ found | c ∷ cs ↦ some line ]) rest

usage : Option ℕ → Option ℕ → Option ℕ → Option DiskUsage
usage (some total) (some used) (some available) =
    some (record { total_kib = total; used_kib = used; available_kib = available })
usage _ _ _ = none

usage_of : List Bytes → Option DiskUsage
unfolding usage
usage_of (name ∷ total ∷ used ∷ available ∷ rest) =
    usage (parse_unsigned (2 ^ 64) total) (parse_unsigned (2 ^ 64) used)
      (parse_unsigned (2 ^ 64) available)
usage_of _ = none

usage_line : Option Bytes → Option DiskUsage
unfolding usage_of
usage_line none = none
usage_line (some line) = usage_of (split_whitespace line)

pub parse_df : Bytes → Option DiskUsage
unfolding last_filled usage_line
parse_df output = usage_line (last_filled none (lines output))

-- What a program that ran leaves.
pub record Output : Type 0 where
  pub success : Bool
  pub stdout : Bytes
  pub stderr : Bytes

-- The programs of the host: what one gives for its arguments, or why it could not be run.
pub record Host : Type 1 where
  pub World : Type 0
  pub output : World → Bytes → List Bytes → Result Bytes Output × World

pub record Adb : Type 0 where
  pub program : Bytes
  pub serial : Option Bytes

-- `args.join(" ")`
join : List Bytes → Bytes
join [] = []
join (arg ∷ []) = arg
join (arg ∷ next ∷ args) = arg ++ (codes " " ++ join (next ∷ args))

pub with_selector : Bool → Option Bytes → List Bytes → List Bytes
with_selector true (some serial) args = codes "-s" ∷ serial ∷ args
with_selector _ _ args = args

stdout_of : List Bytes → Result Bytes Output → Result LegacyError Bytes
unfolding join
stdout_of args (err e) = err (adb (join args) e)
stdout_of args (ok out) =
    let stdout = from_utf8_lossy out.stdout in
    let stderr = from_utf8_lossy out.stderr in
    if out.success then ok stdout else err (adb (join args) (trim stdout ++ trim stderr))

bytes_of : List Bytes → Result Bytes Output → Result LegacyError Bytes
unfolding join
bytes_of args (err e) = err (adb (join args) e)
bytes_of args (ok out) =
    if out.success then ok out.stdout else err (adb (join args) (trim (from_utf8_lossy out.stderr)))

pub shell : Bytes → List Bytes
shell command = codes "shell" ∷ command ∷ []

module _ (host : Host) where
  open host use {World, output}

  run : Adb → List Bytes → Bool → World → Result LegacyError Bytes × World
  unfolding with_selector stdout_of
  run self args device_scoped w =
      let (r, after) = output w self.program (with_selector device_scoped self.serial args) in
      (stdout_of args r, after)

  run_bytes : Adb → List Bytes → World → Result LegacyError Bytes × World
  unfolding with_selector bytes_of
  run_bytes self args w =
      let (r, after) = output w self.program (with_selector true self.serial args) in
      (bytes_of args r, after)

  -- `remote_path(name)?` in front of a run.
  at_remote :
      {A : Type 0}
      → Result LegacyError Bytes
      → (Bytes → World → Result LegacyError A × World)
      → World
      → Result LegacyError A × World
  at_remote (err e) act w = (err e, w)
  at_remote (ok remote) act w = act remote w

  finished : Result LegacyError Bytes → Result LegacyError (Unit {0})
  finished (ok _) = ok tt
  finished (err e) = err e

  pub devices : Adb → World → Result LegacyError (List AdbDevice) × World
  unfolding run
  devices self w =
      let (r, after) = run self (codes "devices" ∷ codes "-l" ∷ []) false w in
      (r >>= (λ out. ok (parse_devices out)), after)

  pub list_media : Adb → World → Result LegacyError (List MediaFile) × World
  unfolding run shell
  list_media self w =
      let (r, after) =
        run self
          (shell (format (codes "stat -c '%s %n' " ∷ media_dir ∷ codes "* 2>/dev/null; true" ∷ [])))
          true w in
      (r >>= (λ out. ok (parse_stat_listing out)), after)

  df_result : Bytes → Result LegacyError DiskUsage
  df_result out = elim (parse_df out) [
    | some found ↦ ok found
    | none ↦ err (adb (codes "shell df -k /sdcard") (codes "unexpected output: " ++ trim out))
  ]

  pub free_space : Adb → World → Result LegacyError DiskUsage × World
  unfolding run shell df_result
  free_space self w =
      let (r, after) = run self (shell (codes "df -k /sdcard")) true w in (r >>= df_result, after)

  pub push : Adb → Bytes → Bytes → World → Result LegacyError (Unit {0}) × World
  unfolding run at_remote finished
  push self local_path remote_name = at_remote (remote_path remote_name) (λ remote w.
      let (r, after) = run self (codes "push" ∷ local_path ∷ remote ∷ []) true w in
      (finished r, after))

  pub pull : Adb → Bytes → Bytes → World → Result LegacyError (Unit {0}) × World
  unfolding run at_remote finished
  pull self remote_name local_path = at_remote (remote_path remote_name) (λ remote w.
      let (r, after) = run self (codes "pull" ∷ remote ∷ local_path ∷ []) true w in
      (finished r, after))

  pub read_prefix : Adb → Bytes → ℕ → World → Result LegacyError Bytes × World
  unfolding run_bytes at_remote
  read_prefix self remote_name bytes = at_remote (remote_path remote_name) (λ remote w.
      run_bytes self
        (codes "exec-out" ∷ codes "head" ∷ codes "-c" ∷ to_decimal bytes ∷ codes "--" ∷ remote ∷ [])
        w)

  moved : Bytes → Result LegacyError Bytes → Result LegacyError (Unit {0})
  moved command (err e) = err e
  moved command (ok out) =
      if contains out (codes "mv:") || contains out (codes "No such file")
      then err (adb (codes "shell " ++ command) (trim out))
      else ok tt

  pub rename : Adb → Bytes → Bytes → World → Result LegacyError (Unit {0}) × World
  unfolding run at_remote shell moved
  rename self from_name to_name = at_remote (remote_path from_name) (λ from.
      at_remote (remote_path to_name) (λ to w.
        let command = format (codes "mv -f -- " ∷ from ∷ codes " " ∷ to ∷ []) in
        let (r, after) = run self (shell command) true w in (moved command r, after)))

  removed : Bytes → Result LegacyError Bytes → Result LegacyError Bool
  removed command (err (adb args message)) =
      if contains message (codes "No such file") then ok false else err (adb args message)
  removed command (err e) = err e
  removed command (ok out) =
      if contains out (codes "No such file")
      then ok false
      else if contains out (codes "rm:")
      then err (adb (codes "shell " ++ command) (trim out))
      else ok true

  pub remove : Adb → Bytes → World → Result LegacyError Bool × World
  unfolding run at_remote shell removed
  remove self remote_name = at_remote (remote_path remote_name) (λ remote w.
      let command = format (codes "rm -- " ∷ remote ∷ []) in
      let (r, after) = run self (shell command) true w in (removed command r, after))
