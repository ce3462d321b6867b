-- ===== src/Legacy/Adb/Files/Shell.antt =====
-- The commands that reach the shell of the display.
use tryxctl.Prelude.{
  ◌≡◌, refl, true, false, List, [], ◌∷◌, ◌++◌, Result, err, Bytes, ◌⊎◌, inl, inr, All, All-append,
}
use tryxctl.Prelude.Text.{codes, format}
use tryxctl.Legacy.{LegacyError, unsafe_media_name}
use tryxctl.Legacy.Adb.{media_dir, is_safe_media_name}
use tryxctl.Legacy.Adb.Names.{IsQuiet, remote_path-cases, mv_text, rm_text, blank}
use tryxctl.Legacy.Adb.Files
use tryxctl.Legacy.Adb.Files.{Host, Adb, with_selector, shell, rename, remove}

All-format : (parts : List Bytes) → All (All IsQuiet) parts → All IsQuiet (format parts)
All-format [] h = tt
All-format (part ∷ parts) h = All-append IsQuiet part (format parts) h.0 (All-format parts h.1)

module _ (host : Host) where
  open host use {World, output}

  -- A name that is not safe is refused, and nothing runs.
  abbrev pub IsRefused : {A : Type 0} → Bytes → World → Result LegacyError A × World → Type 0
  IsRefused name w result =
      (is_safe_media_name name ≡ false) × (result.0 ≡ err (unsafe_media_name name)) × (result.1 ≡ w)

  -- This command reached the shell of the display, and it has no byte that a shell interprets.
  abbrev pub RanQuietly : {A : Type 0} → Adb → World → Bytes → Result LegacyError A × World → Type 0
  RanQuietly self w command result =
      All IsQuiet command
      × (result.1 ≡ (output w self.program (with_selector true self.serial (shell command))).1)

  pub remove-RanQuietly :
      (self : Adb) (name : Bytes) (w : World)
      → IsRefused name w (remove host self name w)
        ⊎ ((is_safe_media_name name ≡ true)
            × RanQuietly self w
                (format (codes "rm -- " ∷ (media_dir ++ name) ∷ []))
                (remove host self name w))
  unfolding remove Files.at_remote Files.run
  remove-RanQuietly self name w = elim (remote_path-cases name) [
    | inl (bad, e) ↦ inl (bad, simp e refl, simp e refl)
    | inr (safe, e, quiet) ↦ inr (
      safe,
      (All-format (codes "rm -- " ∷ (media_dir ++ name) ∷ []) (rm_text, (quiet, tt)), simp e refl),
    )
  ]

  -- A rename refuses a name that is not safe and runs nothing; otherwise one mv of the two
  -- paths in the media directory reaches the shell of the display, and none of its bytes is one that a shell interprets.
  pub rename-RanQuietly :
      (self : Adb) (from_name to_name : Bytes) (w : World)
      → (IsRefused from_name w (rename host self from_name to_name w)
          ⊎ IsRefused to_name w (rename host self from_name to_name w))
        ⊎ ((is_safe_media_name from_name ≡ true)
            × (is_safe_media_name to_name ≡ true)
            × RanQuietly self w
                (format (
                  codes "mv -f -- "
                  ∷ (media_dir ++ from_name)
                  ∷ codes " "
                  ∷ (media_dir ++ to_name)
                  ∷ []))
                (rename host self from_name to_name w))
  unfolding rename Files.at_remote Files.run
  rename-RanQuietly self from_name to_name w = elim (remote_path-cases from_name) [
    | inl (bad, e) ↦ inl (inl (bad, simp e refl, simp e refl))
    | inr (safe, e, quiet) ↦ elim (remote_path-cases to_name) [
      | inl (bad, k) ↦ inl (inr (bad, simp (e, k) refl, simp (e, k) refl))
      | inr (safe_to, k, quiet_to) ↦ inr (
        safe,
        safe_to,
        (
          All-format
              (codes "mv -f -- "
                ∷ (media_dir ++ from_name)
                ∷ codes " "
                ∷ (media_dir ++ to_name)
                ∷ [])
              (mv_text, (quiet, (blank, (quiet_to, tt)))),
          simp (e, k) refl,
        ),
      )
    ]
  ]
