-- ===== src/Kanali/Device/Written.antt =====
-- The configuration that a change writes: every field that it names, and the readback of it.
use tryxctl.Prelude.{
  ℕ, ◌≡◌, ◌≤◌, refl, ◌∙◌, Bool, true, false, ◌||◌, Option, none, some, List, [], ◌∷◌, if◌then◌else◌,
  ok, Bytes, equal, arith, ◌⊎◌,
}
use tryxctl.Prelude.Text.{codes}
use tryxctl.Kanali.Wire.{UserConfiguration, WorkConfiguration, DisplayConfiguration}
use tryxctl.Kanali.Device
use tryxctl.Kanali.Device.{Change, check_change, write_media, write_display}
use tryxctl.Kanali.Device.State.{write_media-work, write_display-work}

-- A change that the device can take: it names something, its rotation is a quarter turn, and its
-- brightness is a percentage.
pub record IsValid (c : Change) : Type 0 where
  pub named : ¬ (
      (c.media ≡ none)
      × (c.brightness ≡ none)
      × (c.backlight ≡ none)
      × (c.waterfall ≡ none)
      × (c.rotation ≡ none))
  pub turned :
      (degrees : ℕ)
      → c.rotation ≡ some degrees
      → (degrees ≡ 0) ⊎ ((degrees ≡ 90) ⊎ ((degrees ≡ 180) ⊎ (degrees ≡ 270)))
  pub percentage : (b : ℕ) → c.brightness ≡ some b → b ≤ 100

pub check_change-IsValid : (c : Change) → check_change c ≡ ok tt → IsValid c
unfolding check_change Device.is_some Device.is_quarter_turn Device.passes
check_change-IsValid c h = record {
  named = λ (m, b, l, w, r). ground (arith, h, m, b, l, w, r);
  turned = λ degrees e. ground (arith, h, e);
  percentage = λ b e. ground (arith, h, e);
}

-- The media and the play mode of a change in the configuration: a pair side by side, or one file,
-- played once, in a loop or shuffled.
pub HasMedia : Bool → Option Bytes → List Bytes → WorkConfiguration → Type 0
HasMedia true play m w =
    (w.media_mode ≡ 1) × (m ≡ w.dual_mode_left_media_file ∷ w.dual_mode_right_media_file ∷ [])
HasMedia false play m w =
    (w.media_mode ≡ 0)
    × (m ≡ w.single_mode_media_file ∷ [])
    × (play ≡ some (codes "Loop") → w.loop_mode ≡ 1)
    × (play ≡ some (codes "Shuffle") → w.loop_mode ≡ 2)
    × (play ≡ none → w.loop_mode ≡ 0)

-- A configuration with every field that a change names.
pub record Asks (c : Change) (config : UserConfiguration) : Type 0 where
  pub asks_media :
      (m : List Bytes)
      → c.media ≡ some m
      → (w : WorkConfiguration) × (config.work_config ≡ some w)
        × HasMedia c.split_screen c.play_mode m w
  pub asks_brightness :
      (b : ℕ)
      → c.brightness ≡ some b
      → (d : DisplayConfiguration) × (config.display_config ≡ some d) × (d.backlight_brightness ≡ b)
  pub asks_backlight :
      (on : Bool)
      → c.backlight ≡ some on
      → (d : DisplayConfiguration) × (config.display_config ≡ some d) × (d.backlight_enable ≡ on)
  pub asks_waterfall :
      (on : Bool)
      → c.waterfall ≡ some on
      → (d : DisplayConfiguration) × (config.display_config ≡ some d)
        × (d.ui_rotation ≡ (if on then 90 else 0))
  pub asks_rotation :
      (degrees : ℕ)
      → c.rotation ≡ some degrees
      → (d : DisplayConfiguration) × (config.display_config ≡ some d) × (d.media_rotation ≡ degrees)

set_media-HasMedia :
    (split : Bool) (play : Option Bytes) (m : List Bytes) (work w : WorkConfiguration)
    → Device.set_media split play m work ≡ ok w
    → HasMedia split play m w
unfolding Device.set_media Device.loop_mode_of HasMedia equal
set_media-HasMedia true play (l ∷ r ∷ []) work w h = (ground (arith, h), ground (arith, h))
set_media-HasMedia false play (f ∷ []) work w h = (
  ground (arith, h),
  ground (arith, h),
  (λ e. ground (arith, h, e)),
  (λ e. ground (arith, h, e)),
  (λ e. ground (arith, h, e)),
)
set_media-HasMedia split play _ work w h = absurd (ground (arith, h))

set_display-written :
    (c : Change) (written : UserConfiguration)
    → (Device.is_some c.brightness
        || Device.is_some c.backlight
        || Device.is_some c.waterfall
        || Device.is_some c.rotation)
      ≡ true
    → (write_display c written).display_config
      ≡ some
          (Device.set_display c (Device.or_default Device.default_display written.display_config))
unfolding write_display
set_display-written c written h = simp h refl

pub write_display-Asks :
    (c : Change) (config written : UserConfiguration)
    → write_media c config ≡ ok written
    → Asks c (write_display c written)
unfolding Device.set_display Device.is_some Device.or_default
write_display-Asks c config written wrote =
    let shown = set_display-written c written in
    let d =
      Device.set_display c (Device.or_default Device.default_display written.display_config) in
    record {
      asks_media = λ m e.
          let (_, w, set, has) = write_media-work c config written m wrote e in
          (
            w,
            write_display-work c written ∙ has,
            set_media-HasMedia c.split_screen c.play_mode m _ w set,
          );
      asks_brightness = λ b e. (d, shown (ground (arith, e)), ground (arith, e));
      asks_backlight = λ b e. (d, shown (ground (arith, e)), ground (arith, e));
      asks_waterfall = λ b e. (d, shown (ground (arith, e)), ground (arith, e));
      asks_rotation = λ b e. (d, shown (ground (arith, e)), ground (arith, e));
    }
