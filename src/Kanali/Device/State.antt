-- ===== src/Kanali/Device/State.antt =====
-- The configuration written by a change, against the state read back.
use Prim.Native.String.{String}
use tryxctl.Prelude.{
  ==_iff, append-nil, min, ℕ, ◌≡◌, ◌≤◌, refl, ap, ◌∙◌, Bool, true, false, Option, none, some, List,
  [], ◌∷◌, ◌++◌, ◌==◌, if◌then◌else◌, Result-cases, ok, Bytes, equal, equal_iff, arith,
  Option-cases, inl, inr,
}
use tryxctl.Prelude.Text.{codes}
use tryxctl.Kanali.Wire.{UserConfiguration, WorkConfiguration, DisplayConfiguration}
use tryxctl.Kanali.Device
use tryxctl.Kanali.Device.{
  Change, DisplayState, check_change, write_media, write_display, state_from, mismatches,
}

abbrev pub mode_name : Bool → Bytes
mode_name split = if split then codes "Screen Splitting" else codes "Full Screen"

-- A state that shows what a change asks for.
pub record Agrees (c : Change) (st : DisplayState) : Type 0 where
  pub same_media :
      (m : List Bytes)
      → c.media ≡ some m
      → (st.media ≡ m) × (st.screen_mode ≡ mode_name c.split_screen)
  pub same_brightness : (b : ℕ) → c.brightness ≡ some b → st.brightness ≡ b
  pub same_waterfall : (w : Bool) → c.waterfall ≡ some w → st.waterfall ≡ w

equal_lists_sound : (a b : List Bytes) → Device.equal_lists a b ≡ true → a ≡ b
unfolding Device.equal_lists
equal_lists_sound [] [] h = refl
equal_lists_sound [] (y ∷ b) h = absurd (ground (arith, h))
equal_lists_sound (x ∷ a) [] h = absurd (ground (arith, h))
equal_lists_sound (x ∷ a) (y ∷ b) h = ground (arith, h, equal_iff x y, equal_lists_sound a b)

pub equal_lists_refl : (a : List Bytes) → Device.equal_lists a a ≡ true
unfolding Device.equal_lists
equal_lists_refl [] = refl
equal_lists_refl (x ∷ a) = ground (arith, equal_iff x x, equal_lists_refl a)

same_bool_sound : (a b : Bool) → Device.same_bool a b ≡ true → a ≡ b
unfolding Device.same_bool
same_bool_sound true b h = ground (arith, h)
same_bool_sound false b h = ground (arith, h)

unless-nil :
    (test : Bool) (what : String) (rest : List String)
    → Device.unless test what ++ rest ≡ []
    → (test ≡ true) × (rest ≡ [])
unfolding Device.unless
unless-nil true what rest h = (refl, h)
unless-nil false what rest h = absurd (ground (arith, h))

passes-some :
    {A : Type 0} (test : A → Bool) (o : Option A) (a : A)
    → Device.passes test o ≡ true
    → o ≡ some a
    → test a ≡ true
unfolding Device.passes
passes-some test none a h e = absurd (ground (arith, e))
passes-some test (some b) a h e = ground (arith, h, e)

-- Without a mismatch, the state read back agrees with the change.
pub mismatches-Agrees : (c : Change) (st : DisplayState) → mismatches c st ≡ [] → Agrees c st
unfolding mismatches
mismatches-Agrees c st h =
    let t1 = Device.passes (Device.equal_lists st.media) c.media in
    let t2 = Device.passes (λ m. equal st.screen_mode (mode_name c.split_screen)) c.media in
    let t3 = Device.passes (λ b. st.brightness == b) c.brightness in
    let t4 = Device.passes (Device.same_bool st.waterfall) c.waterfall in
    let l4 = Device.unless t4 "waterfall" in
    let l3 = Device.unless t3 "brightness" ++ l4 in
    let (media, h1) = unless-nil t1 "media" (Device.unless t2 "screen mode" ++ l3) h in
    let (mode, h2) = unless-nil t2 "screen mode" l3 h1 in
    let (brightness, h3) = unless-nil t3 "brightness" l4 h2 in
    let (waterfall, _) = unless-nil t4 "waterfall" [] (append-nil l4 ∙ h3) in
    record {
      same_media = λ m e. (
        equal_lists_sound st.media m (passes-some (Device.equal_lists st.media) c.media m media e),
        (equal_iff st.screen_mode (mode_name c.split_screen)).0
            (passes-some (λ x. equal st.screen_mode (mode_name c.split_screen)) c.media m mode e),
      );
      same_brightness = λ b e.
          (==_iff st.brightness b).0
            (passes-some (λ x. st.brightness == x) c.brightness b brightness e);
      same_waterfall = λ w e.
          same_bool_sound st.waterfall w
            (passes-some (Device.same_bool st.waterfall) c.waterfall w waterfall e);
    }

-- The parts of the configuration that a state shows.
record Shown (config : UserConfiguration) (st : DisplayState) : Type 0 where
  display : DisplayConfiguration
  work : WorkConfiguration
  has_display : config.display_config ≡ some display
  has_work : config.work_config ≡ some work
  shows_brightness : st.brightness ≡ min display.backlight_brightness 100
  shows_waterfall : st.waterfall ≡ (display.ui_rotation == 90)
  shows_mode : st.screen_mode ≡ (Device.screen_of work).0
  shows_media : st.media ≡ (Device.screen_of work).2

state_from-Shown :
    (config : UserConfiguration) (st : DisplayState) → state_from config ≡ some st → Shown config st
unfolding state_from
state_from-Shown config st h = elim (Option-cases config.display_config) [
  | inl e ↦ absurd (ground (arith, e, h))
  | inr (d, ed) ↦ elim (Option-cases config.work_config) [
    | inl e ↦ absurd (ground (arith, ed, e, h))
    | inr (w, ew) ↦ record {
      display = d;
      work = w;
      has_display = ed;
      has_work = ew;
      shows_brightness = ground (arith, ed, ew, h);
      shows_waterfall = ground (arith, ed, ew, h);
      shows_mode = ground (arith, ed, ew, h);
      shows_media = ground (arith, ed, ew, h);
    }
  ]
]

set_media-shows :
    (split : Bool) (mode : Option Bytes) (m : List Bytes) (work w : WorkConfiguration)
    → Device.set_media split mode m work ≡ ok w
    → ((Device.screen_of w).0 ≡ mode_name split) × ((Device.screen_of w).2 ≡ m)
unfolding Device.set_media Device.screen_of
set_media-shows true mode (l ∷ r ∷ []) work w h = ground (arith, h)
set_media-shows false mode (f ∷ []) work w h = ground (arith, h)
set_media-shows split mode _ work w h = absurd (ground (arith, h))

pub write_media-work :
    (c : Change) (config written : UserConfiguration) (m : List Bytes)
    → write_media c config ≡ ok written
    → c.media ≡ some m
    → (w0 w : WorkConfiguration) × (Device.set_media c.split_screen c.play_mode m w0 ≡ ok w)
      × (written.work_config ≡ some w)
unfolding write_media
write_media-work c config written m h e =
    let w0 = Device.or_default Device.default_work config.work_config in
    elim (Result-cases (Device.set_media c.split_screen c.play_mode m w0)) [
      | inl (w, set) ↦ (w0, w, set, ground (arith, e, set, h))
      | inr (x, bad) ↦ absurd (ground (arith, e, bad, h))
    ]

pub write_display-work :
    (c : Change) (config : UserConfiguration)
    → (write_display c config).work_config ≡ config.work_config
unfolding write_display
write_display-work c config = ground arith

write_display-brightness :
    (c : Change) (config : UserConfiguration) (d : DisplayConfiguration) (b : ℕ)
    → (write_display c config).display_config ≡ some d
    → c.brightness ≡ some b
    → d.backlight_brightness ≡ b
unfolding write_display Device.set_display Device.is_some Device.or_default
write_display-brightness c config d b h e = ground (arith, h, e)

write_display-waterfall :
    (c : Change) (config : UserConfiguration) (d : DisplayConfiguration) (on : Bool)
    → (write_display c config).display_config ≡ some d
    → c.waterfall ≡ some on
    → (d.ui_rotation == 90) ≡ on
unfolding write_display Device.set_display Device.is_some Device.or_default
write_display-waterfall c config d true h e = ground (arith, h, e)
write_display-waterfall c config d false h e = ground (arith, h, e)

check_change-brightness :
    (c : Change) (b : ℕ) → check_change c ≡ ok tt → c.brightness ≡ some b → b ≤ 100
unfolding check_change Device.passes
check_change-brightness c b h e = ground (arith, h, e)

-- The state made from the configuration that a valid change writes agrees with the change.
pub state_from-Agrees :
    (c : Change) (config written : UserConfiguration) (st : DisplayState)
    → check_change c ≡ ok tt
    → write_media c config ≡ ok written
    → state_from (write_display c written) ≡ some st
    → Agrees c st
state_from-Agrees c config written st checked wrote shown =
    let s = state_from-Shown (write_display c written) st shown in
    record {
      same_media = λ m e.
          let (_, w, set, has) = write_media-work c config written m wrote e in
          let (mode, media) = set_media-shows c.split_screen c.play_mode m _ w set in
          let same : s.work ≡ w = ground (arith, s.has_work, has, write_display-work c written) in
          (
            ground (arith, s.shows_media, media, same),
            s.shows_mode ∙ ap (λ k. (Device.screen_of k).0) same ∙ mode,
          );
      same_brightness = λ b e. ground (
        arith,
        s.shows_brightness,
        write_display-brightness c written s.display b s.has_display e,
        check_change-brightness c b checked e,
      );
      same_waterfall = λ on e.
          s.shows_waterfall ∙ write_display-waterfall c written s.display on s.has_display e;
    }
