-- ===== src/Tool/Showing/Known.antt =====
-- What a link shows after the saved state was applied.
use tryxctl.Prelude.{
  ◌≡◌, refl, Bool, true, false, Option, none, some, List, [], ◌∷◌, equal_refl, Result, ok, err,
  ok-injective, ◌>>=◌, Bytes, All, if◌then◌else◌, ◌&&◌, Bool-cases, inl, inr, arith,
}
use tryxctl.Prelude.Text.{equal_ignoring_case}
use tryxctl.Device.Product.{Product}
use tryxctl.Kanali.Errors.{Outcome, done, failed, stuck}
use tryxctl.Kanali.Device.Calls.{Link}
use tryxctl.Kanali.Overlay.{OverlayArea, OverlayConfig, Metric, Moment, catalog, has_name}
use tryxctl.Tool.{DisplayState, DisplaySettings}
use tryxctl.Tool.Showing
use tryxctl.Tool.Showing.{
  supported_label, metric_names, area_from, overlay_from, apply_state, Shown, ShowFailure,
  UnknownLabel,
}

pub AreKnown : List Bytes → Type 0
AreKnown = All (λ name. has_name name catalog ≡ true)

pub IsKnown : Option OverlayConfig → Type 0
IsKnown none = Unit
IsKnown (some overlay) = AreKnown overlay.left.metrics × AreKnown overlay.right.metrics

find_label_sound :
    (wanted : Bytes) (ms : List Metric) {name : Bytes}
    → Showing.find_label wanted ms ≡ some name
    → has_name name ms ≡ true
unfolding Showing.find_label has_name
find_label_sound wanted [] h = absurd (ground (arith, h))
find_label_sound wanted (m ∷ ms) {name} h = elim (Bool-cases (equal_ignoring_case m.name wanted)) [
  | inl same ↦ ground (arith, h, same, equal_refl m.name)
  | inr other ↦ ground (arith, h, other, find_label_sound wanted ms {name = name})
]

label-AreKnown :
    (label : Bytes) (found : Option Bytes) (rest : Result UnknownLabel (List Bytes))
    {names : List Bytes}
    → ((name : Bytes) → found ≡ some name → has_name name catalog ≡ true)
    → ((others : List Bytes) → rest ≡ ok others → AreKnown others)
    → (Showing.found_name label found >>= λ name. rest >>= λ others. ok (name ∷ others)) ≡ ok names
    → AreKnown names
unfolding Showing.found_name AreKnown
label-AreKnown label none rest k r h = absurd (ground (arith, h))
label-AreKnown label (some name) (err e) k r h = absurd (ground (arith, h))
label-AreKnown label (some name) (ok others) k r h =
    rw (← ok-injective h) (k name refl, r others refl)

metric_names-AreKnown :
    (labels : List Bytes) {names : List Bytes} → metric_names labels ≡ ok names → AreKnown names
unfolding metric_names AreKnown supported_label
metric_names-AreKnown [] h = rw (← ok-injective h) tt
metric_names-AreKnown (label ∷ labels) h =
    label-AreKnown label (supported_label label) (metric_names labels)
      (λ name found. find_label_sound (Showing.wanted_label label) catalog found)
      (λ others e. metric_names-AreKnown labels e) h

area_step :
    (settings : DisplaySettings) (r : Result UnknownLabel (List Bytes)) {area : OverlayArea}
    → ((names : List Bytes) → r ≡ ok names → AreKnown names)
    → (r >>= λ metrics. ok (Showing.area_of settings metrics)) ≡ ok area
    → AreKnown area.metrics
unfolding Showing.area_of
area_step settings (err e) k h = absurd (ground (arith, h))
area_step settings (ok names) k h = rw (← ok-injective h) (k names refl)

area_from-AreKnown :
    (labels : List Bytes) (settings : DisplaySettings) {area : OverlayArea}
    → area_from labels settings ≡ ok area
    → AreKnown area.metrics
unfolding area_from
area_from-AreKnown labels settings h =
    area_step settings (metric_names labels) (λ names e. metric_names-AreKnown labels e) h

overlay_of-IsKnown :
    (saved : DisplayState) (left right : OverlayArea)
    → AreKnown left.metrics
    → AreKnown right.metrics
    → IsKnown (Showing.overlay_of saved left right)
unfolding Showing.overlay_of IsKnown
overlay_of-IsKnown saved left right l r =
    elim (Bool-cases (Showing.is_empty left && Showing.is_empty right)) [
      | inl empty ↦ simp empty tt
      | inr full ↦ simp full (l, r)
    ]

right_area-AreKnown :
    (saved : DisplayState) (split : Bool) {area : OverlayArea}
    → (if split
        then area_from saved.screen.sysinfo_display2 saved.screen.settings2
        else ok Showing.default_area)
      ≡ ok area
    → AreKnown area.metrics
unfolding AreKnown
right_area-AreKnown saved true h =
    area_from-AreKnown saved.screen.sysinfo_display2 saved.screen.settings2 h
right_area-AreKnown saved false h = rw (← ok-injective h) tt

overlay_step :
    (saved : DisplayState) (left right : Result UnknownLabel OverlayArea)
    {overlay : Option OverlayConfig}
    → ((area : OverlayArea) → left ≡ ok area → AreKnown area.metrics)
    → ((area : OverlayArea) → right ≡ ok area → AreKnown area.metrics)
    → (left >>= λ a. right >>= λ b. ok (Showing.overlay_of saved a b)) ≡ ok overlay
    → IsKnown overlay
overlay_step saved (err e) right k l h = absurd (ground (arith, h))
overlay_step saved (ok a) (err e) k l h = absurd (ground (arith, h))
overlay_step saved (ok a) (ok b) k l h =
    rw (← ok-injective h) (overlay_of-IsKnown saved a b (k a refl) (l b refl))

overlay_from-IsKnown :
    (saved : DisplayState) {overlay : Option OverlayConfig}
    → overlay_from saved ≡ ok overlay
    → IsKnown overlay
unfolding overlay_from
overlay_from-IsKnown saved h =
    overlay_step saved _ _
      (λ area e. area_from-AreKnown saved.screen.sysinfo_display saved.screen.settings e)
      (λ area e. right_area-AreKnown saved (Showing.is_split saved.screen) e) h

-- After an attempt to show a saved state: an error changes nothing, and else the overlay is the one
-- of the saved state, and its metrics are known to the firmware.
pub Remembers : DisplayState → Shown → Result ShowFailure Bytes → Shown → Type 0
Remembers saved before (err e) after = after ≡ before
Remembers saved before (ok word) after =
    (overlay_from saved ≡ ok after.overlay) × IsKnown after.overlay

module _ (link : Link) (product : Product) where
  open link use {State}

  kept-Remembers :
      (saved : DisplayState) (overlay : Option OverlayConfig) (shown : Shown)
      (result : Outcome (Unit {0}))
      → overlay_from saved ≡ ok overlay
      → Remembers saved shown
          (Showing.kept link product saved overlay shown result).0
          (Showing.kept link product saved overlay shown result).1
  unfolding Showing.kept Showing.remembered Remembers
  kept-Remembers saved overlay shown (done _) e = (e, overlay_from-IsKnown saved e)
  kept-Remembers saved overlay shown (failed _) e = refl
  kept-Remembers saved overlay shown stuck e = refl

  apply_overlay-Remembers :
      (now : Moment) (saved : DisplayState) (shown : Shown)
      (r : Result UnknownLabel (Option OverlayConfig)) (s : State)
      → overlay_from saved ≡ r
      → Remembers saved shown
          (Showing.apply_overlay link product now saved shown r s).0
          (Showing.apply_overlay link product now saved shown r s).1
  unfolding Showing.apply_overlay Remembers
  apply_overlay-Remembers now saved shown (err e) s h = refl
  apply_overlay-Remembers now saved shown (ok overlay) s h = kept-Remembers saved overlay shown _ h

  -- When a saved state is applied to a link, the link remembers its overlay, whose metrics the
  -- firmware all knows; when that fails, at a label or at the device, the link remembers what it did.
  pub apply_state-Remembers :
      (now : Moment) (saved : DisplayState) (shown : Shown) (s : State)
      → Remembers saved shown
          (apply_state link product now saved shown s).0
          (apply_state link product now saved shown s).1
  unfolding apply_state
  apply_state-Remembers now saved shown s =
      apply_overlay-Remembers now saved shown (overlay_from saved) s refl
