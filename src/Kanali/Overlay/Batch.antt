-- ===== src/Kanali/Overlay/Batch.antt =====
-- The updates of a batch against the layout that they update.
use tryxctl.Prelude.{
  ℕ, ◌+◌, ◌≡◌, refl, sym, Bool, true, false, ◌||◌, Option, none, some, List, [], ◌∷◌, ◌==◌,
  if◌then◌else◌, length, ◌<◌, All, All-append, Member, here, there, All-Member, Member-All,
  Member-append_left, Member-append_right, Bytes, Bool-cases, inl, inr, arith,
}
use tryxctl.Kanali.Wire.{OverlayLabel, OverlayGroup, OverlayGroupUpdate}
use tryxctl.Kanali.Overlay
use tryxctl.Kanali.Overlay.{
  OverlayArea, OverlayConfig, Metric, MetricValue, Moment, catalog, selected, select_loop,
  metric_group, append_area, run_config, metric_updates, metric_batch, find_value, label,
}
use tryxctl.Kanali.Overlay.Selected.{selected-IsSelection}

-- A layout has a label with this id in a group with that id.
pub record Shows (layout : List OverlayGroup) (group_id label_id : ℕ) : Type 0 where
  pub group : OverlayGroup
  pub in_layout : Member group layout
  pub same_group : group.group_id ≡ group_id
  pub shown : OverlayLabel
  pub in_group : Member shown group.labels
  pub same_label : shown.label_id ≡ label_id

pub AllShown : List OverlayGroup → List OverlayGroupUpdate → Type 0
AllShown layout updates =
    All (λ u. All (λ (p : ℕ × Bytes). Shows layout u.group_id p.0) u.label_texts) updates

metric_groups-Member :
    (now : Moment) (overlay : OverlayConfig) (area : OverlayArea) (right : Bool) (count : ℕ)
    {m : Metric} {ms : List Metric} (index : ℕ)
    → Member m ms
    → (k : ℕ) × Member
        (metric_group now overlay area right count k m)
        (Overlay.metric_groups now overlay area right count index ms)
unfolding Overlay.metric_groups
metric_groups-Member now overlay area right count index here = (index, here)
metric_groups-Member now overlay area right count index (there h) =
    let (k, found) = metric_groups-Member now overlay area right count (index + 1) h in
    (k, there found)

Member-positive : {A : Type 0} {a : A} {xs : List A} → Member a xs → 0 < length xs
Member-positive here = omega arith
Member-positive (there h) = omega arith

selects_some :
    (names : List Bytes) (m : Metric)
    → Member m (select_loop names [])
    → Overlay.is_nil names ≡ false
unfolding select_loop Overlay.is_nil
selects_some [] m h = absurd (omega (arith, Member-positive h))
selects_some (x ∷ names) m h = refl

append_area-Member :
    (now : Moment) (overlay : OverlayConfig) (area : OverlayArea) (right : Bool) (m : Metric)
    → Member m (selected area)
    → (k : ℕ) × Member
        (metric_group now overlay area right (length (selected area)) k m)
        (append_area now overlay area right)
unfolding append_area selected
append_area-Member now overlay area right m h =
    let (k, found) = metric_groups-Member now overlay area right (length (selected area)) 0 h in
    rw (selects_some area.metrics m h) (k, Member-append_left _ found)

abbrev HasLabel : List OverlayLabel → ℕ → Type 0
HasLabel labels id = (l : OverlayLabel) × Member l labels × (l.label_id ≡ id)

module _ (now : Moment) (area : OverlayArea) (offset gap : ℕ) (m : Metric) where
  title_HasLabel : HasLabel (Overlay.group_labels now area offset gap m) (m.title_id + offset)
  unfolding Overlay.group_labels label
  title_HasLabel = elim (Bool-cases m.date_time) [
    | inl clock ↦ rw clock (_, here, refl)
    | inr plain ↦ rw plain (_, here, refl)
  ]

  value_HasLabel : HasLabel (Overlay.group_labels now area offset gap m) (m.value_id + offset)
  unfolding Overlay.group_labels label
  value_HasLabel = elim (Bool-cases m.date_time) [
    | inl clock ↦ rw clock (_, there here, refl)
    | inr plain ↦ rw plain (_, there here, refl)
  ]

  unit_HasLabel :
      m.date_time ≡ false
      → (m.unit_id == 0) ≡ false
      → HasLabel (Overlay.group_labels now area offset gap m) (m.unit_id + offset)
  unfolding Overlay.group_labels label
  unit_HasLabel plain some_unit = rw (plain, some_unit) (_, there (there here), refl)

-- The metrics with a unit update have a unit label.
has_unit :
    (m : Metric)
    → Member m catalog
    → (m.group == 100 || m.group == 104) ≡ true
    → (m.unit_id == 0) ≡ false
has_unit m known =
    Member-All
      (λ (m : Metric). (m.group == 100 || m.group == 104) ≡ true → (m.unit_id == 0) ≡ false) known
      (ground arith)

-- Where a layout has the group of a metric, it has the labels that the metric's updates name.
module _ (now later : Moment) (overlay : OverlayConfig) (area : OverlayArea) (right : Bool)
    (values : List MetricValue) (layout : List OverlayGroup) where
  abbrev Laid : Metric → Type 0
  Laid m = (count k : ℕ) × Member (metric_group now overlay area right count k m) layout

  Laid-Shows :
      (m : Metric) (id : ℕ)
      → Laid m
      → ((gap : ℕ) → HasLabel (Overlay.group_labels now area (Overlay.id_offset right) gap m) id)
      → Shows layout (m.group + Overlay.id_offset right) id
  unfolding metric_group
  Laid-Shows m id (count, k, found) has =
      let group = metric_group now overlay area right count k m in
      let (l, inside, same) = has _ in
      record {
        group = group;
        in_layout = found;
        same_group = refl;
        shown = l;
        in_group = inside;
        same_label = same;
      }

  value_updates-AllShown :
      (m : Metric) (v : MetricValue)
      → Member m catalog
      → m.date_time ≡ false
      → Laid m
      → AllShown layout (Overlay.value_updates (Overlay.id_offset right) m v)
  unfolding AllShown Overlay.value_updates Overlay.push_update
  value_updates-AllShown m v known plain laid =
      let value =
        Laid-Shows m _ laid (λ gap. value_HasLabel now area (Overlay.id_offset right) gap m) in
      elim (Bool-cases (m.group == 100 || m.group == 104)) [
        | inl warm ↦
            let unit = Laid-Shows m _ laid (λ gap.
              unit_HasLabel now area (Overlay.id_offset right) gap m plain
                (has_unit m known warm)) in
            rw warm ((value, tt), ((unit, tt), tt))
        | inr cool ↦ rw cool ((value, tt), tt)
      ]

  found_updates-AllShown :
      (m : Metric) (found : Option MetricValue)
      → Member m catalog
      → m.date_time ≡ false
      → Laid m
      → AllShown layout (Overlay.found_updates (Overlay.id_offset right) m found)
  unfolding AllShown Overlay.found_updates
  found_updates-AllShown m none known plain laid = tt
  found_updates-AllShown m (some v) known plain laid = value_updates-AllShown m v known plain laid

  metric_updates-AllShown :
      (m : Metric)
      → Member m catalog
      → Laid m
      → AllShown layout (metric_updates later values (Overlay.id_offset right) m)
  unfolding AllShown metric_updates Overlay.push_update
  metric_updates-AllShown m known laid =
      let title =
        Laid-Shows m _ laid (λ gap. title_HasLabel now area (Overlay.id_offset right) gap m) in
      let value =
        Laid-Shows m _ laid (λ gap. value_HasLabel now area (Overlay.id_offset right) gap m) in
      elim (Bool-cases m.date_time) [
        | inl clock ↦ rw clock ((title, tt), ((value, tt), tt))
        | inr plain ↦
            rw plain (found_updates-AllShown m (find_value m.name values) known plain laid)
      ]

  area_updates-AllShown :
      (ms : List Metric)
      → All (λ m. Member m catalog) ms
      → All Laid ms
      → AllShown layout (Overlay.area_updates later values (Overlay.id_offset right) ms)
  unfolding AllShown Overlay.area_updates
  area_updates-AllShown [] known laid = tt
  area_updates-AllShown (m ∷ ms) known laid =
      All-append _ (metric_updates later values (Overlay.id_offset right) m) _
        (metric_updates-AllShown m known.0 laid.0) (area_updates-AllShown ms known.1 laid.1)

non_empty-some :
    (updates us : List OverlayGroupUpdate) → Overlay.non_empty updates ≡ some us → updates ≡ us
unfolding Overlay.non_empty
non_empty-some [] us h = absurd (ground (arith, h))
non_empty-some (u ∷ updates) us h = ground (arith, h)

All-when :
    {A : Type 0} (P : A → Type 0) (b : Bool) (xs : List A)
    → (b ≡ true → All P xs)
    → All P (if b then xs else [])
All-when P true xs h = h refl
All-when P false xs h = tt

Member_when :
    {A : Type 0} {a : A} {xs : List A} (b : Bool)
    → b ≡ true
    → Member a xs
    → Member a (if b then xs else [])
Member_when true e h = h
Member_when false e h = absurd (ground (arith, e))

-- The updates of an area, in a layout that holds what the area appends to it.
selected-AllShown :
    (now later : Moment) (overlay : OverlayConfig) (area : OverlayArea) (right : Bool)
    (values : List MetricValue) (layout : List OverlayGroup)
    → ((g : OverlayGroup) → Member g (append_area now overlay area right) → Member g layout)
    → AllShown layout (Overlay.area_updates later values (Overlay.id_offset right) (selected area))
selected-AllShown now later overlay area right values layout inside =
    area_updates-AllShown now later overlay area right values layout (selected area)
      ((selected-IsSelection area).known)
      (All-Member _ (selected area) (λ m h.
        let (k, found) = append_area-Member now overlay area right m h in
        (length (selected area), k, inside _ found)))

-- Every update of a batch names a group and a label of the layout for the same selection, at
-- whatever times the two are made.
pub metric_batch-AllShown :
    (now later : Moment) (overlay : OverlayConfig) (values : List MetricValue)
    (updates : List OverlayGroupUpdate)
    → metric_batch later overlay values ≡ some updates
    → AllShown (run_config now overlay) updates
unfolding metric_batch run_config AllShown Overlay.id_offset
metric_batch-AllShown now later overlay values updates h =
    let layout = run_config now overlay in
    let left =
      selected-AllShown now later overlay overlay.left false values layout
        (λ g m. Member-append_left _ m) in
    let right = λ (dual : overlay.dual ≡ true).
      selected-AllShown now later overlay overlay.right true values layout (λ g m.
        Member-append_right (append_area now overlay overlay.left false)
          (Member_when overlay.dual dual m)) in
    rw (sym (non_empty-some _ updates h)) (
      All-append _ (Overlay.area_updates later values 0 (selected overlay.left)) _ left (
        All-when _ overlay.dual (Overlay.area_updates later values 100 (selected overlay.right))
          right))
