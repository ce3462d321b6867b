-- ===== src/Kanali/Overlay/Distinct.antt =====
-- The ids of the groups of a layout.
use tryxctl.Prelude.{
  ℕ, ◌+◌, ◌-◌, ◌%◌, ◌≡◌, ◌≢◌, ◌≤◌, ◌<◌, refl, sym, ap, ◌∙◌, Bool, true, false, ◌&&◌, some, List, [],
  ◌∷◌, ◌++◌, length, get_elem?, All, All-append, All-Member, Member, here, there, Member-All, Bytes,
  equal_iff, Bool-cases, inl, inr, arith,
}
use tryxctl.Kanali.Wire.{OverlayGroup}
use tryxctl.Kanali.Overlay
use tryxctl.Kanali.Overlay.{
  OverlayArea, OverlayConfig, Metric, Moment, catalog, has_name, selected, metric_group,
  badge_group, append_area, run_config,
}
use tryxctl.Kanali.Overlay.Selected.{Distinct, selected-IsSelection}

-- No number stands twice.
pub NoTwice : List OverlayGroup → Type 0
NoTwice [] = Unit
NoTwice (g ∷ gs) = All (λ (h : OverlayGroup). h.group_id ≢ g.group_id) gs × NoTwice gs

-- Ids in a range.
Within : ℕ → ℕ → OverlayGroup → Type 0
Within low high g = (low ≤ g.group_id) × (g.group_id ≤ high)

NoTwice-append :
    (xs ys : List OverlayGroup)
    → NoTwice xs
    → NoTwice ys
    → All (λ (x : OverlayGroup). All (λ (y : OverlayGroup). y.group_id ≢ x.group_id) ys) xs
    → NoTwice (xs ++ ys)
unfolding NoTwice
NoTwice-append [] ys hx hy apart = hy
NoTwice-append (x ∷ xs) ys hx hy apart =
    (All-append _ xs ys hx.0 apart.0, NoTwice-append xs ys hx.1 hy apart.1)

-- Ranges that do not meet keep lists apart.
ranges_apart :
    (l h l' h' : ℕ) (xs ys : List OverlayGroup)
    → h < l'
    → All (Within l h) xs
    → All (Within l' h') ys
    → All (λ (x : OverlayGroup). All (λ (y : OverlayGroup). y.group_id ≢ x.group_id) ys) xs
unfolding Within
ranges_apart l h l' h' xs ys gap hx hy = All-Member _ xs (λ x mx. All-Member _ ys (λ y my.
    let bx = Member-All (Within l h) mx hx in
    let by = Member-All (Within l' h') my hy in λ e. omega (arith, bx.1, by.0, e)))

-- The catalog lists its groups in order from 100 on.
group_index : (m : Metric) → Member m catalog → get_elem? catalog (m.group - 100) ≡ some m
group_index m known =
    Member-All (λ (m : Metric). get_elem? catalog (m.group - 100) ≡ some m) known
      ((refl, (refl, (refl, (refl, (refl, (refl, (refl, (refl, (refl, (refl, (refl, tt))))))))))))

group_bounds : (m : Metric) → Member m catalog → (100 ≤ m.group) × (m.group ≤ 110)
group_bounds m known =
    Member-All (λ (m : Metric). (100 ≤ m.group) × (m.group ≤ 110)) known (ground arith)

fresh_name :
    (name : Bytes) {m : Metric} {ms : List Metric}
    → has_name name ms ≡ false
    → Member m ms
    → m.name ≢ name
unfolding has_name
fresh_name name h here = λ e. ground (arith, h, e, equal_iff name name)
fresh_name name h (there k) = fresh_name name (ground (arith, h)) k

fresh_tail :
    (name : Bytes) (m : Metric) (ms : List Metric)
    → has_name name (m ∷ ms) ≡ false
    → has_name name ms ≡ false
unfolding has_name
fresh_tail name m ms h = ground (arith, h)

module _ (now : Moment) (overlay : OverlayConfig) (area : OverlayArea) (right : Bool)
    (count : ℕ) where
  metric_groups-Within :
      (index : ℕ) (ms : List Metric)
      → All (λ m. Member m catalog) ms
      → All
          (Within (100 + Overlay.id_offset right) (110 + Overlay.id_offset right))
          (Overlay.metric_groups now overlay area right count index ms)
  unfolding Overlay.metric_groups Within metric_group
  metric_groups-Within index [] known = tt
  metric_groups-Within index (m ∷ ms) known =
      let bounds = group_bounds m known.0 in
      (
        (omega (arith, bounds.0), omega (arith, bounds.1)),
        metric_groups-Within (index + 1) ms known.1,
      )

  groups_apart :
      (index : ℕ) (m : Metric) (ms : List Metric)
      → Member m catalog
      → All (λ m. Member m catalog) ms
      → has_name m.name ms ≡ false
      → All
          (λ (g : OverlayGroup). g.group_id ≢ m.group + Overlay.id_offset right)
          (Overlay.metric_groups now overlay area right count index ms)
  unfolding Overlay.metric_groups metric_group
  groups_apart index m [] known others fresh = tt
  groups_apart index m (x ∷ ms) known others fresh = (
    (λ e.
        let same : x.group ≡ m.group = omega (arith, e) in
        let one : some x ≡ some m =
          sym (group_index x others.0)
          ∙ ap (λ n. get_elem? catalog (n - 100)) same
          ∙ group_index m known in
        fresh_name m.name fresh here (ground (arith, one))),
    groups_apart (index + 1) m ms known others.1 (fresh_tail m.name x ms fresh),
  )

  metric_groups-NoTwice :
      (index : ℕ) (ms : List Metric)
      → All (λ m. Member m catalog) ms
      → Distinct ms
      → NoTwice (Overlay.metric_groups now overlay area right count index ms)
  unfolding Overlay.metric_groups NoTwice Distinct metric_group Overlay.id_offset
  metric_groups-NoTwice index [] known distinct = tt
  metric_groups-NoTwice index (m ∷ ms) known distinct = (
    groups_apart (index + 1) m ms known.0 known.1 distinct.0,
    metric_groups-NoTwice (index + 1) ms known.1 distinct.1,
  )

-- The ids of the left area are 100 to 110 and 300, those of the right area 200 to 210 and 400.
OfSide : Bool → OverlayGroup → Type 0
OfSide false g = 100 ≤ g.group_id % 200
OfSide true g = g.group_id % 200 < 100

groups-OfSide :
    (right : Bool) (g : OverlayGroup)
    → Within (100 + Overlay.id_offset right) (110 + Overlay.id_offset right) g
    → OfSide right g
unfolding OfSide Within Overlay.id_offset
groups-OfSide false g h = omega (arith, h.0, h.1)
groups-OfSide true g h = omega (arith, h.0, h.1)

badge_group-OfSide :
    (overlay : OverlayConfig) (area : OverlayArea) (right : Bool)
    → OfSide right (badge_group overlay area right)
      × Within (110 + Overlay.id_offset right + 1) 400 (badge_group overlay area right)
unfolding OfSide Within Overlay.id_offset badge_group
badge_group-OfSide overlay area false = omega arith
badge_group-OfSide overlay area true = omega arith

-- Both lists of groups that an area may append.
All-groups-ids :
    (now : Moment) (overlay : OverlayConfig) (area : OverlayArea) (right : Bool)
    (badges : List OverlayGroup)
    → NoTwice badges
    → All (OfSide right) badges
    → All (Within (110 + Overlay.id_offset right + 1) 400) badges
    → NoTwice (
        Overlay.metric_groups now overlay area right (length (selected area)) 0 (selected area)
        ++ badges)
      × All (OfSide right) (
          Overlay.metric_groups now overlay area right (length (selected area)) 0 (selected area)
          ++ badges)
All-groups-ids now overlay area right badges once side range =
    let s = selected-IsSelection area in
    let groups =
      Overlay.metric_groups now overlay area right (length (selected area)) 0 (selected area) in
    let near =
      metric_groups-Within now overlay area right (length (selected area)) 0 (selected area)
        s.known in
    (
      NoTwice-append groups badges
          (metric_groups-NoTwice now overlay area right (length (selected area)) 0 (selected area)
            s.known s.distinct)
          once
          (ranges_apart (100 + Overlay.id_offset right) (110 + Overlay.id_offset right)
            (110 + Overlay.id_offset right + 1) 400 groups badges (omega arith) near range),
      All-append _ groups badges
          (All-Member _ groups (λ g m. groups-OfSide right g (Member-All _ m near))) side,
    )

append_area-ids :
    (now : Moment) (overlay : OverlayConfig) (area : OverlayArea) (right : Bool)
    → NoTwice (append_area now overlay area right)
      × All (OfSide right) (append_area now overlay area right)
unfolding append_area NoTwice
append_area-ids now overlay area right =
    elim (Bool-cases (Overlay.is_nil area.metrics && Overlay.is_nil area.badges)) [
      | inl bare ↦ rw bare (tt, tt)
      | inr full ↦ rw full (elim (Bool-cases (Overlay.is_nil area.badges)) [
        | inl plain ↦ rw plain (All-groups-ids now overlay area right [] tt tt tt)
        | inr badged ↦
            let (side, range) = badge_group-OfSide overlay area right in
            rw badged (
              All-groups-ids now overlay area right (badge_group overlay area right ∷ []) (tt, tt)
                (side, tt) (range, tt))
      ])
    ]

-- The groups of a layout have different ids, whatever the selection and the badges.
pub run_config-NoTwice : (now : Moment) (overlay : OverlayConfig) → NoTwice (run_config now overlay)
unfolding run_config NoTwice OfSide
run_config-NoTwice now overlay =
    let (left, low) = append_area-ids now overlay overlay.left false in
    let (right, high) = append_area-ids now overlay overlay.right true in
    elim (Bool-cases overlay.dual) [
      | inl dual ↦ simp dual (
          NoTwice-append (append_area now overlay overlay.left false) _ left right (
            All-Member _ (append_area now overlay overlay.left false) (λ x mx.
              All-Member _ _ (λ y my.
                let bx = Member-All (OfSide false) mx low in
                let by = Member-All (OfSide true) my high in λ e. ground (arith, bx, by, e)))))
      | inr single ↦ simp single (
          NoTwice-append (append_area now overlay overlay.left false) [] left tt
            (All-Member _ (append_area now overlay overlay.left false) (λ x mx. tt)))
    ]
