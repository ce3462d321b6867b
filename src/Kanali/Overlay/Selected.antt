-- ===== src/Kanali/Overlay/Selected.antt =====
-- The metrics that an area selects.
use tryxctl.Prelude.{
  ◌≡◌, ◌≤◌, ◌<◌, refl, false, ◌||◌, Option, none, some, List, [], ◌∷◌, ◌++◌, ◌==◌, length,
  length-append, All, All-append, Member, here, there, Bytes, equal, Bool-cases, inl, inr, arith,
}
use tryxctl.Prelude.Text.{trim}
use tryxctl.Kanali.Overlay.{
  Metric, OverlayArea, catalog, find_metric, has_name, add_found, add_metric, select_loop, selected,
}

find_metric_sound :
    (name : Bytes) (ms : List Metric) (m : Metric) → find_metric name ms ≡ some m → Member m ms
unfolding find_metric
find_metric_sound name [] m h = absurd (ground (arith, h))
find_metric_sound name (x ∷ ms) m h = elim (Bool-cases (equal x.name name)) [
  | inl same ↦ let e : x ≡ m = ground (arith, h, same) in rw e here
  | inr other ↦ there (find_metric_sound name ms m (rw other at h))
]

-- No name stands twice in the list.
unfoldable pub Distinct : List Metric → Type 0
Distinct [] = Unit
Distinct (m ∷ ms) = (has_name m.name ms ≡ false) × Distinct ms

equal_comm : (a b : Bytes) → equal a b ≡ equal b a
unfolding equal
equal_comm [] [] = refl
equal_comm [] (y ∷ b) = refl
equal_comm (x ∷ a) [] = refl
equal_comm (x ∷ a) (y ∷ b) = ground (arith, equal_comm a b)

has_name-append :
    (name : Bytes) (ms : List Metric) (m : Metric)
    → has_name name (ms ++ (m ∷ [])) ≡ (has_name name ms || equal m.name name)
unfolding has_name
has_name-append name [] m = ground arith
has_name-append name (x ∷ ms) m = ground (arith, has_name-append name ms m)

Distinct-append :
    (ms : List Metric) (m : Metric)
    → has_name m.name ms ≡ false
    → Distinct ms
    → Distinct (ms ++ (m ∷ []))
unfolding Distinct has_name
Distinct-append [] m h d = (refl, tt)
Distinct-append (x ∷ ms) m h d = (
  ground (arith, has_name-append x.name ms m, equal_comm m.name x.name, h, d.0),
  Distinct-append ms m (ground (arith, h)) d.1,
)

-- A selection: metrics of the catalog under different names, three at most.
pub record IsSelection (ms : List Metric) : Type 0 where
  pub known : All (λ m. Member m catalog) ms
  pub distinct : Distinct ms
  pub few : length ms ≤ 3

add_found-IsSelection :
    (found : Option Metric) (out : List Metric)
    → ((m : Metric) → found ≡ some m → Member m catalog)
    → IsSelection out
    → length out < 3
    → IsSelection (add_found found out)
unfolding add_found
add_found-IsSelection none out k s h = s
add_found-IsSelection (some m) out k s h = elim (Bool-cases (has_name m.name out)) [
  | inl present ↦ rw present s
  | inr fresh ↦ rw fresh (record {
    known = All-append _ out (m ∷ []) s.known (k m refl, tt);
    distinct = Distinct-append out m fresh s.distinct;
    few = rw (length-append out (m ∷ [])) (omega arith);
  })
]

add_metric-IsSelection :
    (name : Bytes) (out : List Metric)
    → IsSelection out
    → length out < 3
    → IsSelection (add_metric name out)
unfolding add_metric
add_metric-IsSelection name out s h =
    add_found-IsSelection (find_metric (trim name) catalog) out
      (find_metric_sound (trim name) catalog) s h

select_loop-IsSelection :
    (names : List Bytes) (out : List Metric)
    → IsSelection out
    → length out < 3
    → IsSelection (select_loop names out)
unfolding select_loop
select_loop-IsSelection [] out s h = s
select_loop-IsSelection (name ∷ names) out s h =
    let added = add_metric-IsSelection name out s h in
    elim (Bool-cases (length (add_metric name out) == 3)) [
      | inl full ↦ rw full added
      | inr open_yet ↦ rw open_yet (
          select_loop-IsSelection names (add_metric name out) added
            (ground (arith, open_yet, added.few)))
    ]

-- An area selects metrics of the catalog only, each once and three at most, whatever names it lists.
pub selected-IsSelection : (area : OverlayArea) → IsSelection (selected area)
unfolding selected Distinct
selected-IsSelection area =
    select_loop-IsSelection area.metrics []
      (record { known = tt; distinct = tt; few = omega arith }) (omega arith)
