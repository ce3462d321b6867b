-- ===== src/Kanali/Overlay.antt =====
-- The overlay of crates/tryx-kanali/src/overlay.rs: its labels, their layout, and the batches that
-- update them. What the clock and the time zone give is an argument.
mod Selected
mod Batch
mod Distinct
mod Tests
pub mod Clock
use Prim.Native.String.{String}
use tryxctl.Prelude.{
  ℕ, zero, suc, ◌+◌, ◌-◌, ◌*◌, ◌/◌, Bool, true, false, ◌&&◌, ◌||◌, not, Option, none, some, List,
  [], ◌∷◌, ◌++◌, ltb, leb, ◌==◌, if◌then◌else◌, length, Bytes, equal,
}
use tryxctl.Prelude.Text.{codes, format, trim, equal_ignoring_case, contains, to_lowercase}
use tryxctl.Kanali.Wire.{OverlayLabel, OverlayGroup, OverlayGroupUpdate}

pub record OverlayArea : Type 0 where
  pub metrics : List Bytes
  pub badges : List Bytes
  pub alignment : Bytes
  pub text_color : ℕ
  pub vertical_placement : Bytes

pub record OverlayConfig : Type 0 where
  pub left : OverlayArea
  pub right : OverlayArea
  pub dual : Bool
  pub waterfall : Bool
  pub cpu_badge : Bytes
  pub gpu_badge : Bytes

pub record MetricValue : Type 0 where
  pub name : Bytes
  pub value : Bytes
  pub unit : Bytes

pub record Metric : Type 0 where
  pub name : Bytes
  pub title : Bytes
  pub unit : Bytes
  pub group : ℕ
  pub title_id : ℕ
  pub value_id : ℕ
  pub unit_id : ℕ
  pub date_time : Bool

abbrev row : String → String → String → ℕ → ℕ → ℕ → ℕ → Bool → Metric
row name title unit group title_id value_id unit_id date_time = record {
  name = codes name;
  title = codes title;
  unit = codes unit;
  group = group;
  title_id = title_id;
  value_id = value_id;
  unit_id = unit_id;
  date_time = date_time;
}

-- `METRICS`
abbrev pub catalog : List Metric
catalog =
    row "CPU Temperature" "CPU TEMP" "°C" 100 101 102 103 false
    ∷ row "CPU Frequency" "CPU Frequency" "MHZ" 101 104 105 106 false
    ∷ row "CPU Usage" "CPU Usage" "%" 102 107 108 109 false
    ∷ row "CPU Power" "CPU Power" "W" 103 110 111 112 false
    ∷ row "GPU Temperature" "GPU TEMP" "°C" 104 113 114 115 false
    ∷ row "GPU Frequency" "GPU Frequency" "MHZ" 105 116 117 118 false
    ∷ row "GPU Usage" "GPU Usage" "%" 106 119 120 121 false
    ∷ row "GPU Power" "GPU Power" "W" 107 122 123 124 false
    ∷ row "Memory Frequency" "Memory Frequency" "MHZ" 108 125 126 127 false
    ∷ row "Memory Usage" "Memory Usage" "%" 109 128 129 130 false
    ∷ row "Date&Time" "" "" 110 131 132 0 true
    ∷ []

-- A `sint32` as protobuf writes it.
abbrev sint_pos : ℕ → ℕ
sint_pos n = 2 * n

abbrev sint_neg : ℕ → ℕ
sint_neg n = 2 * n - 1

abbrev screen_width : ℕ
screen_width = 2240

abbrev screen_height : ℕ
screen_height = 1080

abbrev font : Bytes
font = codes "roboto-regular"

pub find_metric : Bytes → List Metric → Option Metric
find_metric name [] = none
find_metric name (m ∷ ms) = if equal m.name name then some m else find_metric name ms

unfoldable pub has_name : Bytes → List Metric → Bool
has_name name [] = false
has_name name (m ∷ ms) = equal m.name name || has_name name ms

-- A metric that was found is added, if it is not there yet.
pub add_found : Option Metric → List Metric → List Metric
add_found none out = out
add_found (some m) out = if has_name m.name out then out else out ++ (m ∷ [])

-- One name of the area.
pub add_metric : Bytes → List Metric → List Metric
add_metric name out = add_found (find_metric (trim name) catalog) out

-- The loop stops at the third metric.
pub select_loop : List Bytes → List Metric → List Metric
select_loop [] out = out
select_loop (name ∷ names) out =
    let more = add_metric name out in
    let rest = select_loop names more in if length more == 3 then more else rest

pub selected : OverlayArea → List Metric
selected area = select_loop area.metrics []

-- The number of the enum `TextAlignment`.
pub alignment : Bytes → ℕ
alignment text =
    if equal_ignoring_case text (codes "Center")
    then 2
    else if equal_ignoring_case text (codes "Right")
    then 3
    else 1

pub label : ℕ → ℕ → ℕ → ℕ → ℕ → Bytes → OverlayLabel
label id line gap_left size color text = record {
  label_id = id;
  line = line;
  order = 0;
  gap_left = sint_pos gap_left;
  background = 0;
  background_color = 0;
  gradient_color = 0;
  text_font = font;
  text_size = size;
  text_color = color;
  text = text;
}

pub badge_colors : Bytes → ℕ × ℕ
badge_colors text =
    let lowered = to_lowercase text in
    if contains lowered (codes "nvidia")
    then (0x00629A00, 0x0079AB51)
    else if contains lowered (codes "intel")
    then (0x000068B5, 0x00566D98)
    else if contains lowered (codes "amd")
        || contains lowered (codes "radeon")
        || contains lowered (codes "ryzen")
    then (0x00A92F2C, 0x00CB6236)
    else (0x004A4A4A, 0x00707070)

pub badge : ℕ → ℕ → Bytes → OverlayLabel
badge id gap_left text =
    let (background, gradient) = badge_colors text in
    record {
      label_id = id;
      line = 0;
      order = 0;
      gap_left = sint_pos gap_left;
      background = 3;
      background_color = background;
      gradient_color = gradient;
      text_font = font;
      text_size = 30;
      text_color = 0x00DCDCDC;
      text = format (codes "  " ∷ text ∷ codes "  " ∷ []);
    }

-- The date and the time as the panel shows them.
pub record Moment : Type 0 where
  pub date : Bytes
  pub time : Bytes

area_count : OverlayConfig → ℕ
area_count overlay = if overlay.dual then 2 else 1

area_x : OverlayConfig → Bool → ℕ
unfolding area_count
area_x overlay right = if right then screen_width / area_count overlay + 60 else 60

id_offset : Bool → ℕ
id_offset right = if right then 100 else 0

is_bottom : OverlayArea → Bool
is_bottom area = equal_ignoring_case area.vertical_placement (codes "Bottom")

-- What the waterfall mode adds to a vertical position: the lower half of the turned screen.
lower_half : OverlayConfig → OverlayArea → Bool → ℕ
unfolding is_bottom
lower_half overlay area right =
    let half = screen_width / 2 in
    if overlay.waterfall
    then (if overlay.dual then (if right then 0 else half) else if is_bottom area then half else 0)
    else 0

-- In the waterfall mode, the right one of two areas stands at the left edge.
group_x : OverlayConfig → Bool → ℕ
unfolding area_x
group_x overlay right =
    if overlay.waterfall && overlay.dual && right then 60 else area_x overlay right

-- The differences are taken at the end, where the source takes the maximum with 0.
group_y : OverlayConfig → OverlayArea → Bool → ℕ → ℕ → ℕ
unfolding lower_half
group_y overlay area right count index =
    let row =
      if count == 1
      then screen_height / 2
      else screen_height / (count + 1) * (index + 1) + index * 10 in
    row + lower_half overlay area right - 80 - 20

-- The labels of a group: the date and the time, or the title, the value and the unit of a metric.
group_labels : Moment → OverlayArea → ℕ → ℕ → Metric → List OverlayLabel
unfolding label
group_labels now area offset title_gap metric =
    let title_id = metric.title_id + offset in
    let value_id = metric.value_id + offset in
    let unit_id = if metric.unit_id == 0 then 0 else metric.unit_id + offset in
    if metric.date_time
    then (label title_id 1 title_gap 30 area.text_color now.date
        ∷ label value_id 0 0 160 area.text_color now.time
        ∷ [])
    else (label title_id 1 title_gap 30 area.text_color metric.title
        ∷ label value_id 0 0 160 area.text_color (codes "--")
        ∷ label unit_id 0 0 36 area.text_color metric.unit
        ∷ [])

pub metric_group : Moment → OverlayConfig → OverlayArea → Bool → ℕ → ℕ → Metric → OverlayGroup
unfolding area_count group_x group_y group_labels alignment id_offset
metric_group now overlay area right count index metric =
    let align = alignment area.alignment in
    let title_gap = if align == 1 then 13 else 0 in
    record {
      group_id = metric.group + id_offset right;
      group_x = group_x overlay right;
      group_y = group_y overlay area right count index;
      group_width =
          if overlay.waterfall
          then screen_width / 2 - 120 - 50
          else screen_width / area_count overlay - 120;
      group_height = 160;
      text_align = align;
      line_gap = sint_neg 10;
      labels = group_labels now area (id_offset right) title_gap metric;
    }

metric_groups :
    Moment → OverlayConfig → OverlayArea → Bool → ℕ → ℕ → List Metric → List OverlayGroup
metric_groups now overlay area right count index [] = []
metric_groups now overlay area right count index (m ∷ ms) =
    metric_group now overlay area right count index m
    ∷ metric_groups now overlay area right count (index + 1) ms

is_cpu_badge : Bytes → Bool
is_cpu_badge item =
    equal_ignoring_case item (codes "CPU Badge") || equal_ignoring_case item (codes "cpu")

is_gpu_badge : Bytes → Bool
is_gpu_badge item =
    equal_ignoring_case item (codes "GPU Badge") || equal_ignoring_case item (codes "gpu")

text_or : Bytes → Bytes → Bytes
text_or [] default = default
text_or (c ∷ cs) default = c ∷ cs

-- The recognised badges, `index` of them so far.
badge_labels : OverlayConfig → ℕ → ℕ → List Bytes → List OverlayLabel
unfolding is_cpu_badge is_gpu_badge text_or badge
badge_labels overlay base index [] = []
badge_labels overlay base index (item ∷ items) =
    let cpu = is_cpu_badge item in
    let text =
      if cpu
      then text_or overlay.cpu_badge (codes "CPU")
      else text_or overlay.gpu_badge (codes "GPU") in
    let one = badge (base + (if cpu then 1 else 2)) (if ltb 0 index then 10 else 0) text in
    let kept = cpu || is_gpu_badge item in
    (if kept then one ∷ [] else [])
    ++ badge_labels overlay base (if kept then index + 1 else index) items

pub badge_group : OverlayConfig → OverlayArea → Bool → OverlayGroup
unfolding area_count area_x lower_half badge_labels alignment
badge_group overlay area right =
    let base = if right then 400 else 300 in
    record {
      group_id = base;
      group_x =
          (if overlay.waterfall && overlay.dual && right then 60 else area_x overlay right) + 10;
      group_y = 70 + lower_half overlay area right;
      group_width =
          if overlay.waterfall
          then screen_width / 2 - 120 - 30
          else screen_width / area_count overlay - 120;
      group_height = 0;
      text_align = alignment area.alignment;
      line_gap = sint_pos 1;
      labels = badge_labels overlay base 0 area.badges;
    }

is_nil : {A : Type 0} → List A → Bool
is_nil [] = true
is_nil (x ∷ xs) = false

-- What is appended to the layout. An area without metrics has no metric groups, and the badge group
-- is there even if no badge is recognised.
pub append_area : Moment → OverlayConfig → OverlayArea → Bool → List OverlayGroup
unfolding is_nil metric_groups
append_area now overlay area right =
    let chosen = selected area in
    let groups = metric_groups now overlay area right (length chosen) 0 chosen in
    let badges = if is_nil area.badges then [] else badge_group overlay area right ∷ [] in
    if is_nil area.metrics && is_nil area.badges then [] else groups ++ badges

pub run_config : Moment → OverlayConfig → List OverlayGroup
run_config now overlay =
    append_area now overlay overlay.left false
    ++ (if overlay.dual then append_area now overlay overlay.right true else [])

push_update : ℕ → ℕ → Bytes → OverlayGroupUpdate
push_update group label_id text = record { group_id = group; label_texts = (label_id, text) ∷ [] }

pub find_value : Bytes → List MetricValue → Option MetricValue
find_value name [] = none
find_value name (v ∷ vs) =
    if equal v.name name && not (equal v.value []) then some v else find_value name vs

-- Only the temperature groups carry a unit update.
value_updates : ℕ → Metric → MetricValue → List OverlayGroupUpdate
unfolding push_update text_or
value_updates offset metric v =
    let group = metric.group + offset in
    push_update group (metric.value_id + offset) v.value
    ∷ (if metric.group == 100 || metric.group == 104
        then push_update group (metric.unit_id + offset) (text_or v.unit metric.unit) ∷ []
        else [])

found_updates : ℕ → Metric → Option MetricValue → List OverlayGroupUpdate
unfolding value_updates
found_updates offset metric none = []
found_updates offset metric (some v) = value_updates offset metric v

pub metric_updates : Moment → List MetricValue → ℕ → Metric → List OverlayGroupUpdate
unfolding push_update found_updates
metric_updates now values offset metric =
    let group = metric.group + offset in
    if metric.date_time
    then (push_update group (metric.title_id + offset) now.date
        ∷ push_update group (metric.value_id + offset) now.time
        ∷ [])
    else found_updates offset metric (find_value metric.name values)

area_updates : Moment → List MetricValue → ℕ → List Metric → List OverlayGroupUpdate
area_updates now values offset [] = []
area_updates now values offset (m ∷ ms) =
    metric_updates now values offset m ++ area_updates now values offset ms

non_empty : List OverlayGroupUpdate → Option (List OverlayGroupUpdate)
non_empty [] = none
non_empty (u ∷ us) = some (u ∷ us)

pub metric_batch : Moment → OverlayConfig → List MetricValue → Option (List OverlayGroupUpdate)
unfolding area_updates non_empty
metric_batch now overlay values = non_empty (
    area_updates now values 0 (selected overlay.left)
    ++ (if overlay.dual then area_updates now values 100 (selected overlay.right) else []))
