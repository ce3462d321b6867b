-- ===== src/Kanali/Overlay/Tests.antt =====
-- The overlay at a concrete selection.
use tryxctl.Prelude.{ℕ, ◌≡◌, refl, true, Option, some, List, [], ◌∷◌, Bytes}
use tryxctl.Prelude.Text.{codes}
use tryxctl.Kanali.Wire.{OverlayGroupUpdate}
use tryxctl.Kanali.Overlay
use tryxctl.Kanali.Overlay.{
  OverlayArea, OverlayConfig, MetricValue, Moment, selected, run_config, metric_batch,
}
use tryxctl.Kanali.Overlay.Selected.{selected-IsSelection, IsSelection}
use tryxctl.Kanali.Overlay.Batch.{metric_batch-AllShown, AllShown}
use tryxctl.Kanali.Overlay.Distinct.{run_config-NoTwice, NoTwice}
use tryxctl.Kanali.Overlay.Clock.{civil_of}
use tryxctl.Kanali.Overlay.Clock.Calendar.{civil_of-IsDateOf, IsDateOf}

-- One name is unknown and one is listed twice.
abbrev panel : OverlayConfig
panel =
    let left : OverlayArea = record {
      metrics =
          codes "CPU Temperature"
          ∷ codes "Bogus"
          ∷ codes " CPU Temperature"
          ∷ codes "Date&Time"
          ∷ [];
      badges = codes "CPU Badge" ∷ [];
      alignment = codes "center";
      text_color = 0x00FFFFFF;
      vertical_placement = codes "Bottom";
    } in
    let right : OverlayArea = record {
      metrics = codes "GPU Usage" ∷ [];
      badges = [];
      alignment = [];
      text_color = 0;
      vertical_placement = [];
    } in
    record {
      left = left;
      right = right;
      dual = true;
      waterfall = true;
      cpu_badge = codes "AMD Ryzen 7";
      gpu_badge = [];
    }

abbrev morning : Moment
morning = record { date = codes "01/02/2026"; time = codes "08:00" }

abbrev evening : Moment
evening = record { date = codes "01/02/2026"; time = codes "20:00" }

abbrev measured : List MetricValue
measured =
    record { name = codes "CPU Temperature"; value = codes "61"; unit = [] }
    ∷ record { name = codes "GPU Usage"; value = codes "7"; unit = codes "%" }
    ∷ []

abbrev update : ℕ → ℕ → Bytes → OverlayGroupUpdate
update group label text = record { group_id = group; label_texts = (label, text) ∷ [] }

abbrev updates : List OverlayGroupUpdate
updates =
    update 100 102 (codes "61")
    ∷ update 100 103 (codes "°C")
    ∷ update 110 131 (codes "01/02/2026")
    ∷ update 110 132 (codes "20:00")
    ∷ update 206 220 (codes "7")
    ∷ []

measured_batch : metric_batch evening panel measured ≡ some updates
unfolding metric_batch selected Overlay.select_loop Overlay.add_metric Overlay.add_found
    Overlay.find_metric tryxctl.Prelude.equal tryxctl.Prelude.Text.trim
    tryxctl.Prelude.Text.trim_end tryxctl.Prelude.Text.trim_start tryxctl.Prelude.Text.is_whitespace
    tryxctl.Prelude.Text.keep_unless_blank Overlay.has_name Overlay.metric_updates
    Overlay.find_value
measured_batch = refl

selected-IsSelection_example : IsSelection (selected panel.left)
selected-IsSelection_example = selected-IsSelection panel.left

run_config-NoTwice_example : NoTwice (run_config morning panel)
run_config-NoTwice_example = run_config-NoTwice morning panel

metric_batch-AllShown_example : AllShown (run_config morning panel) updates
metric_batch-AllShown_example =
    metric_batch-AllShown morning evening panel measured updates measured_batch

civil_of-IsDateOf_example : IsDateOf 740251 (civil_of 740251)
civil_of-IsDateOf_example = civil_of-IsDateOf 740251
