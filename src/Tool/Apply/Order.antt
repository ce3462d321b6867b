-- ===== src/Tool/Apply/Order.antt =====
-- The order in which the saved screen configuration is sent.
use tryxctl.Prelude.{ℕ, ◌≡◌, refl, Option, none, some, List, [], ◌∷◌, ◌++◌, Bytes, min}
use tryxctl.Prelude.Text.{codes}
use tryxctl.Legacy.Frame.{Response}
use tryxctl.Legacy.Commands.{Json, full_config, sysinfo_display, rotate}
use tryxctl.Legacy.Client.{Channel}
use tryxctl.Legacy.Client.Runs.{
  Step, asked, told, Follows, Conforms, bind-Conforms, return-Conforms, set_rotation-Conforms,
  set_sysinfo_display-Conforms, send_full_config-Conforms, screen_plan, set_screen_config-Conforms,
}
use tryxctl.Tool.{DisplayState}
use tryxctl.Tool.Apply
use tryxctl.Tool.Apply.{default_brightness, hardware_names, apply_screen}

-- The state with these names of the processor and of the graphics card.
abbrev pub with_names : DisplayState → Bytes × Bytes → DisplayState
with_names saved (cpu, gpu) = record saved { cpu_name = some cpu; gpu_name = some gpu }

module _ (channel : Channel) (to_string : Json → Bytes) where
  rotation_plan : Option ℕ → List Step
  rotation_plan none = []
  rotation_plan (some degrees) =
      asked (codes "POST") (codes "rotate") (to_string (rotate degrees)) ∷ []

  -- The screen twice with the waterfall mode, the labels, the whole configuration, and then the
  -- rotation, if one is saved.
  pub apply_plan : DisplayState → Bytes × Bytes → List Step
  unfolding rotation_plan
  apply_plan saved (cpu, gpu) =
      screen_plan channel to_string saved.screen
      ++ (told (codes "POST") (codes "sysinfoDisplay")
            (to_string (sysinfo_display saved.screen.sysinfo_display))
          ∷ asked (codes "POST") (codes "config") (
              to_string (
                full_config saved.screen cpu gpu
                  (min (Apply.value_or default_brightness saved.brightness) 100)
                  (Apply.value_or (codes "Celsius") saved.temperature_unit)))
          ∷ rotation_plan saved.rotation)

  rotated-Conforms :
      (degrees : Option ℕ) (response : Response Json)
      → Conforms channel to_string
          (rotation_plan degrees)
          (Apply.rotated channel to_string degrees response)
  unfolding Apply.rotated rotation_plan
  rotated-Conforms none response = return-Conforms channel to_string response
  rotated-Conforms (some degrees) response =
      bind-Conforms channel to_string (_ ∷ []) [] _ _
        (set_rotation-Conforms channel to_string degrees)
        (λ _. return-Conforms channel to_string response)

  send_screen-Conforms :
      (saved : DisplayState) (names : Bytes × Bytes)
      → Conforms channel to_string
          (apply_plan saved names)
          (Apply.send_screen channel to_string saved names)
  unfolding Apply.send_screen apply_plan
  send_screen-Conforms saved (cpu, gpu) =
      bind-Conforms channel to_string (screen_plan channel to_string saved.screen) _ _ _
        (set_screen_config-Conforms channel to_string saved.screen)
        (λ _.
          bind-Conforms channel to_string (_ ∷ []) _ _ _
            (set_sysinfo_display-Conforms channel to_string saved.screen.sysinfo_display)
            (λ _.
              bind-Conforms channel to_string (_ ∷ []) _ _ _
                (send_full_config-Conforms channel to_string saved.screen cpu gpu _ _)
                (rotated-Conforms saved.rotation)))

  -- Applying a saved screen takes the steps of the plan on the channel, in its order: all of them
  -- with success if it succeeds, and otherwise those before the step that gave the error, and that
  -- step. The names in the plan are those of the state that is to be saved, which is otherwise the
  -- old one.
  pub apply_screen-Follows :
      (found_cpu found_gpu : Option Bytes) (saved : DisplayState) (s : channel.State)
      → Follows channel to_string
          (apply_plan saved (hardware_names found_cpu found_gpu saved).0)
          s
          (apply_screen channel to_string found_cpu found_gpu saved s).0
          (apply_screen channel to_string found_cpu found_gpu saved s).1
        × ((apply_screen channel to_string found_cpu found_gpu saved s).2
            ≡ with_names saved (hardware_names found_cpu found_gpu saved).0)
  unfolding apply_screen apply_plan hardware_names
  apply_screen-Follows found_cpu found_gpu saved s = (
    send_screen-Conforms (hardware_names found_cpu found_gpu saved).1
        (hardware_names found_cpu found_gpu saved).0 s,
    refl,
  )
