-- ===== src/Legacy/Client/Runs.antt =====
-- The steps that an operation of the client takes on its channel, in order.
use tryxctl.Prelude.{
  ℕ, ◌≡◌, refl, ap, sym, ◌∙◌, List, [], ◌∷◌, ◌++◌, append_assoc, min, Bytes, Result, ok, err,
}
use tryxctl.Prelude.Text.{codes}
use tryxctl.Tool.{ScreenConfig}
use tryxctl.Legacy.{LegacyError}
use tryxctl.Legacy.Frame.{Response}
use tryxctl.Legacy.Commands.{
  Json, screen_config, waterfall_mode, rotate, sysinfo_display, full_config,
}
use tryxctl.Legacy.Client
use tryxctl.Legacy.Client.{
  Channel, Action, resume, pause, set_screen_config, set_rotation, set_sysinfo_display,
  send_full_config, screen_config_repeat_delay,
}

-- A request that is answered, one that is not waited for, or a pause.
pub data Step : Type 0 where
  asked told : Bytes → Bytes → Bytes → Step
  paused : ℕ → Step

module _ (channel : Channel) (to_string : Json → Bytes) where
  open channel use {State, request_with, send_with, sleep}

  -- Steps that were all taken, with success.
  pub data Ran : List Step → State → State → Type 0 where
    idle : {s : State} → Ran [] s s
    by_request :
        {method command content : Bytes} {steps : List Step} {s t u : State}
        (response : Response Json)
        → request_with method command content s ≡ (ok response, t)
        → Ran steps t u
        → Ran (asked method command content ∷ steps) s u
    by_send :
        {method command content : Bytes} {steps : List Step} {s t u : State}
        → send_with method command content s ≡ (ok tt, t)
        → Ran steps t u
        → Ran (told method command content ∷ steps) s u
    by_pause :
        {ms : ℕ} {steps : List Step} {s u : State}
        → Ran steps (sleep ms s) u
        → Ran (paused ms ∷ steps) s u

  -- A step that gave an error.
  pub data Fails : Step → State → LegacyError → State → Type 0 where
    at_request :
        {method command content : Bytes} {s t : State} {e : LegacyError}
        → request_with method command content s ≡ (err e, t)
        → Fails (asked method command content) s e t
    at_send :
        {method command content : Bytes} {s t : State} {e : LegacyError}
        → send_with method command content s ≡ (err e, t)
        → Fails (told method command content) s e t

  -- All steps of a plan were taken, or, if there was an error, the first ones, and then the one that
  -- gave the error.
  pub Follows : {A : Type 0} → List Step → State → Result LegacyError A → State → Type 0
  Follows plan s (ok a) t = Ran plan s t
  Follows plan s (err e) t =
      (done : List Step) × (step : Step) × (rest : List Step) × (between : State) × (done
          ++ (step ∷ rest)
        ≡ plan)
      × Ran done s between
      × Fails step between e t

  abbrev pub Conforms : {A : Type 0} → List Step → Action channel to_string A → Type 0
  Conforms plan act = (s : State) → Follows plan s (act s).0 (act s).1

  Ran-append : (a b : List Step) {s t u : State} → Ran a s t → Ran b t u → Ran (a ++ b) s u
  Ran-append [] b idle k = k
  Ran-append (_ ∷ a) b (by_request r e h) k = by_request r e (Ran-append a b h k)
  Ran-append (_ ∷ a) b (by_send e h) k = by_send e (Ran-append a b h k)
  Ran-append (_ ∷ a) b (by_pause h) k = by_pause (Ran-append a b h k)

  Follows-append :
      {A : Type 0} (p q : List Step) {s t : State} (r : Result LegacyError A) (u : State)
      → Ran p s t
      → Follows q t r u
      → Follows (p ++ q) s r u
  unfolding Follows
  Follows-append p q (ok a) u h k = Ran-append p q h k
  Follows-append p q (err e) u h (done, step, rest, between, split, ran, fails) = (
    p ++ done,
    step,
    rest,
    between,
    append_assoc p done (step ∷ rest) ∙ ap (λ (xs : List Step). p ++ xs) split,
    Ran-append p done h ran,
    fails,
  )

  resume-Follows :
      {A B : Type 0} (p q : List Step) (k : A → Action channel to_string B) (s : State)
      (r : Result LegacyError A) (t : State)
      → Follows p s r t
      → ((a : A) → Conforms q (k a))
      → Follows
          (p ++ q)
          s
          (resume channel to_string k (r, t)).0
          (resume channel to_string k (r, t)).1
  unfolding Follows resume
  resume-Follows p q k s (ok a) t h c = Follows-append p q (k a t).0 (k a t).1 h (c a t)
  resume-Follows p q k s (err e) t (done, step, rest, between, split, ran, fails) c = (
    done,
    step,
    rest ++ q,
    between,
    sym (append_assoc done (step ∷ rest) q) ∙ ap (λ (xs : List Step). xs ++ q) split,
    ran,
    fails,
  )

  -- One action after another takes the steps of both.
  pub bind-Conforms :
      {A B : Type 0} (p q : List Step) (act : Action channel to_string A)
      (k : A → Action channel to_string B)
      → Conforms p act
      → ((a : A) → Conforms q (k a))
      → Conforms (p ++ q) (λ s. resume channel to_string k (act s))
  bind-Conforms p q act k h c s = resume-Follows p q k s (act s).0 (act s).1 (h s) c

  one_request :
      (method command content : Bytes) (s : State) (r : Result LegacyError (Response Json))
      (t : State)
      → request_with method command content s ≡ (r, t)
      → Follows (asked method command content ∷ []) s r t
  unfolding Follows
  one_request m c x s (ok response) t h = by_request response h idle
  one_request m c x s (err e) t h = ([], asked m c x, [], s, refl, idle, at_request h)

  pub request-Conforms :
      (method command content : Bytes)
      → Conforms (asked method command content ∷ []) (request_with method command content)
  request-Conforms m c x s =
      one_request m c x s (request_with m c x s).0 (request_with m c x s).1 refl

  one_send :
      (method command content : Bytes) (s : State) (r : Result LegacyError (Unit {0})) (t : State)
      → send_with method command content s ≡ (r, t)
      → Follows (told method command content ∷ []) s r t
  unfolding Follows
  one_send m c x s (ok _) t h = by_send h idle
  one_send m c x s (err e) t h = ([], told m c x, [], s, refl, idle, at_send h)

  pub send-Conforms :
      (method command content : Bytes)
      → Conforms (told method command content ∷ []) (send_with method command content)
  send-Conforms m c x s = one_send m c x s (send_with m c x s).0 (send_with m c x s).1 refl

  pub pause-Conforms : (ms : ℕ) → Conforms (paused ms ∷ []) (pause channel to_string ms)
  unfolding Follows pause
  pause-Conforms ms s = by_pause idle

  pub return-Conforms : {A : Type 0} (a : A) → Conforms [] (Client.return channel to_string a)
  unfolding Follows
  return-Conforms a s = idle

  -- The steps of `set_screen_config`.
  pub screen_plan : ScreenConfig → List Step
  screen_plan config =
      let shown =
        asked (codes "POST") (codes "waterBlockScreenId") (to_string (screen_config config)) in
      shown
      ∷ paused screen_config_repeat_delay
      ∷ shown
      ∷ paused screen_config_repeat_delay
      ∷ asked (codes "POST") (codes "waterfallMode")
          (to_string (waterfall_mode config.waterfall_mode))
      ∷ []

  pub set_screen_config-Conforms :
      (config : ScreenConfig)
      → Conforms (screen_plan config) (set_screen_config channel to_string config)
  unfolding set_screen_config screen_plan Client.set_waterfall_mode
  set_screen_config-Conforms config = bind-Conforms (_ ∷ []) _ _ _ (request-Conforms _ _ _) (λ _.
      bind-Conforms (_ ∷ []) _ _ _ (pause-Conforms _) (λ _.
        bind-Conforms (_ ∷ []) _ _ _ (request-Conforms _ _ _) (λ response.
          bind-Conforms (_ ∷ []) _ _ _ (pause-Conforms _) (λ _.
            bind-Conforms (_ ∷ []) [] _ _ (request-Conforms _ _ _)
              (λ _. return-Conforms response)))))

  pub set_rotation-Conforms :
      (degrees : ℕ)
      → Conforms
          (asked (codes "POST") (codes "rotate") (to_string (rotate degrees)) ∷ [])
          (set_rotation channel to_string degrees)
  unfolding set_rotation
  set_rotation-Conforms degrees = request-Conforms _ _ _

  pub set_sysinfo_display-Conforms :
      (labels : List Bytes)
      → Conforms
          (told (codes "POST") (codes "sysinfoDisplay") (to_string (sysinfo_display labels)) ∷ [])
          (set_sysinfo_display channel to_string labels)
  unfolding set_sysinfo_display
  set_sysinfo_display-Conforms labels = send-Conforms _ _ _

  pub send_full_config-Conforms :
      (config : ScreenConfig) (cpu gpu : Bytes) (level : ℕ) (unit : Bytes)
      → Conforms
          (asked
              (codes "POST")
              (codes "config")
              (to_string (full_config config cpu gpu (min level 100) unit))
            ∷ [])
          (send_full_config channel to_string config cpu gpu level unit)
  unfolding send_full_config
  send_full_config-Conforms config cpu gpu level unit = request-Conforms _ _ _
