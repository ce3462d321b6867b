-- ===== src/Kanali/Device/Calls.antt =====
-- The methods of `Device` over a session, which is an interface here.
mod Uploads
mod Panics
mod Readback
mod Linked
mod Tests
use Prim.Native.String.{String}
use tryxctl.Prelude.{
  ℕ, zero, suc, ◌+◌, ◌-◌, ◌*◌, ◌%◌, ◌^◌, ◌≡◌, ◌≢◌, Bool, true, false, ◌&&◌, ◌||◌, not, Option, none,
  some, List, [], ◌∷◌, ◌++◌, ltb, leb, ◌==◌, if◌then◌else◌, length, take, drop, Result, ok, err,
  Bytes,
}
use tryxctl.Prelude.Text.{codes}
use tryxctl.Device.Product.{
  Product, panorama_se, panorama, turris620, capabilities, idle_mode, IdleMode, overlay_layout,
  transfer_only, media_name_suffix,
}
use tryxctl.Kanali.Wire.{
  Request, RequestBody, Response, ResponseBody, UserConfiguration, DeviceInformation, OverlayGroup,
  MediaCatalog, OverlayGroupUpdate,
}
use tryxctl.Kanali.Overlay.{Moment, OverlayConfig, MetricValue, metric_batch}
use tryxctl.Kanali.Errors.{
  Outcome, done, failed, stuck, KanaliError, invalid, invalid_response, no_configuration, readback,
}
use tryxctl.Kanali.Session.{Expect, matches, Profile, normal, file_transmit, millis}
use tryxctl.Kanali.Device.{
  chunk_size, max_upload_bytes, turris_transfer_track_id, Catalog, catalog_from, DisplayState,
  Change, require, check_change, is_safe_device_name, write_media, write_display, state_from,
  mismatches, check_transfer,
}

-- The session as its client sees it, with what `Device` relies on: a tracked request ends, and a
-- reply that it returns has the body that was expected.
pub record Link : Type 1 where
  pub State : Type 0
  pub execute : Request → Expect → Profile → Option ℕ → State → Outcome Response × State
  pub write_only : Request → State → Outcome (Unit {0}) × State
  pub write_tracked_only : Request → State → Outcome ℕ × State
  pub drain : ℕ → State → ℕ × State
  pub bootstrap : State → Outcome DeviceInformation × State
  pub execute_ends :
      (r : Request) (e : Expect) (p : Profile) (track : Option ℕ) (s : State)
      → (execute r e p track s).0 ≢ stuck
  pub execute_matches :
      (r : Request) (e : Expect) (p : Profile) (track : Option ℕ) (s : State) (reply : Response)
      → (execute r e p track s).0 ≡ done reply
      → matches e reply.body ≡ true

abbrev pub request_of : RequestBody → Request
request_of body = record { header = none; body = some body }

-- `name.ends_with(suffix)`
pub ends_with : Bytes → Bytes → Bool
ends_with name suffix =
    leb (length suffix) (length name)
    && tryxctl.Prelude.equal (drop (length name - length suffix) name) suffix

-- The body of a reply, where any other body panics.
catalog_body : Option ResponseBody → Outcome MediaCatalog
catalog_body (some (ResponseBody.media_catalog catalog)) = done catalog
catalog_body _ = stuck

configuration_body : Option ResponseBody → Outcome UserConfiguration
configuration_body (some (ResponseBody.user_configuration config)) = done config
configuration_body _ = stuck

is_transfer_only : IdleMode → Bool
is_transfer_only transfer_only = true
is_transfer_only overlay_layout = false

is_turris : Product → Bool
is_turris turris620 = true
is_turris _ = false

module _ (link : Link) (product : Product) where
  open link use {State, execute, write_only, write_tracked_only, drain, bootstrap}

  abbrev pub Exec : Type 0 → Type 0
  Exec A = State → Outcome A × State

  abbrev pub continue : {A B : Type 0} → (A → Exec B) → Outcome A → Exec B
  continue f (done a) s = f a s
  continue f (failed e) s = (failed e, s)
  continue f stuck s = (stuck, s)

  infixl 5 ◌>>=◌ ◌>>◌
  abbrev pub ◌>>=◌ : {A B : Type 0} → Exec A → (A → Exec B) → Exec B
  ◌>>=◌ m f s = continue f (m s).0 (m s).1

  abbrev pub ◌>>◌ : {B : Type 0} → Exec (Unit {0}) → Exec B → Exec B
  m >> k = m >>= λ _. k

  abbrev pub return : {A : Type 0} → A → Exec A
  return a s = (done a, s)

  abbrev pub of_result : {A : Type 0} → Result KanaliError A → Outcome A
  of_result (ok a) = done a
  of_result (err e) = failed e

  abbrev pub lift : {A : Type 0} → Result KanaliError A → Exec A
  lift r s = (of_result r, s)

  pub start_session : Exec DeviceInformation
  start_session = do
    lift (require ((capabilities product).media_catalog) "a display session")
    bootstrap

  pub catalog : Exec Catalog
  unfolding catalog_body
  catalog = do
    lift (require ((capabilities product).media_catalog) "the media catalog")
    response ←
        execute (request_of (RequestBody.media_catalog_query (codes "NA"))) Expect.media_catalog
          normal none
    entries ← λ s. (catalog_body (response.body), s)
    return (catalog_from entries)

  pub user_configuration : Exec UserConfiguration
  unfolding configuration_body
  user_configuration = do
    response ←
        execute (request_of (RequestBody.user_configuration_query (codes "NA")))
          Expect.user_configuration normal none
    λ s. (configuration_body (response.body), s)

  state_or_error : Option DisplayState → Outcome DisplayState
  state_or_error none = failed (invalid_response "user_configuration_query" no_configuration)
  state_or_error (some state) = done state

  pub display_state : Exec DisplayState
  unfolding state_or_error
  display_state = do
    lift (require ((capabilities product).display_configuration) "display configuration")
    config ← user_configuration
    λ s. (state_or_error (state_from config), s)

  -- The overlay is the layout made from it; without one it is empty.
  pub activate : Option (List OverlayGroup) → Exec (Unit {0})
  activate overlay = do
    track ←
        write_tracked_only
          (request_of (RequestBody.overlay_layout (elim overlay [ none ↦ [] | some l ↦ l ])))
    return tt

  -- The state read back, unless it differs from the change.
  accepted : DisplayState → List String → Outcome DisplayState
  accepted state [] = done state
  accepted state (m ∷ ms) = failed (invalid_response "user_configuration" (readback (m ∷ ms)))

  pub apply : Change → Option (List OverlayGroup) → Exec DisplayState
  unfolding accepted
  apply change overlay = do
    lift (require ((capabilities product).display_configuration) "display configuration")
    lift (check_change change)
    config ← user_configuration
    config ← lift (write_media change config)
    response ←
        execute (request_of (RequestBody.user_configuration (write_display change config)))
          Expect.acknowledgement normal none
    activate overlay
    state ← display_state
    λ s. (accepted state (mismatches change state), s)

  abbrev only_brightness : ℕ → Change
  only_brightness brightness = record {
    media = none;
    split_screen = false;
    play_mode = none;
    brightness = some brightness;
    backlight = none;
    waterfall = none;
    rotation = none;
  }

  pub set_brightness : ℕ → Exec DisplayState
  set_brightness brightness = apply (only_brightness brightness) none

  pub configure_overlay : List OverlayGroup → Exec (Unit {0})
  configure_overlay overlay = do
    lift (require ((capabilities product).overlay_metrics) "overlay metrics")
    activate (some overlay)

  send_batch : Option (List OverlayGroupUpdate) → Exec (Unit {0})
  send_batch none = return tt
  send_batch (some batch) = write_only (request_of (RequestBody.metric_batch batch))

  -- The values of the overlay's labels at a moment; nothing is sent when there are none.
  pub send_metrics : Moment → OverlayConfig → List MetricValue → Exec (Unit {0})
  unfolding send_batch
  send_metrics now overlay values = do
    lift (require ((capabilities product).overlay_metrics) "overlay metrics")
    send_batch (metric_batch now overlay values)

  drain_unit : ℕ → Exec (Unit {0})
  drain_unit window s = (done tt, (drain window s).1)

  keepalive_request : RequestBody → Request
  keepalive_request body = record {
    header = some (record { version = 0; track_id = 0; payload_crc32 = 0 });
    body = some body;
  }

  pub keepalive : Option (List OverlayGroup) → Exec (Unit {0})
  unfolding drain_unit keepalive_request is_transfer_only
  keepalive overlay = if is_transfer_only (idle_mode product) then return tt else (do
    write_only (keepalive_request (RequestBody.ping (codes "hello?")))
    write_only
        (keepalive_request (RequestBody.overlay_layout (elim overlay [ none ↦ [] | some l ↦ l ])))
    drain_unit (millis 100))

  pub remote_name : Bytes → Bytes
  remote_name local_name = local_name ++ media_name_suffix product

  pub transfer_track : Option ℕ
  unfolding is_turris
  transfer_track = if is_turris product then some turris_transfer_track_id else none

  -- One request of a transfer, acknowledged.
  pub transmit : RequestBody → Expect → String → Exec (Unit {0})
  transmit body expected what = do
    response ← execute (request_of body) expected file_transmit transfer_track
    lift (check_transfer response what)

  -- The chunks of what is left of the file, one for each unit of fuel.
  pub upload_loop : ℕ → Bytes → Exec (Unit {0})
  upload_loop fuel [] s = (done tt, s)
  upload_loop zero (b ∷ file) s = (stuck, s)
  upload_loop (suc fuel) (b ∷ file) s =
      (do
        transmit (RequestBody.transfer_chunk (take chunk_size (b ∷ file)))
            Expect.transfer_chunk_status "transfer_chunk"
        upload_loop fuel (drop chunk_size (b ∷ file)))
        s

  -- The file is its bytes; a failure to read it, and the progress reported, are left out.
  pub check_upload : Bytes → Bytes → Result KanaliError (Unit {0})
  check_upload file name =
      if not (is_safe_device_name name) || not (ends_with name (media_name_suffix product))
      then err (invalid "remote name must use the device charset and end with the suffix")
      else if length file == 0 || ltb max_upload_bytes (length file) || leb (2 ^ 32) (length file)
      then err (invalid "outside the accepted upload size")
      else ok tt

  pub upload : Bytes → Bytes → Exec (Unit {0})
  upload file name = do
    lift (require ((capabilities product).media_upload) "media upload")
    lift (check_upload file name)
    transmit (RequestBody.transfer_begin name (length file % 2 ^ 32)) Expect.transfer_begin_status
        "transfer_begin"
    upload_loop (length file) file
    transmit (RequestBody.transfer_end (codes "media") 0) Expect.transfer_end_status "transfer_end"

  pub delete : Bytes → Exec (Unit {0})
  delete name = do
    lift (require ((capabilities product).media_catalog) "media deletion")
    response ←
        execute (request_of (RequestBody.file_removal name (codes "media"))) Expect.acknowledgement
          normal none
    return tt
