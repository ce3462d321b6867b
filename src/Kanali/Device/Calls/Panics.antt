-- ===== src/Kanali/Device/Calls/Panics.antt =====
-- No call of `Device` reaches its `unreachable!`, and the transfer loop ends.
use Prim.Native.String.{String}
use tryxctl.Prelude.{
  ℕ, zero, suc, ◌+◌, ◌-◌, ◌%◌, ◌^◌, ◌≡◌, ◌≢◌, ◌≤◌, ◌<◌, refl, sym, ap, ◌∙◌, Bool, true, false,
  Option, none, some, List, [], ◌∷◌, length, drop, Result, ok, err, Bytes, length-drop, arith,
  Option-cases, inl, inr,
}
use tryxctl.Prelude.Text.{codes}
use tryxctl.Device.Product.{Product, capabilities}
use tryxctl.Kanali.Wire.{RequestBody, ResponseBody}
use tryxctl.Kanali.Errors.{Outcome, done, failed, stuck, KanaliError}
use tryxctl.Kanali.Session.{Expect, normal, file_transmit, matches, matches_body}
use tryxctl.Kanali.Device.{chunk_size, require, check_transfer}
use tryxctl.Kanali.Device.Calls
use tryxctl.Kanali.Device.Calls.{Link, request_of}

module _ (link : Link) (product : Product) where
  abbrev Ends : {A : Type 0} → Outcome A × link.State → Type 0
  Ends o = o.0 ≢ stuck

  continue-Ends :
      {A B : Type 0} (f : A → Calls.Exec link product B) (o : Outcome A) (s : link.State)
      → o ≢ stuck
      → ((a : A) → o ≡ done a → Ends (f a s))
      → Ends (Calls.continue link product f o s)
  continue-Ends f (done a) s h k = k a refl
  continue-Ends f (failed e) s h k = λ e. cc
  continue-Ends f stuck s h k = absurd (h refl)

  of_result-Ends : {A : Type 0} (r : Result KanaliError A) → Calls.of_result link product r ≢ stuck
  of_result-Ends (ok a) = λ e. cc
  of_result-Ends (err x) = λ e. cc

  catalog_body-Ends :
      (body : Option ResponseBody)
      → matches Expect.media_catalog body ≡ true
      → Calls.catalog_body body ≢ stuck
  unfolding Calls.catalog_body matches matches_body
  catalog_body-Ends none h = absurd (ground (arith, h))
  catalog_body-Ends (some b) h = λ e. ground (arith, h, e)

  configuration_body-Ends :
      (body : Option ResponseBody)
      → matches Expect.user_configuration body ≡ true
      → Calls.configuration_body body ≢ stuck
  unfolding Calls.configuration_body matches matches_body
  configuration_body-Ends none h = absurd (ground (arith, h))
  configuration_body-Ends (some b) h = λ e. ground (arith, h, e)

  -- The catalog is read without a panic: a reply that came back has a catalog for its body.
  pub catalog-Ends : (s : link.State) → Ends (Calls.catalog link product s)
  unfolding Calls.catalog
  catalog-Ends s =
      let query = request_of (RequestBody.media_catalog_query (codes "NA")) in
      let sent = link.execute query Expect.media_catalog normal none s in
      continue-Ends _
        (Calls.of_result link product
          (require ((capabilities product).media_catalog) "the media catalog"))
        s (of_result-Ends (require ((capabilities product).media_catalog) "the media catalog"))
        (λ u e.
          continue-Ends _ (sent.0) (sent.1)
            (link.execute_ends query Expect.media_catalog normal none s)
            (λ r got.
              continue-Ends _ (Calls.catalog_body r.body) (sent.1)
                (catalog_body-Ends r.body
                  (link.execute_matches query Expect.media_catalog normal none s r got))
                (λ c q. λ x. cc)))

  user_configuration-Ends : (s : link.State) → Ends (Calls.user_configuration link product s)
  unfolding Calls.user_configuration
  user_configuration-Ends s =
      let query = request_of (RequestBody.user_configuration_query (codes "NA")) in
      let sent = link.execute query Expect.user_configuration normal none s in
      continue-Ends _ (sent.0) (sent.1)
        (link.execute_ends query Expect.user_configuration normal none s)
        (λ r got.
          configuration_body-Ends r.body
            (link.execute_matches query Expect.user_configuration normal none s r got))

  -- The display state is read without a panic.
  pub display_state-Ends : (s : link.State) → Ends (Calls.display_state link product s)
  unfolding Calls.display_state Calls.state_or_error
  display_state-Ends s =
      let config = Calls.user_configuration link product s in
      continue-Ends _
        (Calls.of_result link product
          (require ((capabilities product).display_configuration) "display configuration"))
        s
        (of_result-Ends
          (require ((capabilities product).display_configuration) "display configuration"))
        (λ u e.
          continue-Ends _ (config.0) (config.1) (user_configuration-Ends s)
            (λ c q. λ x. ground (arith, x)))

  transmit-Ends :
      (body : RequestBody) (e : Expect) (what : String) (s : link.State)
      → Ends (Calls.transmit link product body e what s)
  unfolding Calls.transmit
  transmit-Ends body e what s =
      let track = Calls.transfer_track link product in
      let sent = link.execute (request_of body) e file_transmit track s in
      continue-Ends _ (sent.0) (sent.1)
        (link.execute_ends (request_of body) e file_transmit track s)
        (λ r q. of_result-Ends (check_transfer r what))

  upload_loop-Ends :
      (fuel : ℕ) (file : Bytes) (s : link.State)
      → length file ≤ fuel
      → Ends (Calls.upload_loop link product fuel file s)
  unfolding Calls.upload_loop
  upload_loop-Ends fuel [] s h = λ e. cc
  upload_loop-Ends zero (b ∷ file) s h = absurd (omega arith)
  upload_loop-Ends (suc fuel) (b ∷ file) s h =
      let body = RequestBody.transfer_chunk (tryxctl.Prelude.take chunk_size (b ∷ file)) in
      let sent = Calls.transmit link product body Expect.transfer_chunk_status "transfer_chunk" s in
      continue-Ends _ (sent.0) (sent.1)
        (transmit-Ends body Expect.transfer_chunk_status "transfer_chunk" s)
        (λ u e.
          upload_loop-Ends fuel (drop chunk_size (b ∷ file)) (sent.1)
            (omega (arith, length-drop chunk_size (b ∷ file))))

  -- An upload ends, with success or an error, whatever the size of the file.
  pub upload-Ends :
      (file name : Bytes) (s : link.State) → Ends (Calls.upload link product file name s)
  unfolding Calls.upload
  upload-Ends file name s =
      let begin =
        Calls.transmit link product (RequestBody.transfer_begin name (length file % 2 ^ 32))
          Expect.transfer_begin_status "transfer_begin" s in
      let loop = Calls.upload_loop link product (length file) file (begin.1) in
      let supported = require ((capabilities product).media_upload) "media upload" in
      let checked = Calls.check_upload link product file name in
      continue-Ends _ (Calls.of_result link product supported) s (of_result-Ends supported) (λ u e.
        continue-Ends _ (Calls.of_result link product checked) s (of_result-Ends checked) (λ u1 e1.
          continue-Ends _ (begin.0) (begin.1) (transmit-Ends _ _ _ s) (λ u2 e2.
            continue-Ends _ (loop.0) (loop.1)
              (upload_loop-Ends (length file) file (begin.1) (omega arith))
              (λ u3 e3. transmit-Ends _ _ _ (loop.1)))))
