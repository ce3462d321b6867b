-- ===== src/Kanali/Device/Calls/Uploads.antt =====
-- What an upload sends.
use Prim.Native.String.{String}
use tryxctl.Prelude.{
  ℕ, zero, suc, ◌%◌, ◌^◌, ◌≡◌, ◌≤◌, ◌<◌, refl, sym, ap, ◌∙◌, Option, List, [], ◌∷◌, ◌++◌,
  append-nil, append_assoc, map, length, take, drop, Bytes, All, take-append-drop, length-take,
  arith,
}
use tryxctl.Prelude.Text.{codes, format}
use tryxctl.Device.Product.{Product, capabilities}
use tryxctl.Kanali.Wire.{Request, RequestBody}
use tryxctl.Kanali.Errors.{Outcome, done, failed, stuck}
use tryxctl.Kanali.Session.{Expect, Profile, file_transmit}
use tryxctl.Kanali.Device.{chunk_size, require, check_transfer}
use tryxctl.Kanali.Device.Calls
use tryxctl.Kanali.Device.Calls.{Link, request_of}

-- The pieces of a file, in order: none is empty or larger than a chunk, and together they are the file.
pub record Chunks (file : Bytes) (chunks : List Bytes) : Type 0 where
  pub whole : format chunks ≡ file
  pub sized : All (λ c. (0 < length c) × (length c ≤ chunk_size)) chunks

abbrev pub chunk_requests : List Bytes → List Request
chunk_requests chunks = map (λ c. request_of (RequestBody.transfer_chunk c)) chunks

chunk-Chunks :
    (b : ℕ) (file : Bytes) (chunks : List Bytes)
    → Chunks (drop chunk_size (b ∷ file)) chunks
    → Chunks (b ∷ file) (take chunk_size (b ∷ file) ∷ chunks)
chunk-Chunks b file chunks h = record {
  whole =
      ap (λ t. take chunk_size (b ∷ file) ++ t) h.whole ∙ take-append-drop chunk_size (b ∷ file);
  sized = (
    (
      rw (length-take chunk_size (b ∷ file)) (omega arith),
      rw (length-take chunk_size (b ∷ file)) (omega arith),
    ),
    h.sized,
  );
}

regroup :
    {A : Type 0} (a : List A) (x : A) (c e : List A)
    → ((a ++ (x ∷ [])) ++ c) ++ e ≡ a ++ (x ∷ (c ++ e))
regroup a x c e = append_assoc (a ++ (x ∷ [])) c e ∙ append_assoc a (x ∷ []) (c ++ e)

module _ (link : Link) (product : Product) (log : link.State → List Request)
    (logs : (r : Request) (e : Expect) (p : Profile) (track : Option ℕ) (s : link.State)
      → log ((link.execute r e p track s).1) ≡ log s ++ (r ∷ [])) where
  continue-done :
      {A B : Type 0} (f : A → Calls.Exec link product B) (o : Outcome A) (s t : link.State) (b : B)
      → Calls.continue link product f o s ≡ (done b, t)
      → (a : A) × (o ≡ done a) × (f a s ≡ (done b, t))
  continue-done f (done a) s t b h = (a, refl, h)
  continue-done f (failed e) s t b h = cc
  continue-done f stuck s t b h = cc

  -- What follows the reply keeps the session.
  continue-keeps :
      {A B : Type 0} (f : A → Outcome B) (o : Outcome A) (s : link.State)
      → (Calls.continue link product (λ a u. (f a, u)) o s).1 ≡ s
  continue-keeps f (done a) s = refl
  continue-keeps f (failed e) s = refl
  continue-keeps f stuck s = refl

  -- A request of the transfer is one request on the wire.
  transmit-logs :
      (body : RequestBody) (e : Expect) (what : String) (s : link.State)
      → log ((Calls.transmit link product body e what s).1) ≡ log s ++ (request_of body ∷ [])
  unfolding Calls.transmit
  transmit-logs body e what s =
      let track = Calls.transfer_track link product in
      let sent = link.execute (request_of body) e file_transmit track s in
      ap log (
        continue-keeps (λ r. Calls.of_result link product (check_transfer r what)) (sent.0)
          (sent.1))
      ∙ logs (request_of body) e file_transmit track s

  upload_loop-logs :
      (fuel : ℕ) (file : Bytes) (s t : link.State)
      → Calls.upload_loop link product fuel file s ≡ (done tt, t)
      → (chunks : List Bytes) × Chunks file chunks × (log t ≡ log s ++ chunk_requests chunks)
  unfolding Calls.upload_loop
  upload_loop-logs fuel [] s t h = (
    [],
    record { whole = refl; sized = tt },
    ap (λ (p : Outcome (Unit {0}) × link.State). log (p.1)) (sym h) ∙ sym (append-nil (log s)),
  )
  upload_loop-logs zero (b ∷ file) s t h = absurd (ground (arith, h))
  upload_loop-logs (suc fuel) (b ∷ file) s t h =
      let chunk = take chunk_size (b ∷ file) in
      let first =
        Calls.transmit link product (RequestBody.transfer_chunk chunk) Expect.transfer_chunk_status
          "transfer_chunk" s in
      let (_, sent, rest) =
        continue-done (λ _. Calls.upload_loop link product fuel (drop chunk_size (b ∷ file)))
          (first.0) (first.1) t tt h in
      let (chunks, pieces, logged) =
        upload_loop-logs fuel (drop chunk_size (b ∷ file)) (first.1) t rest in
      (
        chunk ∷ chunks,
        chunk-Chunks b file chunks pieces,
        logged
            ∙ ap (λ l. l ++ chunk_requests chunks)
                (transmit-logs (RequestBody.transfer_chunk chunk) Expect.transfer_chunk_status
                  "transfer_chunk" s)
            ∙ append_assoc (log s) _ _,
      )

  check_upload-size :
      (file name : Bytes) (s : link.State)
      → Calls.of_result link product (Calls.check_upload link product file name) ≡ done tt
      → length file % 2 ^ 32 ≡ length file
  unfolding Calls.check_upload
  check_upload-size file name s h = ground (arith, h)

  -- Over a session with a log of the requests that it executes, an upload that succeeds has sent
  -- the name and the size, the whole file in order, in chunks that are not empty and no larger
  -- than the chunk size, and the end, each as one request of its own.
  pub upload-sends :
      (file name : Bytes) (s t : link.State)
      → Calls.upload link product file name s ≡ (done tt, t)
      → (chunks : List Bytes) × Chunks file chunks
        × (log t
            ≡ log s
              ++ (request_of (RequestBody.transfer_begin name (length file)) ∷ chunk_requests chunks
                  ++ (request_of (RequestBody.transfer_end (codes "media") 0) ∷ [])))
  unfolding Calls.upload
  upload-sends file name s t h =
      let begin =
        Calls.transmit link product (RequestBody.transfer_begin name (length file % 2 ^ 32))
          Expect.transfer_begin_status "transfer_begin" in
      let loop = Calls.upload_loop link product (length file) file in
      let end =
        Calls.transmit link product (RequestBody.transfer_end (codes "media") 0)
          Expect.transfer_end_status "transfer_end" in
      let supported =
        Calls.of_result link product
          (require ((capabilities product).media_upload) "media upload") in
      let checked = Calls.of_result link product (Calls.check_upload link product file name) in
      let after_begin = λ (_ : Unit {0}). Calls.◌>>=◌ link product loop (λ _. end) in
      let after_check = λ (_ : Unit {0}). Calls.◌>>=◌ link product begin after_begin in
      let after_require =
        λ (_ : Unit {0}) (u : link.State). Calls.continue link product after_check checked u in
      let (_, _, h1) = continue-done after_require supported s t tt h in
      let (_, fits, h2) = continue-done after_check checked s t tt h1 in
      let first = begin s in
      let (_, _, h3) = continue-done after_begin (first.0) (first.1) t tt h2 in
      let middle = loop (first.1) in
      let (_, went, h4) = continue-done (λ _. end) (middle.0) (middle.1) t tt h3 in
      let (chunks, pieces, logged) =
        upload_loop-logs (length file) file (first.1) (middle.1) (ap (λ o. (o, middle.1)) went) in
      let begun : log (first.1)
          ≡ log s ++ (request_of (RequestBody.transfer_begin name (length file)) ∷ []) =
        transmit-logs _ Expect.transfer_begin_status "transfer_begin" s
        ∙ ap (λ n. log s ++ (request_of (RequestBody.transfer_begin name n) ∷ []))
            (check_upload-size file name s fits) in
      let ended : log t
          ≡ log (middle.1) ++ (request_of (RequestBody.transfer_end (codes "media") 0) ∷ []) =
        ap (λ (p : Outcome (Unit {0}) × link.State). log (p.1)) (sym h4)
        ∙ transmit-logs _ Expect.transfer_end_status "transfer_end" (middle.1) in
      let last = request_of (RequestBody.transfer_end (codes "media") 0) ∷ [] in
      (
        chunks,
        pieces,
        ended
            ∙ ap (λ l. l ++ last) (logged ∙ ap (λ l. l ++ chunk_requests chunks) begun)
            ∙ regroup (log s) _ _ _,
      )
