-- ===== src/Ingest/Verifies.antt =====
-- From the accept path to verification: an accepted event verifies while it is pending, and so does
-- the row that the sealer builds from it.
use stonewrit.Prelude.{
  ◌≡◌, ◌≢◌, refl, sym, ap, ◌∙◌, subst, true, false, [], ◌∷◌, ◌++◌, Option, none, some, Text,
}
use stonewrit.Prelude.Errors.{ok}
use stonewrit.Prelude.Int.{ℤ}
use stonewrit.Json.{JsonLib, Fields, end, field}
use stonewrit.Spec.{EventInput, AcceptedResponse}
use stonewrit.Spec.Encode.{stored_metadata, reread}
use stonewrit.Core.Hash.{payload_hash, event_hash}
use stonewrit.Core.HashTime.{truncate_ms}
use stonewrit.Core.Payload.{build_content_payload}
use stonewrit.Classify.{Classification}
use stonewrit.Db.{IdempotencyRow, PendingEvent, EventDataEnvelope}
use stonewrit.Sealer.Row.{build_event_row}
use stonewrit.VerifyService.{Answer, pending_content, verify_pending, verify_sealed}
use stonewrit.VerifyService.Sound.{IsLink, reread-stable, pending_verifies, sealed_verifies}
use stonewrit.Ingest.{
  World, State, AcceptInput, AcceptResult, parse_pg_uuid, content_of, accept, fresh_result,
  cached_result,
}
use stonewrit.Ingest.Stored.{Outcome, stored, replayed, Prepared, prepare-Prepared, accept-Outcome}

-- an event that has no empty metadata map is read back as it was stored
pub reread-same : (e : EventInput) → e.metadata ≢ some end → reread e ≡ e
unfolding reread
reread-same e h = ap (λ m. record e { metadata = m }) (same e.metadata h)
  where
    same : (m : Option Fields) → m ≢ some end → stored_metadata m ≡ m
    same none h = unfold stored_metadata in refl
    same (some end) h = absurd (h refl)
    same (some (field k v m)) h = unfold stored_metadata in refl

-- The ids of a request's scope are uuids in their canonical spelling, as the database returns them.
pub record IsCanonical (w : World) (i : AcceptInput) : Type 0 where
  pub project : parse_pg_uuid w.parse_uuid i.auth.project_id ≡ ok i.auth.project_id
  pub environment : parse_pg_uuid w.parse_uuid i.auth.environment_id ≡ ok i.auth.environment_id

fresh_result-payload_hash :
    (w : World) (i : AcceptInput) (p : PendingEvent)
    → (fresh_result w i p).body.payload_hash ≡ p.payload_hash
unfolding fresh_result
fresh_result-payload_hash w i p = refl

cached_result-cached : (row : IdempotencyRow AcceptedResponse) → (cached_result row).cached ≡ true
unfolding cached_result
cached_result-cached row = refl

true_ne_false : true ≢ false
true_ne_false h = cc

-- a fresh answer comes with a new pending row
pub fresh-stored :
    (w : World) (i : AcceptInput) (p : PendingEvent) (s : State) (r : AcceptResult) (s' : State)
    → r.cached ≡ false
    → Outcome w i p s r s'
    → (s'.pending ≡ (s.pending ++ p ∷ [])) × (r.body.payload_hash ≡ p.payload_hash)
fresh-stored w i p s r s' fresh (stored e table) =
    (table, ap (λ x. x.body.payload_hash) e ∙ fresh_result-payload_hash w i p)
fresh-stored w i p s r s' fresh (replayed row found e same) =
    absurd (true_ne_false (sym (ap (λ x. x.cached) e ∙ cached_result-cached row) ∙ fresh))

-- the envelope that accept stores
abbrev pub envelope : World → AcceptInput → EventDataEnvelope
envelope w i = record { received_at = truncate_ms w.now; input = reread i.event }

pub ok-injective : {x y : Text} → ok x ≡ ok y → x ≡ y
ok-injective h = cc

module _ (lib : JsonLib) where
  pub content_hash :
      (w : World) (i : AcceptInput) (p : PendingEvent) (input : EventInput)
      → Prepared lib w i p
      → IsCanonical w i
      → input ≡ i.event
      → payload_hash lib (
          build_content_payload
            (pending_content p (record { received_at = truncate_ms w.now; input = input })))
        ≡ ok p.payload_hash
  unfolding content_of pending_content
  content_hash w i p input q c same =
      subst (λ z. payload_hash lib (build_content_payload z) ≡ ok p.payload_hash) contents q.hash
    where
      contents :
          content_of w i
          ≡ pending_content p (record { received_at = truncate_ms w.now; input = input })
      contents = cc (
        q.organization,
        ok-injective (sym c.project ∙ q.project),
        ok-injective (sym c.environment ∙ q.environment),
        same,
      )

  -- An event that was freshly accepted, without an empty metadata map and for canonical project and
  -- environment ids, is stored as one new pending row with the payload hash of the receipt; that row
  -- verifies, and so does the row that the sealer builds from it at a linked position of a chain whose
  -- project is that of the request's key.
  pub accepted_verifies :
      (w : World) (i : AcceptInput) (s : State) (r : AcceptResult) (s' : State)
      (chain_id chain_project : Text) (position : ℤ) (prev : Text) (cl : Classification)
      → accept lib w i s ≡ (ok r, s')
      → r.cached ≡ false
      → i.event.metadata ≢ some end
      → IsCanonical w i
      → chain_project ≡ i.auth.project_id
      → IsLink position prev
      → (p : PendingEvent) × (a : Answer) × (s'.pending ≡ (s.pending ++ p ∷ []))
        × (r.body.payload_hash ≡ p.payload_hash)
        × (verify_pending lib p ≡ ok a)
        × (a.valid ≡ true)
        × ((verify_sealed lib (
              build_event_row p
                (envelope w i)
                chain_id
                chain_project
                position
                prev
                (event_hash prev p.payload_hash position)
                cl)).valid
            ≡ true)
  accepted_verifies w i s r s' chain_id chain_project position prev cl h fresh full c owner link =
      let (p, ready, o) = accept-Outcome lib w i s r s' h in
      let q = prepare-Prepared lib w s i p ready in
      let same = reread-same i.event full in
      let (a, e, v) =
        pending_verifies lib p (envelope w i) q.event_data
          (content_hash w i p (reread i.event) q c same) in
      let (table, hash) = fresh-stored w i p s r s' fresh o in
      (
        p,
        a,
        table,
        hash,
        e,
        v,
        subst
            (λ project.
              (verify_sealed lib (
                build_event_row p (envelope w i) chain_id project position prev
                  (event_hash prev p.payload_hash position) cl)).valid
              ≡ true)
            (ok-injective (sym q.project ∙ c.project) ∙ sym owner)
            (sealed_verifies lib p (envelope w i) chain_id position prev cl
              (content_hash w i p (reread (reread i.event)) q c (reread-stable i.event ∙ same))
              link),
      )
