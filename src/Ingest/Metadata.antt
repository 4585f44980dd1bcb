-- ===== src/Ingest/Metadata.antt =====
-- An empty metadata map is hashed (core/payload.go) but not stored (`omitempty` of spec/event.go).
use stonewrit.Prelude.{
  ◌≡◌, ◌↔◌, refl, sym, ap, ◌∙◌, true, false, [], ◌∷◌, ◌++◌, some, none, str_eq, str_eq_iff, inl,
  inr,
}
use stonewrit.Prelude.Errors.{ok, err, Result-cases}
use stonewrit.Json.{JsonLib, end}
use stonewrit.Spec.{EventInput}
use stonewrit.Spec.Encode.{stored_metadata, reread}
use stonewrit.Core.Hash.{payload_hash}
use stonewrit.Core.Payload.{build_content_payload}
use stonewrit.Db.{PendingEvent}
use stonewrit.VerifyService.{Answer, pending_content, pending_answer, verify_pending}
use stonewrit.VerifyService.Sound.{answer_of, pending_verifies}
use stonewrit.Ingest.{World, State, AcceptInput, AcceptResult, content_of, accept}
use stonewrit.Ingest.Stored.{Prepared, prepare-Prepared, accept-Outcome}
use stonewrit.Ingest.Verifies.{IsCanonical, envelope, ok-injective, fresh-stored}

-- the same request without the map
abbrev pub without_metadata : AcceptInput → AcceptInput
without_metadata i = record i { event = record i.event { metadata = none } }

reread-none : (e : EventInput) → e.metadata ≡ some end → reread e ≡ record e { metadata = none }
unfolding reread stored_metadata
reread-none e h = ap (λ m. record e { metadata = m }) (rw h refl)

module _ (lib : JsonLib) where
  stored_content :
      (w : World) (i : AcceptInput) (p : PendingEvent)
      → Prepared lib w i p
      → IsCanonical w i
      → i.event.metadata ≡ some end
      → pending_content p (envelope w i) ≡ content_of w (without_metadata i)
  unfolding content_of pending_content
  stored_content w i p q c empty = cc (
    q.organization,
    ok-injective (sym c.project ∙ q.project),
    ok-injective (sym c.environment ∙ q.environment),
    reread-none i.event empty,
  )

  -- a pending row that verifies has the payload hash of its stored content
  verified-hash :
      (w : World) (i : AcceptInput) (p : PendingEvent) (a : Answer)
      → Prepared lib w i p
      → verify_pending lib p ≡ ok a
      → a.valid ≡ true
      → payload_hash lib (build_content_payload (pending_content p (envelope w i)))
        ≡ ok p.payload_hash
  unfolding pending_answer
  verified-hash w i p a q h v =
      let content = payload_hash lib (build_content_payload (pending_content p (envelope w i))) in
      elim (Result-cases content) [
        | inl (x, e) ↦
            let failed : err x ≡ ok a =
              sym (answer_of lib p (envelope w i) (err x) e q.event_data) ∙ h in
            cc
        | inr (hash, e) ↦
            let answered : ok (pending_answer lib p hash) ≡ ok a =
              sym (answer_of lib p (envelope w i) (ok hash) e q.event_data) ∙ h in
            let same : pending_answer lib p hash ≡ a = cc in
            let equal : str_eq hash p.payload_hash ≡ true = ap (λ (x : Answer). x.valid) same ∙ v in
            e ∙ ap ok ((str_eq_iff hash p.payload_hash).0 equal)
      ]

  -- An event that was freshly accepted with an empty metadata map, for canonical project and environment
  -- ids, is stored as one new pending row, which verifies exactly when its content has the same payload
  -- hash with the empty map and without metadata.
  pub empty_metadata_iff :
      (w : World) (i : AcceptInput) (s : State) (r : AcceptResult) (s' : State)
      → accept lib w i s ≡ (ok r, s')
      → r.cached ≡ false
      → i.event.metadata ≡ some end
      → IsCanonical w i
      → (p : PendingEvent) × (s'.pending ≡ (s.pending ++ p ∷ []))
        × (((a : Answer) × (verify_pending lib p ≡ ok a) × (a.valid ≡ true)) ↔ (
            payload_hash lib (build_content_payload (content_of w i))
            ≡ payload_hash lib (build_content_payload (content_of w (without_metadata i)))))
  empty_metadata_iff w i s r s' h fresh empty c =
      let (p, ready, o) = accept-Outcome lib w i s r s' h in
      let q = prepare-Prepared lib w s i p ready in
      let content = stored_content w i p q c empty in
      let stored = ap (λ z. payload_hash lib (build_content_payload z)) content in
      (
        p,
        (fresh-stored w i p s r s' fresh o).0,
        (
          λ v. let (a, e, t) = v in q.hash ∙ sym (verified-hash w i p a q e t) ∙ stored,
          λ same. pending_verifies lib p (envelope w i) q.event_data (stored ∙ sym same ∙ q.hash),
        ),
      )
