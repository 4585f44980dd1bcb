-- ===== src/Ingest/Stored.antt =====
-- What a successful accept leaves behind.
use stonewrit.Prelude.{
  ◌≡◌, refl, inl, inr, Bool-cases, List, [], ◌∷◌, ◌++◌, some, Option-cases, Text, codes, subst,
  str_eq, arith,
}
use stonewrit.Prelude.Errors.{Result, ok, err, Result-cases, wrapping, ◌>>=◌}
use stonewrit.Json.{JsonLib}
use stonewrit.Spec.Encode.{reread}
use stonewrit.Core.Hash.{payload_hash}
use stonewrit.Core.HashTime.{truncate_ms}
use stonewrit.Core.Payload.{build_content_payload}
use stonewrit.Db.{PendingEvent, IdempotencyRow}
use stonewrit.Spec.{AcceptedResponse}
use stonewrit.Classify.MapControls.{Mapping}
use stonewrit.Ingest.Resolve.{resolve_against_catalog}
use stonewrit.Ingest.{
  resolve_controls, event_json, proposed_mappings, proposed, claim_row, World, State, AcceptInput,
  AcceptResult, parse_pg_uuid, content_of, prepare, pending_row, find_key, fresh_result,
  cached_result, insert, gate, admit, accept, insert_pending, claim_key, read_response,
  request_hash,
}

-- What a run that answers did: it stored one pending row and answered with it, or it answered with the
-- cached response and changed nothing.
pub data Outcome (w : World) (i : AcceptInput) (p : PendingEvent) (s : State) (r : AcceptResult)
    (s' : State) : Type 0 where
  stored : r ≡ fresh_result w i p → s'.pending ≡ (s.pending ++ p ∷ []) → Outcome w i p s r s'
  replayed :
      (row : IdempotencyRow AcceptedResponse)
      → find_key i.auth.organization_id i.idempotency_key s.idempotency ≡ some row
      → r ≡ cached_result row
      → s' ≡ s
      → Outcome w i p s r s'

insert-Outcome :
    (w : World) (i : AcceptInput) (p : PendingEvent) (s : State) (r : AcceptResult) (s' : State)
    → insert w i p s ≡ (ok r, s')
    → (r ≡ fresh_result w i p) × (s'.pending ≡ (s.pending ++ p ∷ []))
unfolding insert
insert-Outcome w i p s r s' h = elim (Option-cases (w.fails insert_pending)) [
  | inl e ↦ grind (arith, e, h)
  | inr (x, e) ↦ absurd (grind (arith, e, h))
]

-- inversion of the last four steps of `prepare`
located :
    (resolved : Result (List Mapping)) (marshalled project environment api_key : Result Text)
    (row : List Mapping → Text → Text → Text → PendingEvent) (p : PendingEvent)
    → (do
      rs ← wrapping (codes "resolve controls") resolved
      _ ← wrapping (codes "marshal event data") marshalled
      u ← wrapping (codes "parse project uuid") project
      v ← wrapping (codes "parse env uuid") environment
      k ← wrapping (codes "parse api key uuid") api_key
      ok (row rs u v k))
      ≡ ok p
    → (rs : List Mapping) × (u : Text) × (v : Text) × (k : Text) × (project ≡ ok u)
      × (environment ≡ ok v)
      × (row rs u v k ≡ p)
located (err x) m p e k row r h = cc
located (ok rs) (err x) p e k row r h = cc
located (ok rs) (ok m) (err x) e k row r h = cc
located (ok rs) (ok m) (ok u) (err x) k row r h = cc
located (ok rs) (ok m) (ok u) (ok v) (err x) row r h = cc
located (ok rs) (ok m) (ok u) (ok v) (ok k) row r h = (rs, u, v, k, refl, refl, cc)

-- what the row of a successful `prepare` says
pub record Prepared (lib : JsonLib) (w : World) (i : AcceptInput) (p : PendingEvent) : Type 0 where
  pub hash : payload_hash lib (build_content_payload (content_of w i)) ≡ ok p.payload_hash
  pub event_data :
      p.event_data ≡ some (record { received_at = truncate_ms w.now; input = reread i.event })
  pub organization : p.organization_id ≡ i.auth.organization_id
  pub project : parse_pg_uuid w.parse_uuid i.auth.project_id ≡ ok p.project_id
  pub environment : parse_pg_uuid w.parse_uuid i.auth.environment_id ≡ ok p.environment_id

module _ (lib : JsonLib) where
  pub prepare-Prepared :
      (w : World) (s : State) (i : AcceptInput) (p : PendingEvent)
      → prepare lib w s i ≡ ok p
      → Prepared lib w i p
  prepare-Prepared w s i p h =
      go (payload_hash lib (build_content_payload (content_of w i)))
        (proposed_mappings (proposed w i)) refl (unfold prepare in h)
    where
      go :
          (hash : Result Text) (mappings : Result (List Mapping))
          → payload_hash lib (build_content_payload (content_of w i)) ≡ hash
          → (do
            x ← wrapping (codes "payload hash") hash
            ms ← mappings
            rs ←
                wrapping
                  (codes "resolve controls")
                  (resolve_against_catalog (w.fails resolve_controls) s.controls ms)
            _ ← wrapping (codes "marshal event data") (lib.marshal (event_json w.stamp i.event))
            u ← wrapping (codes "parse project uuid") (parse_pg_uuid w.parse_uuid i.auth.project_id)
            v ← wrapping (codes "parse env uuid") (parse_pg_uuid w.parse_uuid i.auth.environment_id)
            k ← wrapping (codes "parse api key uuid") (parse_pg_uuid w.parse_uuid i.auth.api_key_id)
            ok (pending_row w s i x u v k rs))
            ≡ ok p
          → Prepared lib w i p
      go (err x) ms e h = cc
      go (ok x) (err y) e h = cc
      go (ok x) (ok ms) e h =
          let (rs, u, v, k, project, environment, row) =
            located (resolve_against_catalog (w.fails resolve_controls) s.controls ms)
              (lib.marshal (event_json w.stamp i.event))
              (parse_pg_uuid w.parse_uuid i.auth.project_id)
              (parse_pg_uuid w.parse_uuid i.auth.environment_id)
              (parse_pg_uuid w.parse_uuid i.auth.api_key_id)
              (λ rs u v k. pending_row w s i x u v k rs) p h in
          subst (Prepared lib w i) row (record {
            hash = unfold pending_row in e;
            event_data = unfold pending_row in refl;
            organization = unfold pending_row in refl;
            project = unfold pending_row in project;
            environment = unfold pending_row in environment;
          })

  gate-Outcome :
      (w : World) (i : AcceptInput) (hash : Text) (p : PendingEvent) (s : State) (r : AcceptResult)
      (s' : State)
      → gate w i hash p s ≡ (ok r, s')
      → Outcome w i p s r s'
  unfolding gate
  gate-Outcome w i hash p s r s' h = elim (Option-cases (w.fails claim_key)) [
    | inr (x, e) ↦ absurd (grind (arith, e, h))
    | inl e ↦
        elim (Option-cases (find_key i.auth.organization_id i.idempotency_key s.idempotency)) [
          | inl e' ↦
              let (a, b) =
                insert-Outcome w i p
                  (record s { idempotency = s.idempotency ++ claim_row w i hash p ∷ [] }) r s'
                  (grind (arith, e, e', h)) in
              stored a b
          | inr (row, e') ↦ elim (Option-cases (w.fails read_response)) [
            | inr (x, e'') ↦ absurd (grind (arith, e, e', e'', h))
            | inl e'' ↦
                replayed row e' (grind (arith, e, e', e'', h)) (grind (arith, e, e', e'', h))
          ]
        ]
  ]

  pub accept-Outcome :
      (w : World) (i : AcceptInput) (s : State) (r : AcceptResult) (s' : State)
      → accept lib w i s ≡ (ok r, s')
      → (p : PendingEvent) × (prepare lib w s i ≡ ok p) × Outcome w i p s r s'
  unfolding accept admit
  accept-Outcome w i s r s' h = elim (Result-cases (prepare lib w s i)) [
    | inl (x, e) ↦ absurd (grind (arith, e, h))
    | inr (p, e) ↦ elim (Bool-cases (str_eq i.idempotency_key [])) [
      | inl e' ↦
          let (a, b) = insert-Outcome w i p s r s' (grind (arith, e, e', h)) in (p, e, stored a b)
      | inr e' ↦ elim (Result-cases (request_hash lib w i)) [
        | inl (x, e'') ↦ absurd (grind (arith, e, e', e'', h))
        | inr (hash, e'') ↦ (p, e, gate-Outcome w i hash p s r s' (grind (arith, e, e', e'', h)))
      ]
    ]
  ]
