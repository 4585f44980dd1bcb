-- ===== src/Read/Isolated.antt =====
-- What an organization is told depends on its own rows alone.
use stonewrit.Prelude.{
  ◌≡◌, refl, ap, ◌∙◌, sym, inl, inr, Option, Option-cases, none, some, codes, List, [], ◌∷◌, filter,
  Text, str_eq, arith,
}
use stonewrit.Json.{JsonLib}
use stonewrit.Auth.{Context}
use stonewrit.Db.{Chain, PendingEvent, EventRow, MappingRow, Db}
use stonewrit.VerifyService.{find_event, find_pending, verify_by_id, from_pending}
use stonewrit.Read.Views.{sealed_event, sealed_view, chain_view}
use stonewrit.Read.{
  Reply, missing, found, get_event, get_pending, list_chains, get_chain, get_mappings, with_uuid,
  one_row, or_pending, verified, listed, mapped, ReadWorld, get, verify_event_route,
  find_chain_for_org, list_chains_for_org, list_chains_route, get_chain_route, event_mappings,
}

-- two databases with the same rows of an organization
pub record SameFor (org : Text) (a b : Db) : Type 0 where
  pub events :
      filter (λ (r : EventRow). str_eq r.organization_id org) a.events
      ≡ filter (λ (r : EventRow). str_eq r.organization_id org) b.events
  pub pending :
      filter (λ (r : PendingEvent). str_eq r.organization_id org) a.pending
      ≡ filter (λ (r : PendingEvent). str_eq r.organization_id org) b.pending
  pub chains :
      filter (λ (r : Chain). str_eq r.organization_id org) a.chains
      ≡ filter (λ (r : Chain). str_eq r.organization_id org) b.chains
  pub mappings :
      filter (λ (r : MappingRow). str_eq r.organization_id org) a.mappings
      ≡ filter (λ (r : MappingRow). str_eq r.organization_id org) b.mappings

find_event-filter :
    (org id : Text) (es : List EventRow)
    → find_event org id es
      ≡ find_event org id (filter (λ (r : EventRow). str_eq r.organization_id org) es)
unfolding find_event
find_event-filter org id [] = refl
find_event-filter org id (e ∷ es) = ground (arith, find_event-filter org id es)

find_pending-filter :
    (org id : Text) (ps : List PendingEvent)
    → find_pending org id ps
      ≡ find_pending org id (filter (λ (r : PendingEvent). str_eq r.organization_id org) ps)
unfolding find_pending
find_pending-filter org id [] = refl
find_pending-filter org id (p ∷ ps) = ground (arith, find_pending-filter org id ps)

find_chain-filter :
    (org id : Text) (cs : List Chain)
    → find_chain_for_org org id cs
      ≡ find_chain_for_org org id (filter (λ (c : Chain). str_eq c.organization_id org) cs)
unfolding find_chain_for_org
find_chain-filter org id [] = refl
find_chain-filter org id (c ∷ cs) = ground (arith, find_chain-filter org id cs)

module _ (org : Text) (a b : Db) (same : SameFor org a b) where
  found_event : (id : Text) → find_event org id a.events ≡ find_event org id b.events
  found_event id =
      find_event-filter org id a.events
      ∙ ap (find_event org id) same.events
      ∙ sym (find_event-filter org id b.events)

  found_pending : (id : Text) → find_pending org id a.pending ≡ find_pending org id b.pending
  found_pending id =
      find_pending-filter org id a.pending
      ∙ ap (find_pending org id) same.pending
      ∙ sym (find_pending-filter org id b.pending)

  found_chain :
      (id : Text) → find_chain_for_org org id a.chains ≡ find_chain_for_org org id b.chains
  found_chain id =
      find_chain-filter org id a.chains
      ∙ ap (find_chain_for_org org id) same.chains
      ∙ sym (find_chain-filter org id b.chains)

with_uuid-cong :
    {B : Type 0} (w : ReadWorld) (code raw : Text) (f g : Text → Reply B)
    → ((id : Text) → f id ≡ g id)
    → with_uuid w code raw f ≡ with_uuid w code raw g
unfolding with_uuid
with_uuid-cong w code raw f g h = elim (Option-cases (w.parse_uuid raw)) [
  | inl e ↦ rw (e, with_uuid) refl
  | inr (id, e) ↦ rw (e, with_uuid) (h id)
]

verify_by_id-cong :
    (lib : JsonLib) (w : ReadWorld) (org raw : Text) (a b : Db)
    → ((id : Text) → find_event org id a.events ≡ find_event org id b.events)
    → ((id : Text) → find_pending org id a.pending ≡ find_pending org id b.pending)
    → verify_by_id lib w.parse_uuid
        (w.fails get_event)
        (w.fails get_pending)
        a.events
        a.pending
        org
        raw
      ≡ verify_by_id lib w.parse_uuid
          (w.fails get_event)
          (w.fails get_pending)
          b.events
          b.pending
          org
          raw
unfolding verify_by_id
verify_by_id-cong lib w org [] a b h k = refl
verify_by_id-cong lib w org (c ∷ s) a b h k = elim (Option-cases (w.parse_uuid (c ∷ s))) [
  | inl e ↦ rw (e, verify_by_id) refl
  | inr (id, e) ↦ elim (Option-cases (w.fails get_event)) [
    | inr (x, f) ↦ rw (e, verify_by_id, f, verify_by_id) refl
    | inl f ↦ elim (Option-cases (find_event org id b.events)) [
      | inr (ev, g) ↦ rw (e, verify_by_id, f, verify_by_id, h id, g, verify_by_id) refl
      | inl g ↦
          rw (e, verify_by_id, f, verify_by_id, h id, g, verify_by_id)
            (ap (from_pending lib (w.fails get_pending)) (k id))
    ]
  ]
]

module _ (w : ReadWorld) (ac : Context) (a b : Db) (same : SameFor ac.organization_id a b) where
  get-isolated : (path : Text) → get w (some ac) path a ≡ get w (some ac) path b
  unfolding get
  get-isolated path = with_uuid-cong w (codes "invalid_event_id") path _ _ λ id.
      let org = ac.organization_id in
      ap
        (λ e.
          one_row (w.fails get_event) e
            (or_pending (w.fails get_pending) (find_pending org id a.pending))
            (λ ev. found (sealed_event (sealed_view ev))))
        (found_event org a b same id)
      ∙ ap
          (λ p.
            one_row (w.fails get_event) (find_event org id b.events)
              (or_pending (w.fails get_pending) p) (λ ev. found (sealed_event (sealed_view ev))))
          (found_pending org a b same id)

  verify-isolated :
      (lib : JsonLib) (path : Text)
      → verify_event_route lib w (some ac) path a ≡ verify_event_route lib w (some ac) path b
  unfolding verify_event_route
  verify-isolated lib path = ap verified (
      verify_by_id-cong lib w ac.organization_id path a b (found_event ac.organization_id a b same)
        (found_pending ac.organization_id a b same))

  listed-isolated :
      (project : Option Text)
      → listed w ac.organization_id project a ≡ listed w ac.organization_id project b
  unfolding listed list_chains_for_org
  listed-isolated project = elim (Option-cases (w.fails list_chains)) [
    | inr (x, e) ↦ rw (e, listed) refl
    | inl e ↦ rw (e, listed, same.chains) refl
  ]

  list-isolated :
      (path : Text) → list_chains_route w (some ac) path a ≡ list_chains_route w (some ac) path b
  unfolding list_chains_route
  list-isolated [] = listed-isolated none
  list-isolated (c ∷ s) =
      with_uuid-cong w (codes "invalid_project_id") (c ∷ s) _ _
        λ project. listed-isolated (some project)

  chain-isolated :
      (path : Text) → get_chain_route w (some ac) path a ≡ get_chain_route w (some ac) path b
  unfolding get_chain_route
  chain-isolated path = with_uuid-cong w (codes "invalid_chain_id") path _ _ λ id.
      ap
        (λ c.
          one_row (w.fails get_chain) c (missing (codes "chain_not_found"))
            (λ x. found (chain_view x)))
        (found_chain ac.organization_id a b same id)

  mapped-isolated :
      (id : Text) → mapped w ac.organization_id id a ≡ mapped w ac.organization_id id b
  unfolding mapped
  mapped-isolated id = elim (Option-cases (w.fails get_mappings)) [
    | inr (x, e) ↦ rw (e, mapped) refl
    | inl e ↦ rw (e, mapped, same.mappings) refl
  ]

  mappings-isolated :
      (path : Text) → event_mappings w (some ac) path a ≡ event_mappings w (some ac) path b
  unfolding event_mappings
  mappings-isolated path = with_uuid-cong w (codes "invalid_event_id") path _ _ mapped-isolated

-- For two databases with the same rows of the caller's organization, whatever the others hold: the
-- routes for an event, its verification, the list of chains, a chain and the mappings of an event give
-- the same reply.
pub reads_isolated :
    (lib : JsonLib) (w : ReadWorld) (ac : Context) (path : Text) (a b : Db)
    → SameFor ac.organization_id a b
    → (get w (some ac) path a ≡ get w (some ac) path b)
      × (verify_event_route lib w (some ac) path a ≡ verify_event_route lib w (some ac) path b)
      × (list_chains_route w (some ac) path a ≡ list_chains_route w (some ac) path b)
      × (get_chain_route w (some ac) path a ≡ get_chain_route w (some ac) path b)
      × (event_mappings w (some ac) path a ≡ event_mappings w (some ac) path b)
reads_isolated lib w ac path a b same = (
  get-isolated w ac a b same path,
  verify-isolated w ac a b same lib path,
  list-isolated w ac a b same path,
  chain-isolated w ac a b same path,
  mappings-isolated w ac a b same path,
)
