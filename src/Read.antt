-- ===== src/Read.antt =====
-- The read routes: server/internal/routes/events_read.go, chains.go and the mappings of evidence.go. A
-- handler is a function from the caller's context, the path and the tables to the reply.
pub mod Views
pub mod Isolated
pub mod Neighbors
use stonewrit.Prelude.{
  ℕ, List, [], ◌∷◌, map, filter, Bool, true, false, ◌&&◌, ◌||◌, Option, none, some, Text, codes,
  str_eq, if◌then◌else◌,
}
use stonewrit.Prelude.Errors.{Error, not_found, Result, ok, err}
use stonewrit.Prelude.Int.{ℤ, pred_int64, succ_int64, int_eq, int_leb}
use stonewrit.Prelude.Sort.{sort_by}
use stonewrit.Json.{JsonLib}
use stonewrit.Auth.{Context}
use stonewrit.Db.{Chain, PendingEvent, EventRow, MappingRow, Db}
use stonewrit.Read.Views.{
  SealedView, sealed_view, PendingView, pending_view, EventView, sealed_event, pending_event,
  NeighborView, neighbor_view, NeighborsView, ChainView, chain_view, MappingView, mapping_view,
}
use stonewrit.ChainsRoute.{VerifyResponse, verify_chain_row}
use stonewrit.VerifyService.{Answer, find_event, find_pending, verify_by_id}

pub data ReadQuery : Type 0 where
  get_event get_pending get_neighbors list_chains get_chain walk_chain get_mappings : ReadQuery

-- uuid.Parse, which queries fail, and the order of the chains' rows by the time of their update
pub record ReadWorld : Type 0 where
  pub parse_uuid : Text → Option Text
  pub fails : ReadQuery → Option Error
  pub newest_first : Chain → Chain → Bool

-- the status and the code of an error, or a body with status 200 or 422
pub data Reply (Body : Type 0) : Type 0 where
  no_context : Reply Body
  bad_request : Text → Reply Body
  missing : Text → Reply Body
  internal : Error → Reply Body
  found : Body → Reply Body

-- `auth.FromContext`, then the rest of the handler
unfoldable pub with_context : {B : Type 0} → Option Context → (Context → Reply B) → Reply B
with_context none rest = no_context
with_context (some ac) rest = rest ac

-- parsePathUUID, with the code of its error
unfoldable pub with_uuid : {B : Type 0} → ReadWorld → Text → Text → (Text → Reply B) → Reply B
with_uuid w code raw rest = elim (w.parse_uuid raw) [ none ↦ bad_request code | some id ↦ rest id ]

-- a query for one row: an error, no row, or a row
unfoldable pub one_row :
    {A B : Type 0} → Option Error → Option A → Reply B → (A → Reply B) → Reply B
one_row (some e) row none' rest = internal e
one_row none none none' rest = none'
one_row none (some a) none' rest = rest a

-- the pending fallback of `Get`, which takes every error for a missing row
unfoldable pub or_pending : Option Error → Option PendingEvent → Reply EventView
unfolding pending_view
or_pending none (some p) = found (pending_event (pending_view p))
or_pending _ _ = missing (codes "event_not_found")

-- EventsRead.Get
unfoldable pub get : ReadWorld → Option Context → Text → Db → Reply EventView
unfolding with_context with_uuid one_row or_pending sealed_view
get w auth raw db = with_context auth λ ac. with_uuid w (codes "invalid_event_id") raw λ id.
    one_row (w.fails get_event) (find_event ac.organization_id id db.events)
      (or_pending (w.fails get_pending) (find_pending ac.organization_id id db.pending))
      (λ ev. found (sealed_event (sealed_view ev)))

-- GetEventNeighbors
unfoldable pub in_positions : Text → ℤ → ℤ → EventRow → Bool
in_positions chain a b e =
    str_eq e.chain_id chain && (int_eq e.chain_position a || int_eq e.chain_position b)

unfoldable pub get_event_neighbors : Text → ℤ → ℤ → Db → List EventRow
unfolding in_positions
get_event_neighbors chain a b db =
    sort_by (λ x y. int_leb x.chain_position y.chain_position)
      (filter (in_positions chain a b) db.events)

-- the loop over the neighbours, with `prev` and `next` so far
unfoldable pub neighbors_loop :
    ℤ
    → ℤ
    → Option NeighborView
    → Option NeighborView
    → List EventRow
    → Option NeighborView × Option NeighborView
unfolding neighbor_view
neighbors_loop a b prev next [] = (prev, next)
neighbors_loop a b prev next (n ∷ ns) =
    let as_prev = neighbors_loop a b (some (neighbor_view n)) next ns in
    let as_next = neighbors_loop a b prev (some (neighbor_view n)) ns in
    let neither = neighbors_loop a b prev next ns in
    if int_eq n.chain_position a
    then as_prev
    else if int_eq n.chain_position b
    then as_next
    else neither

unfoldable pub neighbors_of : EventRow → Db → NeighborsView
unfolding get_event_neighbors neighbors_loop
neighbors_of ev db =
    let a = pred_int64 ev.chain_position in
    let b = succ_int64 ev.chain_position in
    let (prev, next) = neighbors_loop a b none none (get_event_neighbors ev.chain_id a b db) in
    record {
      chain_id = ev.chain_id;
      chain_position = ev.chain_position;
      previous = prev;
      next = next;
    }

-- EventsRead.ChainNeighbors
unfoldable pub chain_neighbors : ReadWorld → Option Context → Text → Db → Reply NeighborsView
unfolding with_context with_uuid one_row neighbors_of
chain_neighbors w auth raw db = with_context auth λ ac.
    with_uuid w (codes "invalid_event_id") raw λ id.
      one_row (w.fails get_event) (find_event ac.organization_id id db.events)
        (missing (codes "event_not_found"))
        (λ ev. elim (w.fails get_neighbors) [
          | some e ↦ internal e
          | none ↦ found (neighbors_of ev db)
        ])

unfoldable pub verified : Result Answer → Reply Answer
verified (ok a) = found a
verified (err not_found) = missing (codes "event_not_found")
verified (err e) = internal e

-- EventsRead.Verify
unfoldable pub verify_event_route : JsonLib → ReadWorld → Option Context → Text → Db → Reply Answer
unfolding with_context verified
verify_event_route lib w auth raw db = with_context auth λ ac. verified (
    verify_by_id lib w.parse_uuid (w.fails get_event) (w.fails get_pending) db.events db.pending
      ac.organization_id raw)

-- GetChainForOrg
unfoldable pub find_chain_for_org : Text → Text → List Chain → Option Chain
find_chain_for_org org id [] = none
find_chain_for_org org id (c ∷ cs) =
    let rest = find_chain_for_org org id cs in
    if str_eq c.id id && str_eq c.organization_id org then some c else rest

-- ListChainsForOrg
unfoldable pub list_chains_for_org : ReadWorld → Text → Option Text → Db → List Chain
list_chains_for_org w org project db = sort_by w.newest_first (
    filter (λ c. elim project [ none ↦ true | some p ↦ str_eq c.project_id p ])
      (filter (λ c. str_eq c.organization_id org) db.chains))

unfoldable pub listed : ReadWorld → Text → Option Text → Db → Reply (List ChainView)
unfolding chain_view
listed w org project db = elim (w.fails list_chains) [
  | some e ↦ internal e
  | none ↦ found (map chain_view (list_chains_for_org w org project db))
]

-- Chains.List; an empty `project_id` is no filter
unfoldable pub list_chains_route : ReadWorld → Option Context → Text → Db → Reply (List ChainView)
unfolding with_context with_uuid listed
list_chains_route w auth [] db = with_context auth λ ac. listed w ac.organization_id none db
list_chains_route w auth (c ∷ q) db = with_context auth λ ac.
    with_uuid w (codes "invalid_project_id") (c ∷ q)
      λ project. listed w ac.organization_id (some project) db

-- Chains.Get
unfoldable pub get_chain_route : ReadWorld → Option Context → Text → Db → Reply ChainView
unfolding with_context with_uuid one_row chain_view
get_chain_route w auth raw db = with_context auth λ ac.
    with_uuid w (codes "invalid_chain_id") raw λ id.
      one_row (w.fails get_chain) (find_chain_for_org ac.organization_id id db.chains)
        (missing (codes "chain_not_found")) (λ c. found (chain_view c))

walked : ReadWorld → Chain → Db → Reply VerifyResponse
walked w c db = elim (w.fails walk_chain) [
  | none ↦ found (verify_chain_row c db)
  | some e ↦ if (verify_chain_row c db).too_large then found (verify_chain_row c db) else internal e
]

-- Chains.Verify; the walk is not made when the chain is too large
unfoldable pub verify_chain_route : ReadWorld → Option Context → Text → Db → Reply VerifyResponse
unfolding with_context with_uuid one_row walked
verify_chain_route w auth raw db = with_context auth λ ac.
    with_uuid w (codes "invalid_chain_id") raw λ id.
      one_row (w.fails get_chain) (find_chain_for_org ac.organization_id id db.chains)
        (missing (codes "chain_not_found")) (λ c. walked w c db)

unfoldable pub mapped : ReadWorld → Text → Text → Db → Reply (List MappingView)
unfolding mapping_view
mapped w org id db = elim (w.fails get_mappings) [
  | some e ↦ internal e
  | none ↦ found (
      map mapping_view (
        filter (λ m. str_eq m.event_id id)
          (filter (λ m. str_eq m.organization_id org) db.mappings)))
]

-- Evidence.EventMappings, with GetEventControlMappings
unfoldable pub event_mappings : ReadWorld → Option Context → Text → Db → Reply (List MappingView)
unfolding with_context with_uuid mapped
event_mappings w auth raw db =
    with_context auth
      λ ac. with_uuid w (codes "invalid_event_id") raw λ id. mapped w ac.organization_id id db
