-- ===== src/System/Verifies.antt =====
-- Whatever the order of requests and runs: every event and every chain of the database verifies.
use stonewrit.Prelude.{◌≡◌, ◌≤◌, sym, ap, ◌∙◌, inl, inr, true, [], ◌∷◌, length, Text, Elem}
use stonewrit.Prelude.Errors.{ok}
use stonewrit.Json.{JsonLib}
use stonewrit.Spec.Encode.{reread}
use stonewrit.Core.Verify.{verify_chain}
use stonewrit.Db.{Chain, PendingEvent, EventRow}
use stonewrit.Sealer.Invariant.{chain_rows, row_records}
use stonewrit.Sealer.Tables.{Elem-append_cases}
use stonewrit.VerifyService.{Answer, verify_pending, verify_sealed}
use stonewrit.VerifyService.Sound.{pending_verifies, reread-stable}
use stonewrit.ChainsRoute.{sync_limit, verify_chain_row, walk_chain_for_verify}
use stonewrit.ChainsRoute.Accepts.{consistent_chain_verifies}
use stonewrit.Ingest.{World, State, AcceptInput, accept, prepare}
use stonewrit.Ingest.Stored.{prepare-Prepared}
use stonewrit.Ingest.Verifies.{content_hash, reread-same, ok-injective, envelope}
use stonewrit.System.{
  Store, accept_view, accepted_into, IsRequest, Step, accepts, seals, manages, IsNew, Reach, start,
  later,
}
use stonewrit.System.Accepted.{accept-Grows}
use stonewrit.System.Built.{Verifiable}
use stonewrit.System.Invariant.{Inv, seal_shard-Inv}

module _ (lib : JsonLib) (project_of : Text → Text) where
  prepared-Verifiable :
      (w : World) (s : State) (i : AcceptInput) (p : PendingEvent)
      → IsRequest project_of w i
      → prepare lib w s i ≡ ok p
      → (p.project_id ≡ project_of p.environment_id) × Verifiable lib p
  prepared-Verifiable w s i p request ready =
      let q = prepare-Prepared lib w s i p ready in
      let same = reread-same i.event request.full in
      (
        ok-injective (sym q.project ∙ request.canonical.project)
            ∙ request.in_project
            ∙ ap project_of (ok-injective (sym request.canonical.environment ∙ q.environment)),
        (
          envelope w i,
          q.event_data,
          reread-stable i.event,
          content_hash lib w i p (reread i.event) q request.canonical same,
        ),
      )

  accept-Inv :
      (w : World) (i : AcceptInput) (s : Store)
      → IsRequest project_of w i
      → Inv lib project_of s.db
      → Inv lib project_of (accepted_into s (accept lib w i (accept_view s)).1).db
  accept-Inv w i s request h = record {
    consistent = h.consistent;
    chains = h.chains;
    environments = h.environments;
    pending = λ p m. elim (accept-Grows lib w i (accept_view s)) [
      | inl same ↦ h.pending p (rw same at m)
      | inr (row, ready, grown) ↦
          elim (Elem-append_cases p s.db.pending (row ∷ []) (rw grown at m)) [
            | inl old ↦ h.pending p old
            | inr (inl new) ↦ rw new (prepared-Verifiable w (accept_view s) i row request ready)
            | inr (inr none) ↦ elim none [ ]
          ]
    ];
    events = h.events;
  }

  Step-Inv :
      {s t : Store} → Step lib project_of s t → Inv lib project_of s.db → Inv lib project_of t.db
  Step-Inv {s} (accepts w i request) h = accept-Inv w i s request h
  Step-Inv {s} (seals w env shard fresh bound) h =
      seal_shard-Inv lib project_of w env shard s.db h fresh bound
  Step-Inv (manages agents controls) h = h

  new-Inv : (s : Store) → IsNew lib project_of s → Inv lib project_of s.db
  new-Inv s new = record {
    consistent = λ c m. elim (rw new.chains at m) [ ];
    chains = λ c m. elim (rw new.chains at m) [ ];
    environments = new.environments;
    pending = λ p m. elim (rw new.pending at m) [ ];
    events = λ r m. elim (rw new.events at m) [ ];
  }

  Reach-Inv : {s : Store} → Reach lib project_of s → Inv lib project_of s.db
  Reach-Inv (start s new) = new-Inv s new
  Reach-Inv (later r st) = Step-Inv st (Reach-Inv r)

  -- Requests have ids in their canonical spelling, no empty metadata map, and a key whose project is that
  -- of its environment; a run of the sealer has an unused uuid for a new chain, and the events of the
  -- journal and one batch stay below 2^63. In every state that such requests and runs reach, in any
  -- order, from a server without events, chains and pending rows, each event of the journal passes
  -- the verification of single events: payload hash, event hash and link.
  pub reachable_event_verifies :
      (s : Store) (r : EventRow)
      → Reach lib project_of s
      → Elem r s.db.events
      → (verify_sealed lib r).valid ≡ true
  reachable_event_verifies s r reach m = (Reach-Inv reach).events r m

  -- Requests have ids in their canonical spelling, no empty metadata map, and a key whose project is that
  -- of its environment; a run of the sealer has an unused uuid for a new chain, and the events of the
  -- journal and one batch stay below 2^63. In every state that such requests and runs reach, in any
  -- order, from a server without events, chains and pending rows, each pending row passes the
  -- verification of single events.
  pub reachable_pending_verifies :
      (s : Store) (p : PendingEvent)
      → Reach lib project_of s
      → Elem p s.db.pending
      → (a : Answer) × (verify_pending lib p ≡ ok a) × (a.valid ≡ true)
  reachable_pending_verifies s p reach m =
      let (_, (env, stored, _, hash)) = (Reach-Inv reach).pending p m in
      pending_verifies lib p env stored hash

  -- Requests have ids in their canonical spelling, no empty metadata map, and a key whose project is that
  -- of its environment; a run of the sealer has an unused uuid for a new chain, and the events of the
  -- journal and one batch stay below 2^63. In every state that such requests and runs reach, in any
  -- order, from a server without events, chains and pending rows, the chain endpoint finds
  -- each chain valid, unless it has more events than the endpoint walks, and the core verifier accepts
  -- its rows.
  pub reachable_chain_verifies :
      (s : Store) (c : Chain)
      → Reach lib project_of s
      → Elem c s.db.chains
      → length (chain_rows c.id s.db.events) ≤ sync_limit
      → ((verify_chain_row c s.db).valid ≡ true)
        × ((verify_chain lib (row_records (walk_chain_for_verify c.id sync_limit s.db))).valid
            ≡ true)
  reachable_chain_verifies s c reach m few =
      consistent_chain_verifies lib s.db c (Reach-Inv reach).consistent m few
