-- ===== src/System.antt =====
-- The accept path and the sealer on one database: server/internal/ingest/accept.go and
-- server/internal/sealer/sealer.go as steps that any number of goroutines take in any order. A step is
-- a whole request or a whole run; a run that meets a locked chain is one of its worlds.
pub mod Accepted
pub mod Built
pub mod Invariant
pub mod Verifies
use stonewrit.Prelude.{ℕ, ◌+◌, ◌<◌, ◌^◌, ◌≡◌, ◌≢◌, List, [], some, length, Text, Elem}
use stonewrit.Json.{JsonLib, end}
use stonewrit.Spec.{AcceptedResponse}
use stonewrit.Db.{Environment, PendingEvent, IdempotencyRow, Agent, Db}
use stonewrit.Sealer.Invariant.{chain_rows}
use stonewrit.Sealer
use stonewrit.Ingest
use stonewrit.Ingest.{AcceptInput, State}
use stonewrit.Ingest.Resolve.{ControlRef}
use stonewrit.Ingest.Verifies.{IsCanonical}

pub record Store : Type 0 where
  pub db : Db
  pub idempotency : List (IdempotencyRow AcceptedResponse)
  pub agents : List Agent
  pub controls : List ControlRef

-- the tables of the accept path, whose pending rows are the sealer's
abbrev pub accept_view : Store → State
accept_view s = record {
  pending = s.db.pending;
  idempotency = s.idempotency;
  agents = s.agents;
  controls = s.controls;
}

abbrev pub accepted_into : Store → State → Store
accepted_into s t = record {
  db = record s.db { pending = t.pending };
  idempotency = t.idempotency;
  agents = t.agents;
  controls = t.controls;
}

-- A request whose key belongs to the project of its environment, with ids in their canonical spelling
-- and without an empty metadata map. The program checks none of the three: the steps are about the
-- requests that have them.
pub record IsRequest (project_of : Text → Text) (w : Ingest.World) (i : AcceptInput) : Type 0 where
  pub canonical : IsCanonical w i
  pub full : i.event.metadata ≢ some end
  pub in_project : i.auth.project_id ≡ project_of i.auth.environment_id

module _ (lib : JsonLib) (project_of : Text → Text) where
  pub data Step (s : Store) : Store → Type 0 where
    accepts :
        (w : Ingest.World) (i : AcceptInput)
        → IsRequest project_of w i
        → Step s (accepted_into s (Ingest.accept lib w i (accept_view s)).1)
    -- the uuid for a new chain is unused, and positions stay below 2^63
    seals :
        (w : Sealer.World) (env : Text) (shard : ℕ)
        → chain_rows w.new_chain_id s.db.events ≡ []
        → length s.db.events + 1 + w.batch_size < 2 ^ 63
        → Step s (record s { db = (Sealer.seal_shard w env shard s.db).db })
    -- an administrator changes the agents and the catalogue
    manages :
        (agents : List Agent) (controls : List ControlRef)
        → Step s (record s { agents = agents; controls = controls })

  -- a new server: environments, but no event and no chain
  pub record IsNew (s : Store) : Type 0 where
    pub chains : s.db.chains ≡ []
    pub pending : s.db.pending ≡ []
    pub events : s.db.events ≡ []
    pub environments : (e : Environment) → Elem e s.db.environments → e.project_id ≡ project_of e.id

  pub data Reach : Store → Type 0 where
    start : (s : Store) → IsNew s → Reach s
    later : {s t : Store} → Reach s → Step s t → Reach t
