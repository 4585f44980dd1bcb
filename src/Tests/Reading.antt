-- ===== src/Tests/Reading.antt =====
-- Runs of the read routes.
use stonewrit.Prelude.{
  ◌≡◌, refl, true, inl, inr, [], ◌∷◌, some, none, codes, str_eq, str_leb, contains, Elem, arith,
}
use stonewrit.Prelude.Int.{pos, succ_int64}
use stonewrit.Db.{Chain, PendingEvent, EventRow, Db}
use stonewrit.Db.Queries.{
  lock_shard_chain, ensure_shard_chain_from_env, drain_pending_for_shard, existing_in, copy_events,
  update_shard_tip,
}
use stonewrit.Core.Verify.{text_or_empty}
use stonewrit.Sealer.{seal_shard}
use stonewrit.Sealer.Row.{build_event_row, null_if_empty}
use stonewrit.Sealer.Invariant.{IsConsistent, chain_rows}
use stonewrit.Sealer.Keeps.{seal_shard-IsConsistent}
use stonewrit.Read.{
  ReadWorld, get, verify_event_route, list_chains_route, get_chain_route, event_mappings,
  neighbors_of,
}
use stonewrit.Read.Views.{neighbor_view}
use stonewrit.Read.Isolated.{SameFor, reads_isolated}
use stonewrit.Read.Neighbors.{neighbors_link}
use stonewrit.Tests.Samples.{
  sample_lib, sample_db, sample_pending, sample_input, sample_context, second_payload,
}
use stonewrit.Tests.Sealing.{sample_world}

abbrev reader : ReadWorld
reader = record { parse_uuid = λ s. some s; fails = λ q. none; newest_first = λ a b. true }

abbrev foreign_pending : PendingEvent
foreign_pending = record sample_pending { id = codes "e7"; organization_id = codes "other" }

abbrev shared_db : Db
shared_db = record sample_db { pending = foreign_pending ∷ sample_pending ∷ [] }

SameFor-org : SameFor (codes "org") sample_db shared_db
unfolding str_eq
SameFor-org = record { events = refl; pending = refl; chains = refl; mappings = refl }

reads_isolated_example :
    (get reader (some sample_context) (codes "e1") sample_db
      ≡ get reader (some sample_context) (codes "e1") shared_db)
    × (verify_event_route sample_lib reader (some sample_context) (codes "e1") sample_db
        ≡ verify_event_route sample_lib reader (some sample_context) (codes "e1") shared_db)
    × (list_chains_route reader (some sample_context) (codes "e1") sample_db
        ≡ list_chains_route reader (some sample_context) (codes "e1") shared_db)
    × (get_chain_route reader (some sample_context) (codes "e1") sample_db
        ≡ get_chain_route reader (some sample_context) (codes "e1") shared_db)
    × (event_mappings reader (some sample_context) (codes "e1") sample_db
        ≡ event_mappings reader (some sample_context) (codes "e1") shared_db)
reads_isolated_example =
    reads_isolated sample_lib reader sample_context (codes "e1") sample_db shared_db SameFor-org

-- a second event, and the journal with both
abbrev later_pending : PendingEvent
later_pending = record sample_pending {
  id = codes "e2";
  external_event_id = some (codes "x2");
  payload_hash = second_payload;
  event_data = some (record {
    received_at = 3000000;
    input = record sample_input { external_event_id = codes "x2" };
  });
}

abbrev both_db : Db
both_db = record sample_db { pending = sample_pending ∷ later_pending ∷ [] }

abbrev journal : Db
journal = (seal_shard sample_world (codes "env1") 0 both_db).db

both-IsConsistent : IsConsistent sample_lib journal
both-IsConsistent =
    seal_shard-IsConsistent sample_lib sample_world (codes "env1") 0 both_db (λ c m. elim m [ ])
      refl (omega arith)

two_rows :
    (a : EventRow) × (b : EventRow) × (c : Chain) × (journal.events ≡ a ∷ b ∷ [])
    × (journal.chains ≡ c ∷ [])
    × (a.chain_position ≡ pos 1)
    × (b.chain_position ≡ pos 2)
    × (str_eq a.chain_id c.id ≡ true)
    × (str_eq b.chain_id c.id ≡ true)
unfolding seal_shard build_event_row lock_shard_chain ensure_shard_chain_from_env str_eq
    drain_pending_for_shard contains existing_in copy_events text_or_empty succ_int64
    update_shard_tip str_leb
two_rows = (_, _, _, refl, refl, refl, refl, refl, refl)

first_there : Elem two_rows.0 (chain_rows two_rows.2.id journal.events)
first_there = rw (two_rows.3, two_rows.7) (inl refl)

second_there : Elem two_rows.1 (chain_rows two_rows.2.id journal.events)
second_there = rw (two_rows.3, two_rows.7, two_rows.8) (inr (inl refl))

chain_there : Elem two_rows.2 journal.chains
chain_there = rw (two_rows.4) (inl refl)

neighbors_link_example :
    ((neighbors_of two_rows.1 journal).previous ≡ some (neighbor_view two_rows.0))
    × ((neighbors_of two_rows.0 journal).next ≡ some (neighbor_view two_rows.1))
    × (two_rows.1.previous_event_hash ≡ null_if_empty two_rows.0.event_hash)
neighbors_link_example =
    neighbors_link sample_lib journal two_rows.2 two_rows.0 two_rows.1 1 both-IsConsistent
      chain_there first_there second_there two_rows.5 two_rows.6 (omega arith)
