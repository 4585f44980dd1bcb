-- ===== src/Sealer/Ensure.antt =====
-- The row of a new shard's chain is an empty chain.
use stonewrit.Prelude.{ℕ, ◌≡◌, ap, ◌∙◌, inl, inr, Bool-cases, none, List, [], ◌++◌, Text, arith}
use stonewrit.Prelude.Int.{pos}
use stonewrit.Json.{JsonLib}
use stonewrit.Db.{Chain, EventRow, Db}
use stonewrit.Db.Queries.{ensure_shard_chain_from_env, new_chains, any_chain, same_shard}
use stonewrit.Sealer.Row.{null_if_empty}
use stonewrit.Sealer.Invariant.{chain_rows, IsChain, IsConsistent}
use stonewrit.Sealer.Tables.{new_chains-fresh, Elem-append_cases}

module _ (lib : JsonLib) where
  empty-IsChain :
      (c : Chain) (rows : List EventRow)
      → rows ≡ []
      → c.latest_position ≡ pos 0
      → c.latest_event_hash ≡ none
      → IsChain lib c rows
  empty-IsChain c rows e p t = rw e (
      unfold null_if_empty in
      record { linked = tt; numbered = tt; named = tt; tip = t; position = p })

  -- a new shard's chain row is an empty chain, if no event has its new id
  pub ensure-IsConsistent :
      (env : Text) (shard : ℕ) (id : Text) (db : Db)
      → chain_rows id db.events ≡ []
      → IsConsistent lib db
      → IsConsistent lib (ensure_shard_chain_from_env env shard id db)
  unfolding ensure_shard_chain_from_env
  ensure-IsConsistent env shard id db fresh h =
      elim (Bool-cases (any_chain (same_shard env shard) db.chains)) [
        | inl there ↦ rw (there, ensure_shard_chain_from_env) h
        | inr missing ↦ rw (missing, ensure_shard_chain_from_env) with_new
      ]
    where
      with_new :
          IsConsistent lib
            (record db { chains = db.chains ++ new_chains env shard id db.environments })
      with_new c m = elim (Elem-append_cases c db.chains _ m) [
        | inl old ↦ h c old
        | inr new ↦
            let (same, p, t) = new_chains-fresh env shard id db.environments c new in
            empty-IsChain c (chain_rows c.id db.events)
              (ap (λ (i : Text). chain_rows i db.events) same ∙ fresh) p t
      ]

  pub events-ensure :
      (env : Text) (shard : ℕ) (id : Text) (db : Db)
      → (ensure_shard_chain_from_env env shard id db).events ≡ db.events
  unfolding ensure_shard_chain_from_env
  events-ensure env shard id db = ground arith
