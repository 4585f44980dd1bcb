-- ===== src/Db/Queries.antt =====
-- The queries that the sealer makes.
use stonewrit.Prelude.{
  ℕ, List, [], ◌∷◌, ◌++◌, Bool, true, false, not, ◌&&◌, ◌||◌, Option, none, some, Text, codes,
  str_eq, str_leb, contains, filter, take, if◌then◌else◌, ◌==◌, ltb,
}
use stonewrit.Prelude.Errors.{other, Result, ok, err}
use stonewrit.Prelude.Int.{ℤ, pos}
use stonewrit.Prelude.Sort.{sort_by}
use stonewrit.Crypto.Encoding.{format_nat}
use stonewrit.Db.{Environment, Chain, PendingEvent, EventRow, Db}

unfoldable pub same_shard : Text → ℕ → Chain → Bool
same_shard env shard c = str_eq c.environment_id env && c.shard_index == shard

unfoldable pub any_chain : (Chain → Bool) → List Chain → Bool
any_chain p [] = false
any_chain p (c ∷ cs) = p c || any_chain p cs

-- the rows that `INSERT ... SELECT ... FROM environments e WHERE e.id = $1` makes
unfoldable pub new_chains : Text → ℕ → Text → List Environment → List Chain
new_chains env shard new_id [] = []
new_chains env shard new_id (e ∷ es) =
    let rest = new_chains env shard new_id es in
    if str_eq e.id env
    then record {
      id = new_id;
      organization_id = e.organization_id;
      project_id = e.project_id;
      environment_id = e.id;
      shard_index = shard;
      name = codes "shard-" ++ format_nat shard;
      status = codes "active";
      latest_position = pos 0;
      latest_event_hash = none;
    }
      ∷ rest
    else rest

-- EnsureShardChainFromEnv; `new_id` is what gen_random_uuid() returns. ON CONFLICT DO NOTHING.
unfoldable pub ensure_shard_chain_from_env : Text → ℕ → Text → Db → Db
unfolding same_shard any_chain new_chains
ensure_shard_chain_from_env env shard new_id db =
    if any_chain (same_shard env shard) db.chains
    then db
    else record db { chains = db.chains ++ new_chains env shard new_id db.environments }

unfoldable pub find_chain : (Chain → Bool) → List Chain → Option Chain
find_chain p [] = none
find_chain p (c ∷ cs) = let rest = find_chain p cs in if p c then some c else rest

-- LockShardChain; with the row locked by another transaction, SKIP LOCKED returns no row
unfoldable pub lock_shard_chain : Bool → Text → ℕ → Db → Option Chain
unfolding same_shard find_chain
lock_shard_chain true env shard db = none
lock_shard_chain false env shard db = find_chain (same_shard env shard) db.chains

-- ORDER BY accepted_at ASC, id ASC
unfoldable pub accepted_before : PendingEvent → PendingEvent → Bool
accepted_before a b =
    ltb a.accepted_at b.accepted_at || (a.accepted_at == b.accepted_at && str_leb a.id b.id)

unfoldable pub in_shard : Text → ℕ → PendingEvent → Bool
in_shard env shard p = str_eq p.environment_id env && p.shard_index == shard

unfoldable pub drain_pending_for_shard : Text → ℕ → ℕ → Db → List PendingEvent
unfolding accepted_before in_shard sort_by
drain_pending_for_shard env shard limit db =
    take limit (sort_by accepted_before (filter (in_shard env shard) db.pending))

-- ExistingExternalEventIDs, without its nulls, which the caller skips
unfoldable pub existing_in : Text → List Text → List EventRow → List Text
existing_in env candidates [] = []
existing_in env candidates (e ∷ es) =
    let rest = existing_in env candidates es in
    elim e.external_event_id [
      | none ↦ rest
      | some x ↦ if str_eq e.environment_id env && contains candidates x then x ∷ rest else rest
    ]

unfoldable pub same_external : Option Text → Option Text → Bool
same_external (some x) (some y) = str_eq x y
same_external _ _ = false

-- the primary key, and the unique index on (environment_id, external_event_id)
unfoldable pub conflicts : EventRow → EventRow → Bool
unfolding same_external
conflicts a b =
    str_eq a.id b.id
    || (str_eq a.environment_id b.environment_id
        && same_external a.external_event_id b.external_event_id)

unfoldable pub any_conflict : EventRow → List EventRow → Bool
unfolding conflicts
any_conflict r [] = false
any_conflict r (e ∷ es) = conflicts r e || any_conflict r es

-- COPY into `events`: all the rows, or an error at the first one that breaks a unique constraint
unfoldable pub copy_events : List EventRow → List EventRow → Result (List EventRow)
unfolding any_conflict
copy_events table [] = ok table
copy_events table (r ∷ rows) =
    let rest = copy_events (table ++ r ∷ []) rows in
    if any_conflict r table then err (other (codes "unique_violation")) else rest

-- UpdateShardTip
unfoldable pub update_shard_tip : Text → ℤ → Text → List Chain → List Chain
update_shard_tip id position hash [] = []
update_shard_tip id position hash (c ∷ cs) =
    let rest = update_shard_tip id position hash cs in
    if str_eq c.id id
    then record c { latest_position = position; latest_event_hash = some hash } ∷ rest
    else c ∷ rest

-- DeletePendingByIds
unfoldable pub delete_pending_by_ids : List Text → List PendingEvent → List PendingEvent
delete_pending_by_ids ids rows = filter (λ p. not (contains ids p.id)) rows
