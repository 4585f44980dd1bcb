-- ===== src/Migrate.antt =====
-- server/internal/migrate/migrate.go: Up and Down, on the migrations that `Load` returns (sorted by
-- version, one for each version). The database is the table schema_migrations and the SQL texts that
-- were committed, in their order.
pub mod Once
pub mod Undo
use stonewrit.Prelude.{
  ℕ, ◌+◌, List, [], ◌∷◌, ◌++◌, Bool, true, false, not, Option, none, some, Text, codes, str_eq,
  if◌then◌else◌, filter, reverse,
}
use stonewrit.Prelude.Errors.{Error, other, Result, ok, err, wrap}
use stonewrit.Prelude.Int.{ℤ, pos, negsuc, int_eq}
use stonewrit.Core.HashTime.{padded}

pub record Migration : Type 0 where
  pub version : ℤ
  pub name : Text
  pub up_sql : Text
  pub down_sql : Text

pub record Journal : Type 0 where
  pub versions : List ℤ
  pub executed : List Text

-- which steps fail: the two queries in front, and the transaction of a version
pub record World : Type 0 where
  pub ensure_fails : Option Error
  pub read_fails : Option Error
  pub tx_fails : ℤ → Option Error

-- the versions applied, the error, and the database after
pub record Outcome : Type 0 where
  pub applied : List ℤ
  pub error : Option Error
  pub journal : Journal

pub record DownOutcome : Type 0 where
  pub version : ℤ
  pub error : Option Error
  pub journal : Journal

-- `done[v]`
unfoldable pub is_done : List ℤ → ℤ → Bool
is_done [] v = false
is_done (d ∷ done) v = let rest = is_done done v in if int_eq d v then true else rest

-- `%04d_%s`
label : Migration → Text
label m = elim m.version [
  | pos n ↦ padded 4 n ++ (codes "_" ++ m.name)
  | negsuc n ↦ codes "-" ++ (padded 3 (n + 1) ++ (codes "_" ++ m.name))
]

-- applyOne, when its transaction commits
unfoldable pub record_up : Migration → Journal → Journal
record_up m j = record {
  versions = j.versions ++ m.version ∷ [];
  executed = j.executed ++ m.up_sql ∷ [];
}

-- rollbackOne, when its transaction commits
unfoldable pub record_down : Migration → Journal → Journal
record_down m j = record {
  versions = filter (λ v. not (int_eq v m.version)) j.versions;
  executed = j.executed ++ m.down_sql ∷ [];
}

-- the loop of Up; `done` is what was applied before it
unfoldable pub up_loop : World → List ℤ → List Migration → List ℤ → Journal → Outcome
unfolding is_done label record_up
up_loop w done [] applied j = record { applied = applied; error = none; journal = j }
up_loop w done (m ∷ ms) applied j =
    let skipped = up_loop w done ms applied j in
    let next = up_loop w done ms (applied ++ m.version ∷ []) (record_up m j) in
    if is_done done m.version then skipped else elim (w.tx_fails m.version) [
      | some e ↦ record {
        applied = applied;
        error = some (wrap (codes "apply " ++ label m) e);
        journal = j;
      }
      | none ↦ next
    ]

-- ensureTable and appliedVersions
read_done : World → Journal → Result (List ℤ)
read_done w j = elim w.ensure_fails [
  | some e ↦ err (wrap (codes "ensure schema_migrations") e)
  | none ↦ elim w.read_fails [
    | some e ↦ err (wrap (codes "read schema_migrations") e)
    | none ↦ ok j.versions
  ]
]

unfoldable pub up : World → Result (List Migration) → Journal → Outcome
unfolding read_done up_loop
up w (err e) j = record { applied = []; error = some e; journal = j }
up w (ok ms) j = elim (read_done w j) [
  | err e ↦ record { applied = []; error = some e; journal = j }
  | ok done ↦ up_loop w done ms [] j
]

-- the loop of Down, from the newest migration on
unfoldable pub down_loop : World → List ℤ → List Migration → Journal → DownOutcome
unfolding is_done label record_down
down_loop w done [] j = record { version = pos 0; error = none; journal = j }
down_loop w done (m ∷ older) j =
    let skipped = down_loop w done older j in
    if not (is_done done m.version)
    then skipped
    else if str_eq m.down_sql []
    then record {
      version = pos 0;
      error = some (other (codes "migration " ++ (label m ++ codes " has no down file")));
      journal = j;
    }
    else elim (w.tx_fails m.version) [
      | some e ↦ record {
        version = pos 0;
        error = some (wrap (codes "rollback " ++ label m) e);
        journal = j;
      }
      | none ↦ record { version = m.version; error = none; journal = record_down m j }
    ]

unfoldable pub down : World → Result (List Migration) → Journal → DownOutcome
unfolding read_done down_loop
down w (err e) j = record { version = pos 0; error = some e; journal = j }
down w (ok ms) j = elim (read_done w j) [
  | err e ↦ record { version = pos 0; error = some e; journal = j }
  | ok done ↦ down_loop w done (reverse ms) j
]
