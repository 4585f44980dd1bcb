-- ===== src/Tests/Migrating.antt =====
-- Runs of the migrations.
use stonewrit.Prelude.{◌≡◌, refl, [], ◌∷◌, ◌++◌, codes, none, some, true, false, str_eq}
use stonewrit.Prelude.Errors.{other, ok}
use stonewrit.Prelude.Int.{pos, int_eq}
use stonewrit.Migrate.{Migration, Journal, World, Outcome, is_done, up, down}
use stonewrit.Migrate.Undo.{down_undoes_up}
use stonewrit.Migrate.Once.{up-versions, up_twice}

abbrev core_ingest : Migration
core_ingest = record {
  version = pos 1;
  name = codes "core_ingest";
  up_sql = codes "CREATE TABLE events";
  down_sql = codes "DROP TABLE events";
}

abbrev agents : Migration
agents = record {
  version = pos 2;
  name = codes "agents";
  up_sql = codes "CREATE TABLE agents";
  down_sql = [];
}

abbrev healthy : World
healthy = record { ensure_fails = none; read_fails = none; tx_fails = λ v. none }

abbrev broken : World
broken = record healthy { tx_fails = λ v. some (other (codes "connection lost")) }

-- the first migration was applied before
abbrev half_done : Journal
half_done = record { versions = pos 1 ∷ []; executed = codes "CREATE TABLE events" ∷ [] }

second_applied : (up healthy (ok (core_ingest ∷ agents ∷ [])) half_done).applied ≡ pos 2 ∷ []
unfolding up int_eq
second_applied = refl

no_error : (up healthy (ok (core_ingest ∷ agents ∷ [])) half_done).error ≡ none
unfolding up int_eq
no_error = refl

up-versions_example :
    (up healthy (ok (core_ingest ∷ agents ∷ [])) half_done).journal.versions
    ≡ (pos 1 ∷ []) ++ (up healthy (ok (core_ingest ∷ agents ∷ [])) half_done).applied
up-versions_example = up-versions healthy (core_ingest ∷ agents ∷ []) half_done refl refl

up_twice_example :
    up broken
      (ok (core_ingest ∷ agents ∷ []))
      (up healthy (ok (core_ingest ∷ agents ∷ [])) half_done).journal
    ≡ record {
      applied = [];
      error = none;
      journal = (up healthy (ok (core_ingest ∷ agents ∷ [])) half_done).journal;
    }
up_twice_example =
    up_twice healthy broken (core_ingest ∷ agents ∷ []) half_done refl refl refl refl no_error

-- the newest migration, with a down file
abbrev dropped_agents : Migration
dropped_agents = record agents { down_sql = codes "DROP TABLE agents" }

older_done : is_done half_done.versions (pos 1) ≡ true
unfolding is_done int_eq
older_done = refl

newest_new : is_done half_done.versions (pos 2) ≡ false
unfolding is_done int_eq
newest_new = refl

has_down : str_eq dropped_agents.down_sql [] ≡ false
unfolding str_eq
has_down = refl

abbrev upgraded : Outcome
upgraded = up healthy (ok (core_ingest ∷ dropped_agents ∷ [])) half_done

down_undoes_up_example :
    (upgraded.applied ≡ pos 2 ∷ [])
    × ((down healthy (ok (core_ingest ∷ dropped_agents ∷ [])) upgraded.journal).version ≡ pos 2)
    × ((down healthy (ok (core_ingest ∷ dropped_agents ∷ [])) upgraded.journal).journal.versions
        ≡ pos 1 ∷ [])
down_undoes_up_example =
    down_undoes_up healthy (core_ingest ∷ []) dropped_agents half_done refl refl refl
      (older_done, tt) newest_new has_down
