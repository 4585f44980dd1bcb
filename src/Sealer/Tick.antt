-- ===== src/Sealer/Tick.antt =====
-- server/internal/sealer/sealer.go: `tick` and the defaults of the sealer's settings. The goroutines of
-- a tick are runs in some order: each run is one transaction, and the order is a part of the world.
use stonewrit.Prelude.{
  ℕ, List, [], ◌∷◌, Option, none, some, Text, take, Bool, ◌&&◌, ◌==◌, str_eq, not, if◌then◌else◌,
  filter,
}
use stonewrit.Prelude.Errors.{Error}
use stonewrit.Db.{PendingEvent, Db}
use stonewrit.Sealer.{World, seal_shard}

pub record ShardRef : Type 0 where
  pub environment_id : Text
  pub shard_index : ℕ

pub record Settings : Type 0 where
  pub batch_size : ℕ
  pub poll_period : ℕ
  pub max_work : ℕ
  pub concurrency : ℕ

or_default : ℕ → ℕ → ℕ
or_default n d = if n == 0 then d else n

-- the settings are not negative, and a period is in nanoseconds
unfoldable pub defaults : Settings → Settings
unfolding or_default
defaults s = record {
  batch_size = or_default s.batch_size 1000;
  poll_period = or_default s.poll_period 100000000;
  max_work = or_default s.max_work 256;
  concurrency = or_default s.concurrency 8;
}

-- The query that lists the shards, the order in which PostgreSQL returns them, the order in which the
-- goroutines run, and the world of each run.
pub record TickWorld : Type 0 where
  pub list_fails : Option Error
  pub listed : List ShardRef → List ShardRef
  pub scheduled : List ShardRef → List ShardRef
  pub run : ShardRef → World

same_ref : ShardRef → ShardRef → Bool
same_ref a b = str_eq a.environment_id b.environment_id && a.shard_index == b.shard_index

abbrev ref_of : PendingEvent → ShardRef
ref_of p = record { environment_id = p.environment_id; shard_index = p.shard_index }

-- SELECT DISTINCT
shards_of : List PendingEvent → List ShardRef
unfolding same_ref
shards_of [] = []
shards_of (p ∷ ps) = ref_of p ∷ filter (λ r. not (same_ref (ref_of p) r)) (shards_of ps)

unfoldable pub list_shards_with_pending : TickWorld → ℕ → Db → List ShardRef
unfolding shards_of
list_shards_with_pending w limit db = take limit (w.listed (shards_of db.pending))

-- the world of the run on a shard, with the sealer's settings
abbrev pub run_of : TickWorld → Settings → ShardRef → World
run_of w s r = record (w.run r) { batch_size = (defaults s).batch_size }

-- the runs, one after the other; the error of a run is logged
unfoldable pub seal_all : (ShardRef → World) → List ShardRef → Db → Db
seal_all run [] db = db
seal_all run (r ∷ rs) db = seal_all run rs (seal_shard (run r) r.environment_id r.shard_index db).db

unfoldable pub tick : TickWorld → Settings → Db → Db
unfolding list_shards_with_pending seal_all defaults
tick w s db = elim w.list_fails [
  | some e ↦ db
  | none ↦
      seal_all (run_of w s) (w.scheduled (list_shards_with_pending w (defaults s).max_work db)) db
]
