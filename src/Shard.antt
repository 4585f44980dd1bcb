-- ===== src/Shard.antt =====
-- server/internal/shard/shard.go: the shard that a key goes to.
use Prim.Native.Nat.{bit_xor}
use stonewrit.Prelude.{ℕ, ◌*◌, ◌%◌, ◌^◌, ◌<◌, [], ◌∷◌, Text, if◌then◌else◌, ◌==◌, arith}

-- DefaultCount
abbrev pub default_count : ℕ
default_count = 8

-- hash/fnv, New32a
fnv32a : ℕ → Text → ℕ
fnv32a h [] = h
fnv32a h (c ∷ key) = fnv32a (bit_xor h c * 16777619 % 2 ^ 32) key

-- `count <= 0` means the default; a count here is at least 0
abbrev pub effective : ℕ → ℕ
effective count = if count == 0 then default_count else count

-- `rand n` is what rand.IntN(n) returns. A count is below 2^32, as `uint32(count)` keeps it.
unfoldable pub index_for : (ℕ → ℕ) → Text → ℕ → ℕ
unfolding fnv32a
index_for rand [] count = rand (effective count)
index_for rand (c ∷ key) count = fnv32a 2166136261 (c ∷ key) % (effective count % 2 ^ 32)

-- With a random source that keeps below its bound, and a count below 2^32, every key goes to one of
-- the shards that there are.
pub index_for-lt :
    (rand : ℕ → ℕ) (key : Text) (count : ℕ)
    → ((n : ℕ) → 0 < n → rand n < n)
    → count < 2 ^ 32
    → index_for rand key count < effective count
unfolding index_for
index_for-lt rand [] count h small = h (effective count) (ground arith)
index_for-lt rand (c ∷ key) count h small = ground arith
