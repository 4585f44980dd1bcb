-- ===== src/Sealer/Invariant.antt =====
-- The invariant of the journal: each chain's rows link up from genesis, are numbered from 1, and end
-- in the tip that the chain's row records.
use stonewrit.Prelude.{
  ℕ, suc, ◌+◌, ◌<◌, ◌^◌, ◌≡◌, refl, none, List, [], ◌∷◌, map, filter, length, Text, str_eq, Elem,
  arith,
}
use stonewrit.Prelude.Int.{pos, succ_int64}
use stonewrit.Json.{JsonLib}
use stonewrit.Core.Verify.{Record, text_or_empty}
use stonewrit.Core.Verify.Walk.{Extend, Follows, end_tip}
use stonewrit.Db.{Chain, EventRow, Db}
use stonewrit.Sealer.Row.{null_if_empty}
use stonewrit.Sealer.{Item}

-- a row of `events` as the verifier reads it, without its content
abbrev pub row_record : EventRow → Record
row_record r = record {
  previous_event_hash = r.previous_event_hash;
  payload_hash = r.payload_hash;
  event_hash = r.event_hash;
  chain_position = r.chain_position;
  content = none;
}

abbrev pub row_records : List EventRow → List Record
row_records = map row_record

-- the rows of one chain, in the order of the table
abbrev pub chain_rows : Text → List EventRow → List EventRow
chain_rows id events = filter (λ r. str_eq r.chain_id id) events

-- the positions are n, n + 1, …
abbrev pub Numbered : ℕ → List EventRow → Type 0
Numbered n [] = Unit
Numbered n (r ∷ rs) = (r.chain_position ≡ pos n) × Numbered (suc n) rs

-- every row names its predecessor's hash, nil for none
abbrev pub Named : Text → List EventRow → Type 0
Named prev [] = Unit
Named prev (r ∷ rs) = (r.previous_event_hash ≡ null_if_empty prev) × Named r.event_hash rs

pub record IsChain (lib : JsonLib) (c : Chain) (rows : List EventRow) : Type 0 where
  pub linked : Extend lib [] (row_records rows)
  pub numbered : Numbered 1 rows
  pub named : Named [] rows
  pub tip : c.latest_event_hash ≡ null_if_empty (end_tip lib [] (row_records rows))
  pub position : c.latest_position ≡ pos (length rows)

-- every chain of the database is one
abbrev pub IsConsistent : JsonLib → Db → Type 0
IsConsistent lib db = (c : Chain) → Elem c db.chains → IsChain lib c (chain_rows c.id db.events)

pub Follows-null_if_empty : (prev : Text) → Follows prev (null_if_empty prev)
unfolding null_if_empty
Follows-null_if_empty [] = tt
Follows-null_if_empty (c ∷ s) = refl

pub text_or_empty-null_if_empty : (s : Text) → text_or_empty (null_if_empty s) ≡ s
unfolding text_or_empty null_if_empty
text_or_empty-null_if_empty [] = refl
text_or_empty-null_if_empty (c ∷ s) = refl

pub succ_int64_lem : (n : ℕ) → n + 1 < 2 ^ 63 → succ_int64 (pos n) ≡ pos (suc n)
unfolding succ_int64
succ_int64_lem n h = ground arith

abbrev pub rows_of : List Item → List EventRow
rows_of = map (λ i. i.row)
