-- ===== src/Sealer/Tables.antt =====
-- Lemmas on the tables: what the queries of the sealer keep and change.
use stonewrit.Prelude.{
  ℕ, zero, suc, take, ◌≤◌, ◌≡◌, ◌≢◌, refl, ap, ◌∙◌, ◌⊎◌, inl, inr, Bool, true, false, Bool-cases,
  none, some, List, [], ◌∷◌, ◌++◌, filter, length, Text, str_eq, str_eq_iff, Elem, arith,
  append_assoc, append-nil, All,
}
use stonewrit.Prelude.Errors.{ok}
use stonewrit.Prelude.Int.{ℤ, pos}
use stonewrit.Db.{Environment, Chain, EventRow, Db}
use stonewrit.Db.Queries.{
  lock_shard_chain, drain_pending_for_shard, copy_events, update_shard_tip, any_conflict,
  new_chains, same_shard, find_chain,
}
use stonewrit.Sealer.Row.{null_if_empty}
use stonewrit.Sealer.Invariant.{chain_rows}

-- a successful COPY appends the rows
pub copy_events-eq-ok :
    (table rows table' : List EventRow)
    → copy_events table rows ≡ ok table'
    → table' ≡ table ++ rows
unfolding copy_events
copy_events-eq-ok table [] table' h = cc (append-nil table)
copy_events-eq-ok table (r ∷ rows) table' h = elim (Bool-cases (any_conflict r table)) [
  | inl clash ↦ absurd (refused clash)
  | inr free ↦
      copy_events-eq-ok (table ++ r ∷ []) rows table' (rest free) ∙ append_assoc table (r ∷ []) rows
]
  where
    refused : any_conflict r table ≡ true → ⊥
    refused clash = ground arith

    rest : any_conflict r table ≡ false → copy_events (table ++ r ∷ []) rows ≡ ok table'
    rest free = ground arith

pub filter-append :
    (p : EventRow → Bool) (xs ys : List EventRow) → filter p (xs ++ ys) ≡ filter p xs ++ filter p ys
filter-append p [] ys = refl
filter-append p (x ∷ xs) ys = ground (arith, filter-append p xs ys)

pub filter_owned :
    (id : Text) (rows : List EventRow)
    → All (λ (r : EventRow). r.chain_id ≡ id) rows
    → chain_rows id rows ≡ rows
filter_owned id [] h = refl
filter_owned id (r ∷ rows) (e, h) = rw ((str_eq_iff r.chain_id id).1 e, filter_owned id rows h)

pub filter_foreign :
    (id other : Text) (rows : List EventRow)
    → str_eq other id ≡ false
    → All (λ (r : EventRow). r.chain_id ≡ other) rows
    → chain_rows id rows ≡ []
filter_foreign id other [] ne h = refl
filter_foreign id other (r ∷ rows) ne (e, h) = rw (e, ne) (filter_foreign id other rows ne h)

-- a row of the chains table after UpdateShardTip
pub Elem-update_shard_tip :
    (id : Text) (position : ℤ) (hash : Text) (c' : Chain) (cs : List Chain)
    → Elem c' (update_shard_tip id position hash cs)
    → (c : Chain) × Elem c cs
      × (((str_eq c.id id ≡ false) × (c' ≡ c))
          ⊎ ((c.id ≡ id)
              × (c' ≡ record c { latest_position = position; latest_event_hash = some hash })))
unfolding update_shard_tip
Elem-update_shard_tip id position hash c' [] m = elim m [ ]
Elem-update_shard_tip id position hash c' (c ∷ cs) m = elim (Bool-cases (str_eq c.id id)) [
  | inl same ↦ elim (at_same same m) [
    | inl here ↦ (c, inl refl, inr ((str_eq_iff c.id id).0 same, here))
    | inr later ↦
        let (d, k, r) = Elem-update_shard_tip id position hash c' cs later in (d, inr k, r)
  ]
  | inr ne ↦ elim (at_other ne m) [
    | inl here ↦ (c, inl refl, inl (ne, here))
    | inr later ↦
        let (d, k, r) = Elem-update_shard_tip id position hash c' cs later in (d, inr k, r)
  ]
]
  where
    at_same :
        str_eq c.id id ≡ true
        → Elem c' (update_shard_tip id position hash (c ∷ cs))
        → (c' ≡ record c { latest_position = position; latest_event_hash = some hash })
          ⊎ Elem c' (update_shard_tip id position hash cs)
    at_same same m = rw same at m

    at_other :
        str_eq c.id id ≡ false
        → Elem c' (update_shard_tip id position hash (c ∷ cs))
        → (c' ≡ c) ⊎ Elem c' (update_shard_tip id position hash cs)
    at_other ne m = rw ne at m

pub null_if_empty-some : (s : Text) → s ≢ [] → null_if_empty s ≡ some s
unfolding null_if_empty
null_if_empty-some [] h = absurd (h refl)
null_if_empty-some (c ∷ s) h = refl

-- the rows of a chain after a batch of rows of chain `owner`
pub rows_same :
    (owner : Text) (events rows : List EventRow)
    → All (λ (r : EventRow). r.chain_id ≡ owner) rows
    → chain_rows owner (events ++ rows) ≡ chain_rows owner events ++ rows
rows_same owner events rows h =
    filter-append (λ (r : EventRow). str_eq r.chain_id owner) events rows
    ∙ ap (λ (rs : List EventRow). chain_rows owner events ++ rs) (filter_owned owner rows h)

pub rows_other :
    (owner id : Text) (events rows : List EventRow)
    → str_eq id owner ≡ false
    → All (λ (r : EventRow). r.chain_id ≡ owner) rows
    → chain_rows id (events ++ rows) ≡ chain_rows id events
rows_other owner id events rows ne h =
    filter-append (λ (r : EventRow). str_eq r.chain_id id) events rows
    ∙ ap (λ (rs : List EventRow). chain_rows id events ++ rs)
        (filter_foreign id owner rows (flip ne) h)
    ∙ append-nil (chain_rows id events)
  where
    flip : str_eq id owner ≡ false → str_eq owner id ≡ false
    flip ne = ground (arith, str_eq_iff id owner, str_eq_iff owner id)

pub length-filter-le : {A : Type 0} (p : A → Bool) (xs : List A) → length (filter p xs) ≤ length xs
length-filter-le p [] = omega arith
length-filter-le p (x ∷ xs) = ground (arith, length-filter-le p xs)

pub length-take-le : {A : Type 0} (n : ℕ) (xs : List A) → length (take n xs) ≤ n
length-take-le zero xs = omega arith
length-take-le (suc n) [] = omega arith
length-take-le (suc n) (x ∷ xs) = omega (arith, length-take-le n xs)

pub length-drain :
    (env : Text) (shard n : ℕ) (db : Db) → length (drain_pending_for_shard env shard n db) ≤ n
unfolding drain_pending_for_shard
length-drain env shard n db = length-take-le n _

-- the claimed row is a row of the table
pub lock_shard_chain-Elem :
    (busy : Bool) (env : Text) (shard : ℕ) (db : Db) (c : Chain)
    → lock_shard_chain busy env shard db ≡ some c
    → Elem c db.chains
unfolding lock_shard_chain
lock_shard_chain-Elem true env shard db c h = cc
lock_shard_chain-Elem false env shard db c h = found db.chains c h
  where
    found :
        (cs : List Chain) (c : Chain) → find_chain (same_shard env shard) cs ≡ some c → Elem c cs
    found [] c h = cc
    found (d ∷ cs) c h = ground (arith, found cs c)

-- and it is the shard's
pub lock_shard_chain-environment :
    (busy : Bool) (env : Text) (shard : ℕ) (db : Db) (c : Chain)
    → lock_shard_chain busy env shard db ≡ some c
    → c.environment_id ≡ env
unfolding lock_shard_chain
lock_shard_chain-environment true env shard db c h = cc
lock_shard_chain-environment false env shard db c h = found db.chains c h
  where
    found :
        (cs : List Chain) (c : Chain)
        → find_chain (same_shard env shard) cs ≡ some c
        → c.environment_id ≡ env
    found [] c h = cc
    found (d ∷ cs) c h =
        unfold same_shard in ground (arith, found cs c, str_eq_iff d.environment_id env)

-- a row that INSERT ... SELECT makes has no events yet, and the tip of an empty chain
pub new_chains-fresh :
    (env : Text) (shard : ℕ) (id : Text) (es : List Environment) (c : Chain)
    → Elem c (new_chains env shard id es)
    → (c.id ≡ id) × (c.latest_position ≡ pos 0) × (c.latest_event_hash ≡ none)
unfolding new_chains
new_chains-fresh env shard id [] c h = elim h [ ]
new_chains-fresh env shard id (e ∷ es) c h = ground (arith, new_chains-fresh env shard id es c)

pub Elem-append_cases :
    {A : Type 0} (x : A) (xs ys : List A) → Elem x (xs ++ ys) → Elem x xs ⊎ Elem x ys
Elem-append_cases x [] ys h = inr h
Elem-append_cases x (y ∷ xs) ys (inl e) = inl (inl e)
Elem-append_cases x (y ∷ xs) ys (inr h) = elim (Elem-append_cases x xs ys h) [
  | inl m ↦ inl (inr m)
  | inr m ↦ inr m
]

pub List-cases : {A : Type 0} (xs : List A) → (xs ≡ []) ⊎ ((x : A) × (ys : List A) × (xs ≡ x ∷ ys))
List-cases [] = inl refl
List-cases (x ∷ xs) = inr (x, xs, refl)
