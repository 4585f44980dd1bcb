-- ===== src/ChainsRoute/Accepts.antt =====
-- What the endpoint's verdict says, and that it passes every chain that the sealer wrote.
use stonewrit.Prelude.{
  ℕ, zero, suc, ◌+◌, ◌≤◌, ◌≡◌, ◌≢◌, refl, ap, ◌∙◌, inl, inr, ◌↔◌, Bool, true, false, ◌&&◌, ◌||◌,
  Option-cases, Option, none, some, List, [], ◌∷◌, length, Text, str_eq_iff, take, Elem, arith,
}
use stonewrit.Prelude.Int.{pos, int_leb, int_leb_of_le, int_eq_iff}
use stonewrit.Prelude.Sort.{IsSorted, sort_by_of_IsSorted}
use stonewrit.Json.{JsonLib}
use stonewrit.Core.Hash.{event_hash}
use stonewrit.Core.Hash.Injective.{IsHash-ne-nil}
use stonewrit.Core.Verify.{text_or_empty, verify_chain}
use stonewrit.Core.Verify.Walk.{Extend, end_tip, verify_chain_iff}
use stonewrit.Core.Verify.Suffix.{end_tip-IsHash}
use stonewrit.Db.{Chain, EventRow, Db}
use stonewrit.Sealer.Row.{null_if_empty}
use stonewrit.Sealer.Invariant.{
  row_record, row_records, chain_rows, Numbered, Named, IsChain, IsConsistent,
  text_or_empty-null_if_empty,
}
use stonewrit.ChainsRoute.{
  sync_limit, row_break, walk_rows, last_row_hash, tip_ok, is_nil, no_break, no_rows_left,
  verify_rows, by_position, walk_chain_for_verify, verify_chain_row,
}

module _ (lib : JsonLib) where
  -- the stored rows link up and name their predecessors, nil for none
  abbrev pub Linked : Text → List EventRow → Type 0
  Linked prev [] = Unit
  Linked prev (r ∷ rs) =
      (text_or_empty r.previous_event_hash ≡ prev)
      × (event_hash prev r.payload_hash r.chain_position ≡ r.event_hash)
      × Linked r.event_hash rs

  row_break_iff :
      (prev : Text) (r : EventRow)
      → (row_break prev r ≡ none) ↔ (
          (text_or_empty r.previous_event_hash ≡ prev)
          × (event_hash prev r.payload_hash r.chain_position ≡ r.event_hash))
  unfolding row_break
  row_break_iff prev r = ground (
    arith,
    str_eq_iff (text_or_empty r.previous_event_hash) prev,
    str_eq_iff (event_hash prev r.payload_hash r.chain_position) r.event_hash,
  )

  walk_rows_iff :
      (prev : Text) (n : ℕ) (rs : List EventRow)
      → (no_break (walk_rows prev n rs).0 ≡ true) ↔ Linked prev rs
  unfolding walk_rows no_break
  walk_rows_iff prev n [] = (λ _. tt, λ _. refl)
  walk_rows_iff prev n (r ∷ rs) = elim (Option-cases (row_break prev r)) [
    | inl fine ↦
        let (p, q) = (row_break_iff prev r).0 fine in
        let (to, from) = walk_rows_iff r.event_hash (n + 1) rs in
        rw (fine, walk_rows) (λ h. (p, q, to h), λ h. from h.2)
    | inr (b, broken) ↦
        rw (broken, walk_rows) (λ h. cc, λ h. cc ((row_break_iff prev r).1 (h.0, h.1)))
  ]

  last_row_hash_lem :
      (prev : Text) (r : EventRow) (rs : List EventRow)
      → last_row_hash (r ∷ rs) ≡ some (end_tip lib prev (row_records (r ∷ rs)))
  unfolding last_row_hash
  last_row_hash_lem prev r [] = refl
  last_row_hash_lem prev r (s ∷ rs) = last_row_hash_lem r.event_hash s rs

  tip_ok_iff : (t : Option Text) (h : Text) → (tip_ok t (some h) ≡ true) ↔ (t ≡ some h)
  unfolding tip_ok
  tip_ok_iff none h = (λ e. cc, λ e. cc)
  tip_ok_iff (some t) h = ground (arith, str_eq_iff t h)

  is_nil_iff : (t : Option Text) → (is_nil t ≡ true) ↔ (t ≡ none)
  unfolding is_nil
  is_nil_iff none = (λ _. refl, λ _. refl)
  is_nil_iff (some t) = (λ e. cc, λ e. cc)

  -- what a valid chain is to the endpoint
  abbrev pub Accepted : Chain → List EventRow → Type 0
  Accepted c [] = (c.latest_position ≡ pos 0) × (c.latest_event_hash ≡ none)
  Accepted c (r ∷ rs) =
      Linked [] (r ∷ rs) × (c.latest_event_hash ≡ some (end_tip lib [] (row_records (r ∷ rs))))

  -- The endpoint calls rows valid exactly when they link up from genesis to the recorded tip, or there
  -- are none and the chain's row records position 0 and no tip.
  pub verify_rows_iff :
      (c : Chain) (rows : List EventRow) → ((verify_rows c rows).valid ≡ true) ↔ Accepted c rows
  unfolding verify_rows
  verify_rows_iff c [] =
      unfold walk_rows no_break no_rows_left in
      ground (arith, int_eq_iff c.latest_position (pos 0), is_nil_iff c.latest_event_hash)
  verify_rows_iff c (r ∷ rs) =
      let (to, from) = walk_rows_iff [] 0 (r ∷ rs) in
      let (tip_to, tip_from) =
        tip_ok_iff c.latest_event_hash (end_tip lib [] (row_records (r ∷ rs))) in
      rw (last_row_hash_lem [] r rs) (
        unfold no_rows_left in
        (
          λ h. let (a, b) = both (no_break (walk_rows [] 0 (r ∷ rs)).0) _ h in (to a, tip_to b),
          λ h. rw (from h.0, tip_from h.1) refl,
        ))
    where
      both : (a b : Bool) → (a && (false || (true && (a && b)))) ≡ true → (a ≡ true) × (b ≡ true)
      both true true h = (refl, refl)
      both true false h = cc
      both false b h = cc

  Linked-of_Extend :
      (prev : Text) (rows : List EventRow)
      → Extend lib prev (row_records rows)
      → Named prev rows
      → Linked prev rows
  Linked-of_Extend prev [] h n = tt
  Linked-of_Extend prev (r ∷ rs) ((_, e, _), h) (e', n) = (
    ap text_or_empty e' ∙ text_or_empty-null_if_empty prev,
    e,
    Linked-of_Extend r.event_hash rs h n,
  )

  Numbered-IsSorted : (n : ℕ) (rows : List EventRow) → Numbered n rows → IsSorted by_position rows
  unfolding by_position int_leb
  Numbered-IsSorted n [] h = tt
  Numbered-IsSorted n (r ∷ []) h = tt
  Numbered-IsSorted n (r ∷ s ∷ rs) (e, h) =
      (rw (e, h.0) (ground arith), Numbered-IsSorted (suc n) (s ∷ rs) h)

  take_of_length-le : (n : ℕ) (rows : List EventRow) → length rows ≤ n → take n rows ≡ rows
  take_of_length-le zero [] h = refl
  take_of_length-le zero (r ∷ rs) h = absurd (omega arith)
  take_of_length-le (suc n) [] h = refl
  take_of_length-le (suc n) (r ∷ rs) h = ap (◌∷◌ r) (take_of_length-le n rs (omega arith))

  pub IsChain-Accepted : (c : Chain) (rows : List EventRow) → IsChain lib c rows → Accepted c rows
  IsChain-Accepted c [] h = unfold null_if_empty in (h.position, h.tip)
  IsChain-Accepted c (r ∷ rs) h = (
    Linked-of_Extend [] (r ∷ rs) h.linked h.named,
    h.tip
        ∙ some_of_ne _
            (IsHash-ne-nil _ (end_tip-IsHash lib [] (row_record r) (row_records rs) h.linked)),
  )
    where
      some_of_ne : (s : Text) → s ≢ [] → null_if_empty s ≡ some s
      some_of_ne [] ne = absurd (ne refl)
      some_of_ne (x ∷ s) ne = unfold null_if_empty in refl

  -- Every chain of a consistent database passes: the endpoint finds it valid, unless it has more events
  -- than the endpoint walks, and the core verifier accepts its rows in their order.
  pub consistent_chain_verifies :
      (db : Db) (c : Chain)
      → IsConsistent lib db
      → Elem c db.chains
      → length (chain_rows c.id db.events) ≤ sync_limit
      → ((verify_chain_row c db).valid ≡ true)
        × ((verify_chain lib (row_records (walk_chain_for_verify c.id sync_limit db))).valid ≡ true)
  consistent_chain_verifies db c h m few =
      let chain = h c m in
      let rows = chain_rows c.id db.events in
      let walked : walk_chain_for_verify c.id sync_limit db ≡ rows =
        all_walked c db (Numbered-IsSorted 1 rows chain.numbered) few in
      (
        passes c db few chain.position
            (rw walked ((verify_rows_iff c rows).1 (IsChain-Accepted c rows chain))),
        rw walked ((verify_chain_iff lib (row_records rows)).1 chain.linked),
      )
    where
      all_walked :
          (c : Chain) (db : Db)
          → IsSorted by_position (chain_rows c.id db.events)
          → length (chain_rows c.id db.events) ≤ sync_limit
          → walk_chain_for_verify c.id sync_limit db ≡ chain_rows c.id db.events
      all_walked c db s few =
          unfold walk_chain_for_verify in
          rw (sort_by_of_IsSorted by_position (chain_rows c.id db.events) s)
            (take_of_length-le sync_limit (chain_rows c.id db.events) few)

      passes :
          (c : Chain) (db : Db)
          → length (chain_rows c.id db.events) ≤ sync_limit
          → c.latest_position ≡ pos (length (chain_rows c.id db.events))
          → (verify_rows c (walk_chain_for_verify c.id sync_limit db)).valid ≡ true
          → (verify_chain_row c db).valid ≡ true
      passes c db few p v =
          let small : int_leb c.latest_position (pos sync_limit) ≡ true =
            rw p (int_leb_of_le (length (chain_rows c.id db.events)) sync_limit few) in
          unfold verify_chain_row in rw (small, verify_chain_row) v
