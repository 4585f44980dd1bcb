-- ===== src/Sealer/Batches.antt =====
-- The rows that the sealer builds for a batch continue a chain.
use native.Mathlib.Nat.{add-zero}
use stonewrit.Prelude.{
  ℕ, suc, ◌+◌, ◌<◌, ◌^◌, ◌≡◌, refl, sym, ap, ◌∙◌, Option, none, some, List, [], ◌∷◌, ◌++◌, map,
  length, length-append, Text, codes, arith, All,
}
use stonewrit.Prelude.Errors.{ok, >>=-eq-ok}
use stonewrit.Prelude.Int.{ℤ, pos, succ_int64}
use stonewrit.Json.{JsonLib}
use stonewrit.Core.Hash.{event_hash}
use stonewrit.Core.Verify.{text_or_empty}
use stonewrit.Core.Verify.Walk.{Extend, end_tip}
use stonewrit.Core.Verify.Suffix.{Extend-append, end_tip-append}
use stonewrit.Db.{Chain, PendingEvent, EventDataEnvelope, EventRow}
use stonewrit.Classify.{Classification}
use stonewrit.Classify.MapControls.{Mapping}
use stonewrit.Sealer.Row.{null_if_empty, build_event_row}
use stonewrit.Sealer.{Item, build_items, decoded, final_hash, final_position}
use stonewrit.Sealer.Invariant.{
  row_record, row_records, Numbered, Named, IsChain, Follows-null_if_empty,
  text_or_empty-null_if_empty, succ_int64_lem, rows_of,
}

decoded-eq-ok :
    {A : Type 0} (what : Text) (i : ℕ) (o : Option A) (a : A) → decoded what i o ≡ ok a → o ≡ some a
unfolding decoded
decoded-eq-ok what i none a h = cc
decoded-eq-ok what i (some b) a h = cc

suc_shift : (n k : ℕ) → n + suc k ≡ suc n + k
suc_shift n k = omega arith

one_more : (k : ℕ) → suc k ≡ 1 + k
one_more k = omega arith

module _ (locked : Chain) where
  -- the item that the loop builds for a row
  abbrev pub item_of :
      PendingEvent → EventDataEnvelope → Classification → List Mapping → ℤ → Text → Item
  item_of p env cl ms position prev = record {
    pending = p;
    classification = cl;
    mappings = ms;
    row =
        build_event_row p env locked.id locked.project_id position prev
          (event_hash prev p.payload_hash position) cl;
  }

  -- a successful loop decoded its first row and built the others
  pub build_items-cons :
      (i : ℕ) (prev : Text) (position : ℤ) (p : PendingEvent) (kept : List PendingEvent)
      (items : List Item)
      → build_items locked i prev position (p ∷ kept) ≡ ok items
      → (env : EventDataEnvelope) × (cl : Classification) × (ms : List Mapping) × (rest : List Item)
        × (p.event_data ≡ some env)
        × (build_items locked
              (i + 1)
              (event_hash prev p.payload_hash position)
              (succ_int64 position)
              kept
            ≡ ok rest)
        × (item_of p env cl ms position prev ∷ rest ≡ items)
  unfolding build_items
  build_items-cons i prev position p kept items e =
      let (env, e1, f1) =
        >>=-eq-ok (decoded (codes "decode pending event_data") i p.event_data) _ e in
      let (cl, e2, f2) =
        >>=-eq-ok (decoded (codes "decode classification") i p.classification) _ f1 in
      let (ms, e3, f3) =
        >>=-eq-ok (decoded (codes "decode control_mappings") i p.control_mappings) _ f2 in
      let (rest, e4, f4) =
        >>=-eq-ok
          (build_items locked (i + 1) (event_hash prev p.payload_hash position)
            (succ_int64 position) kept)
          _ f3 in
      (
        env,
        cl,
        ms,
        rest,
        decoded-eq-ok (codes "decode pending event_data") i p.event_data env e1,
        e4,
        cc,
      )

module _ (lib : JsonLib) (locked : Chain) where
  -- what the loop builds from a tip `prev` on, at positions from n
  pub record IsBatch (prev : Text) (n : ℕ) (items : List Item) : Type 0 where
    pub linked : Extend lib prev (row_records (rows_of items))
    pub numbered : Numbered n (rows_of items)
    pub named : Named prev (rows_of items)
    pub owned : All (λ (r : EventRow). r.chain_id ≡ locked.id) (rows_of items)

  IsBatch-cons :
      (p : PendingEvent) (env : EventDataEnvelope) (cl : Classification) (ms : List Mapping)
      (prev : Text) (n : ℕ) (rest : List Item)
      → IsBatch (event_hash prev p.payload_hash (pos n)) (suc n) rest
      → IsBatch prev n (item_of locked p env cl ms (pos n) prev ∷ rest)
  unfolding build_event_row
  IsBatch-cons p env cl ms prev n rest b = record {
    linked = ((Follows-null_if_empty prev, refl, tt), b.linked);
    numbered = (refl, b.numbered);
    named = (refl, b.named);
    owned = (refl, b.owned);
  }

  pub build_items-IsBatch :
      (i n : ℕ) (prev : Text) (kept : List PendingEvent) (items : List Item)
      → n + length kept < 2 ^ 63
      → build_items locked i prev (pos n) kept ≡ ok items
      → IsBatch prev n items × (map (λ (j : Item). j.pending) items ≡ kept)
  build_items-IsBatch i n prev [] items h e =
      let nothing : [] ≡ items = unfold build_items in cc in
      rw (← nothing) (record { linked = tt; numbered = tt; named = tt; owned = tt }, refl)
  build_items-IsBatch i n prev (p ∷ kept) items h e =
      let (env, cl, ms, rest, _, more, here) =
        build_items-cons locked i prev (pos n) p kept items e in
      let (b, same) =
        build_items-IsBatch (i + 1) (suc n) (event_hash prev p.payload_hash (pos n)) kept rest
          (omega arith) (rw (succ_int64_lem n (omega arith)) at more) in
      rw (← here) (IsBatch-cons p env cl ms prev n rest b, ap (◌∷◌ p) same)

  -- the tip and the position after the batch
  pub final_hash_lem :
      (prev : Text) (items : List Item)
      → final_hash prev items ≡ end_tip lib prev (row_records (rows_of items))
  unfolding final_hash
  final_hash_lem prev [] = refl
  final_hash_lem prev (i ∷ items) = final_hash_lem i.row.event_hash items

  pub final_position_lem :
      (n : ℕ) (items : List Item)
      → Numbered (suc n) (rows_of items)
      → final_position (pos n) items ≡ pos (n + length (rows_of items))
  unfolding final_position
  final_position_lem n [] h = ap pos (omega arith)
  final_position_lem n (i ∷ items) (h, hs) =
      rw h (final_position_lem (suc n) items hs ∙ ap pos (omega arith))

  pub Numbered-append :
      (n : ℕ) (xs ys : List EventRow)
      → Numbered n xs
      → Numbered (n + length xs) ys
      → Numbered n (xs ++ ys)
  Numbered-append n [] ys h h' = rw add-zero at h'
  Numbered-append n (x ∷ xs) ys (e, h) h' =
      (e, Numbered-append (suc n) xs ys h (rw (suc_shift n (length xs)) at h'))

  pub Named-append :
      (prev : Text) (xs ys : List EventRow)
      → Named prev xs
      → Named (end_tip lib prev (row_records xs)) ys
      → Named prev (xs ++ ys)
  Named-append prev [] ys h h' = h'
  Named-append prev (x ∷ xs) ys (e, h) h' = (e, Named-append x.event_hash xs ys h h')

  pub row_records-append :
      (xs ys : List EventRow) → row_records (xs ++ ys) ≡ row_records xs ++ row_records ys
  row_records-append [] ys = refl
  row_records-append (x ∷ xs) ys = ap (◌∷◌ (row_record x)) (row_records-append xs ys)

  -- a chain with a batch behind it is a chain, under the new tip
  pub IsChain-append :
      (c c' : Chain) (rows : List EventRow) (items : List Item)
      → IsChain lib c rows
      → IsBatch (text_or_empty c.latest_event_hash) (suc (length rows)) items
      → c'.latest_event_hash ≡ null_if_empty (final_hash (text_or_empty c.latest_event_hash) items)
      → c'.latest_position ≡ final_position c.latest_position items
      → IsChain lib c' (rows ++ rows_of items)
  IsChain-append c c' rows items h b tip position =
      let before : text_or_empty c.latest_event_hash ≡ end_tip lib [] (row_records rows) =
        ap text_or_empty h.tip ∙ text_or_empty-null_if_empty _ in
      record {
        linked = rw row_records-append (
            Extend-append lib [] (row_records rows) (row_records (rows_of items)) h.linked
              (rw before at b.linked));
        numbered =
            Numbered-append 1 rows (rows_of items) h.numbered
              (rw (one_more (length rows)) at b.numbered);
        named = Named-append [] rows (rows_of items) h.named (rw before at b.named);
        tip =
            tip
            ∙ ap null_if_empty (
                final_hash_lem _ items
                ∙ ap (λ t. end_tip lib t (row_records (rows_of items))) before
                ∙ sym (end_tip-append lib [] (row_records rows) (row_records (rows_of items)))
                ∙ ap (end_tip lib []) (sym (row_records-append rows (rows_of items))));
        position =
            position
            ∙ ap (λ x. final_position x items) h.position
            ∙ final_position_lem (length rows) items b.numbered
            ∙ ap pos (sym (length-append rows (rows_of items)));
      }
