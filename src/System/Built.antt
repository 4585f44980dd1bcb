-- ===== src/System/Built.antt =====
-- The rows that the sealer's loop builds from verifiable pending rows verify.
use stonewrit.Prelude.{
  ℕ, suc, ◌+◌, ◌<◌, ◌^◌, ◌≡◌, ◌≢◌, refl, sym, ap, ◌∙◌, subst, inl, inr, true, some, List, [], ◌∷◌,
  length, Text, All, Elem, arith,
}
use stonewrit.Prelude.Errors.{ok}
use stonewrit.Prelude.Int.{ℤ, pos, succ_int64, int_eq}
use stonewrit.Json.{JsonLib}
use stonewrit.Spec.Encode.{reread}
use stonewrit.Core.Hash.{payload_hash, event_hash}
use stonewrit.Core.Hash.Injective.{IsHash-ne-nil}
use stonewrit.Core.Payload.{build_content_payload}
use stonewrit.Core.Verify.{text_or_empty}
use stonewrit.Core.Verify.Suffix.{end_tip-IsHash}
use stonewrit.Core.Verify.Walk.{end_tip, Extend}
use stonewrit.Db.{Chain, PendingEvent, EventDataEnvelope, EventRow}
use stonewrit.VerifyService.{pending_content, verify_sealed}
use stonewrit.VerifyService.Sound.{IsLink, sealed_verifies}
use stonewrit.Sealer.{Item, build_items}
use stonewrit.Sealer.Batches.{build_items-cons, item_of}
use stonewrit.Sealer.Invariant.{
  row_record, row_records, rows_of, IsChain, succ_int64_lem, text_or_empty-null_if_empty,
}

module _ (lib : JsonLib) where
  -- the pending row holds an envelope that its payload hash commits to, also when it is read back
  abbrev pub Verifiable : PendingEvent → Type 0
  Verifiable p =
      (env : EventDataEnvelope) × (p.event_data ≡ some env)
      × (reread env.input ≡ env.input)
      × (payload_hash lib (build_content_payload (pending_content p env)) ≡ ok p.payload_hash)

  item-verifies :
      (locked : Chain) (p : PendingEvent) (i n : ℕ) (prev : Text) (kept : List PendingEvent)
      (items : List Item)
      → IsLink (pos n) prev
      → p.project_id ≡ locked.project_id
      → Verifiable p
      → build_items locked i prev (pos n) (p ∷ kept) ≡ ok items
      → (first : Item) × (rest : List Item) × (first ∷ rest ≡ items)
        × ((verify_sealed lib first.row).valid ≡ true)
        × (build_items locked
              (i + 1)
              (event_hash prev p.payload_hash (pos n))
              (succ_int64 (pos n))
              kept
            ≡ ok rest)
  item-verifies locked p i n prev kept items link same (env, stored, stable, hash) built =
      let (env', cl, ms, rest, stored', more, here) =
        build_items-cons locked i prev (pos n) p kept items built in
      let env-same : env ≡ env' = cc in
      (
        item_of locked p env' cl ms (pos n) prev,
        rest,
        here,
        subst (λ e. (verify_sealed lib (item_of locked p e cl ms (pos n) prev).row).valid ≡ true)
            env-same
            (subst
              (λ project.
                (verify_sealed lib
                  (item_of (record locked { project_id = project }) p env cl ms (pos n)
                    prev).row).valid
                ≡ true)
              same
              (sealed_verifies lib p env locked.id (pos n) prev cl
                (subst
                  (λ e.
                    payload_hash lib
                      (build_content_payload (pending_content p (record env { input = e })))
                    ≡ ok p.payload_hash)
                  (sym stable) hash)
                link)),
        more,
      )

  event_hash-IsLink :
      (n : ℕ) (prev payload : Text) (position : ℤ)
      → 0 < n
      → IsLink (pos (suc n)) (event_hash prev payload position)
  unfolding event_hash int_eq
  event_hash-IsLink n prev payload position h = ground arith

  pub build_items-verify :
      (locked : Chain) (i n : ℕ) (prev : Text) (kept : List PendingEvent) (items : List Item)
      → 0 < n
      → n + length kept < 2 ^ 63
      → IsLink (pos n) prev
      → ((p : PendingEvent) → Elem p kept → (p.project_id ≡ locked.project_id) × Verifiable p)
      → build_items locked i prev (pos n) kept ≡ ok items
      → All (λ (r : EventRow). (verify_sealed lib r).valid ≡ true) (rows_of items)
  build_items-verify locked i n prev [] items positive bound link good built =
      let nothing : [] ≡ items = unfold build_items in cc in rw (← nothing) tt
  build_items-verify locked i n prev (p ∷ kept) items positive bound link good built =
      let (same, v) = good p (inl refl) in
      let (first, rest, here, valid, more) =
        item-verifies locked p i n prev kept items link same v built in
      rw (← here) (
        valid,
        build_items-verify locked (i + 1) (suc n) (event_hash prev p.payload_hash (pos n)) kept rest
            (omega arith) (omega arith) (event_hash-IsLink n prev p.payload_hash (pos n) positive)
            (λ q m. good q (inr m)) (rw (succ_int64_lem n (omega arith)) at more),
      )

  -- the recorded tip of a chain is the link of its next row
  pub next-IsLink :
      (c : Chain) (rows : List EventRow)
      → IsChain lib c rows
      → IsLink (pos (suc (length rows))) (text_or_empty c.latest_event_hash)
  next-IsLink c rows chain =
      subst (IsLink (pos (suc (length rows))))
        (sym (
          ap text_or_empty chain.tip
          ∙ text_or_empty-null_if_empty (end_tip lib [] (row_records rows))))
        (at_tip rows chain.linked)
    where
      nonempty : (n : ℕ) (s : Text) → s ≢ [] → IsLink (pos (suc (suc n))) s
      nonempty n [] ne = absurd (ne refl)
      nonempty n (x ∷ s) ne = unfold int_eq in ground arith

      at_tip :
          (rows : List EventRow)
          → Extend lib [] (row_records rows)
          → IsLink (pos (suc (length rows))) (end_tip lib [] (row_records rows))
      at_tip [] h = unfold int_eq in refl
      at_tip (r ∷ rows) h =
          nonempty (length rows) _
            (IsHash-ne-nil _ (end_tip-IsHash lib [] (row_record r) (row_records rows) h))
