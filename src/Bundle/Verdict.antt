-- ===== src/Bundle/Verdict.antt =====
-- What the verdict on a bundle means, and what it does not notice.
use stonewrit.Prelude.{
  ◌≡◌, refl, sym, ap, inl, inr, ◌↔◌, true, false, not, Option, none, some, List, [], ◌∷◌, map,
  filter, Text, str_eq, str_eq_iff, str_eq_refl, str_leb, Elem, arith,
}
use stonewrit.Prelude.Sort.{sort_by, Elem-sort_by, Elem-distinct, Elem-filter, filter-filter}
use stonewrit.Json.{JsonLib}
use stonewrit.Core.Verify.{verify_chain}
use stonewrit.Core.Verify.Walk.{Extend, verify_chain_iff, end_tip}
use stonewrit.Bundle.{
  BundleEvent, Bundle, events_of, chain_ids, to_record, tip_from, last_hash, same_hash, by_position,
  report_chain, all_valid, verify_bundle,
}

Elem-map :
    (e : BundleEvent) (es : List BundleEvent)
    → Elem e es
    → Elem e.chain_id (map (λ (x : BundleEvent). x.chain_id) es)
Elem-map e [] m = elim m [ ]
Elem-map e (x ∷ es) (inl p) = inl (ap (λ (y : BundleEvent). y.chain_id) p)
Elem-map e (x ∷ es) (inr m) = inr (Elem-map e es m)

Elem-of_map :
    (id : Text) (es : List BundleEvent)
    → Elem id (map (λ (x : BundleEvent). x.chain_id) es)
    → (e : BundleEvent) × Elem e es × (e.chain_id ≡ id)
Elem-of_map id [] m = elim m [ ]
Elem-of_map id (x ∷ es) (inl p) = (x, inl refl, sym p)
Elem-of_map id (x ∷ es) (inr m) = let (e, m', p) = Elem-of_map id es m in (e, inr m', p)

Elem-chain_ids :
    (id : Text) (es : List BundleEvent)
    → Elem id (chain_ids es) ↔ Elem id (map (λ (x : BundleEvent). x.chain_id) es)
unfolding chain_ids
Elem-chain_ids id es = (
  λ m. (Elem-distinct id _).0 ((Elem-sort_by str_leb id _).0 m),
  λ m. (Elem-sort_by str_leb id _).1 ((Elem-distinct id _).1 m),
)

module _ (lib : JsonLib) where
  all_valid-Elem :
      (b : Bundle) (ids : List Text) (id : Text)
      → all_valid lib (map (report_chain lib b) ids) ≡ true
      → Elem id ids
      → (report_chain lib b id).valid ≡ true
  unfolding all_valid
  all_valid-Elem b [] id h m = elim m [ ]
  all_valid-Elem b (i ∷ ids) id h (inl p) = rw p (ground arith)
  all_valid-Elem b (i ∷ ids) id h (inr m) = all_valid-Elem b ids id (ground arith) m

  all_valid_of_Elem :
      (b : Bundle) (ids : List Text)
      → ((id : Text) → Elem id ids → (report_chain lib b id).valid ≡ true)
      → all_valid lib (map (report_chain lib b) ids) ≡ true
  unfolding all_valid
  all_valid_of_Elem b [] h = refl
  all_valid_of_Elem b (i ∷ ids) h =
      rw (h i (inl refl), all_valid_of_Elem b ids (λ id m. h id (inr m))) refl

  -- A bundle passes exactly when, for every event in it, the chain that the event names passes.
  pub verify_bundle_iff :
      (b : Bundle)
      → ((verify_bundle lib b).valid ≡ true)
        ↔ ((e : BundleEvent) → Elem e b.events → (report_chain lib b e.chain_id).valid ≡ true)
  unfolding verify_bundle
  verify_bundle_iff b = (
    λ h e m.
        all_valid-Elem b (chain_ids b.events) e.chain_id h
          ((Elem-chain_ids e.chain_id b.events).1 (Elem-map e b.events m)),
    λ h. all_valid_of_Elem b (chain_ids b.events) λ id m.
        let (e, m', p) = Elem-of_map id b.events ((Elem-chain_ids id b.events).0 m) in
        rw p at (h e m'),
  )

  -- the events of a chain in the order of their positions
  abbrev pub chain_events : Bundle → Text → List BundleEvent
  chain_events b id = sort_by by_position (events_of id b.events)

  -- the tip that the bundle publishes for a chain
  abbrev pub published_tip : Bundle → Text → Option Text
  published_tip b id = tip_from none b.chains id

  last_hash_lem :
      (prev : Text) (e : BundleEvent) (es : List BundleEvent)
      → last_hash (e ∷ es) ≡ some (end_tip lib prev (map to_record (e ∷ es)))
  unfolding last_hash
  last_hash_lem prev e [] = refl
  last_hash_lem prev e (e' ∷ es) = last_hash_lem e.event_hash e' es

  same_hash_lem : (t : Option Text) (h : Text) → same_hash t (some h) ≡ true → t ≡ some h
  unfolding same_hash
  same_hash_lem none h p = cc
  same_hash_lem (some t) h p = ap some ((str_eq_iff t h).0 p)

  tip_matches_lem :
      (t : Option Text) (es : List BundleEvent)
      → same_hash t (last_hash es) ≡ true
      → t ≡ some (end_tip lib [] (map to_record es))
  tip_matches_lem none [] p = unfold same_hash in cc
  tip_matches_lem (some t) [] p = unfold same_hash last_hash in cc
  tip_matches_lem t (e ∷ es) p =
      same_hash_lem t (end_tip lib [] (map to_record (e ∷ es))) (rw (last_hash_lem [] e es) at p)

  -- If a bundle passes, then for every event in it the events of that event's chain, by position,
  -- link up from genesis, each event hash recomputing, to the tip published for the chain.
  pub verify_bundle_sound :
      (b : Bundle) (e : BundleEvent)
      → (verify_bundle lib b).valid ≡ true
      → Elem e b.events
      → Extend lib [] (map to_record (chain_events b e.chain_id))
        × (published_tip b e.chain_id
            ≡ some (end_tip lib [] (map to_record (chain_events b e.chain_id))))
  verify_bundle_sound b e h m =
      let (walked, tips) = parts ((verify_bundle_iff b).0 h e m) in
      ((verify_chain_iff lib _).0 walked, tip_matches_lem _ _ tips)
    where
      parts :
          (report_chain lib b e.chain_id).valid ≡ true
          → ((verify_chain lib (map to_record (chain_events b e.chain_id))).valid ≡ true)
            × (same_hash (published_tip b e.chain_id) (last_hash (chain_events b e.chain_id))
                ≡ true)
      parts p = unfold report_chain in ground arith

  -- a chain whose events link up to the published tip passes
  pub report_chain_passes :
      (b : Bundle) (id : Text) (e : BundleEvent) (es : List BundleEvent)
      → chain_events b id ≡ e ∷ es
      → Extend lib [] (map to_record (e ∷ es))
      → published_tip b id ≡ some (end_tip lib [] (map to_record (e ∷ es)))
      → (report_chain lib b id).valid ≡ true
  unfolding report_chain same_hash
  report_chain_passes b id e es same h tip =
      rw (same, tip, last_hash_lem [] e es, (verify_chain_iff lib (map to_record (e ∷ es))).1 h)
        (str_eq_refl _)

  -- the bundle without the events of one chain; its list of chains is as before
  abbrev pub without_events : Text → Bundle → Bundle
  without_events id b = record b { events = filter (λ e. not (str_eq e.chain_id id)) b.events }

  report_chain-without :
      (b : Bundle) (id other : Text)
      → str_eq other id ≡ false
      → report_chain lib (without_events id b) other ≡ report_chain lib b other
  unfolding report_chain
  report_chain-without b id other ne =
      rw
        (filter-filter (λ (x : BundleEvent). str_eq x.chain_id other)
          (λ (x : BundleEvent). not (str_eq x.chain_id id)) b.events
          λ x p. rw (differs x.chain_id p) refl)
        refl
    where
      differs : (c : Text) → str_eq c other ≡ true → str_eq c id ≡ false
      differs c p = rw ((str_eq_iff c other).0 p) ne

  -- A bundle that passes still passes when every event of one chain is left out, though its list of
  -- chains goes on publishing that chain's tip: nothing compares the chains with no events.
  pub missing_chain_passes :
      (b : Bundle) (id : Text)
      → (verify_bundle lib b).valid ≡ true
      → (verify_bundle lib (without_events id b)).valid ≡ true
  missing_chain_passes b id h = (verify_bundle_iff (without_events id b)).1 λ e m.
      let (m', q) =
        (Elem-filter (λ (x : BundleEvent). not (str_eq x.chain_id id)) e b.events).0 m in
      rw (report_chain-without b id e.chain_id (ground arith)) ((verify_bundle_iff b).0 h e m')
