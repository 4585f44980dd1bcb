-- ===== src/Export/Passes.antt =====
-- A bundle of whole chains passes the public verifier: the composition of the sealer's invariant, the
-- worker's queries and cmd/verify.
use stonewrit.Prelude.{
  ℕ, suc, ◌≡◌, refl, sym, ap, ◌∙◌, subst, inl, inr, true, false, Bool-cases, Option, none, some,
  List, [], ◌∷◌, map, filter, Text, str_eq, str_eq_iff, str_eq_refl, str_leb_trans,
  str_leb_antisymm, str_leb_total, All, Elem, if◌then◌else◌, arith,
}
use stonewrit.Prelude.Int.{int_leb, int_leb_total, int_leb_trans}
use stonewrit.Prelude.Sort.{
  sort_by, IsSorted, sort_by_of_IsSorted, Elem-sort_by, Elem-filter, filter-filter_of_Elem,
  filter-map, filter-sort_by,
}
use stonewrit.Json.{JsonLib}
use stonewrit.Spec.{Time}
use stonewrit.Core.Verify.Walk.{Extend, end_tip}
use stonewrit.Db.{Chain, EventRow, Db}
use stonewrit.Sealer.Invariant.{row_records, chain_rows, Numbered, IsChain, IsConsistent}
use stonewrit.ChainsRoute.Accepts.{IsChain-Accepted}
use stonewrit.Bundle.{
  BundleEvent, Bundle, events_of, to_record, tip_from, report_chain, verify_bundle,
}
use stonewrit.Bundle.{by_position}
use stonewrit.Bundle.Verdict.{verify_bundle_iff, chain_events, published_tip, report_chain_passes}
use stonewrit.Export.{
  ExportJob, selected, export_leb, list_events_for_export, of_project, list_chain_summaries_for_org,
  export_chain, export_event, build_bundle, read_chain, read_event, read_bundle,
}

export_leb_total : (a b : EventRow) → export_leb a b ≡ false → export_leb b a ≡ true
unfolding export_leb
export_leb_total a b h = ground (
  arith,
  str_eq_iff a.chain_id b.chain_id,
  str_eq_iff b.chain_id a.chain_id,
  int_leb_total a.chain_position b.chain_position,
  str_leb_total a.chain_id b.chain_id,
)

export_leb_trans :
    (a b c : EventRow) → export_leb a b ≡ true → export_leb b c ≡ true → export_leb a c ≡ true
unfolding export_leb
export_leb_trans a b c h k = ground (
  arith,
  str_eq_iff a.chain_id b.chain_id,
  str_eq_iff b.chain_id c.chain_id,
  str_eq_iff a.chain_id c.chain_id,
  int_leb_trans a.chain_position b.chain_position c.chain_position,
  str_leb_trans a.chain_id b.chain_id c.chain_id,
  str_leb_antisymm a.chain_id b.chain_id,
)

-- a row as it reaches the verifier
abbrev pub read_row : EventRow → BundleEvent
read_row r = read_event (export_event r)

-- the rows of one chain, in their order, are in the order of the query
exported-IsSorted :
    (id : Text) (n : ℕ) (rows : List EventRow)
    → All (λ (r : EventRow). r.chain_id ≡ id) rows
    → Numbered n rows
    → IsSorted export_leb rows
unfolding export_leb int_leb
exported-IsSorted id n [] h k = tt
exported-IsSorted id n (r ∷ []) h k = tt
exported-IsSorted id n (r ∷ s ∷ rows) (e, (e', h)) (p, (q, k)) = (
  rw (e, e', str_eq_refl id, p, q) (ground arith),
  exported-IsSorted id (suc n) (s ∷ rows) (e', h) (q, k),
)

read-IsSorted :
    (n : ℕ) (rows : List EventRow) → Numbered n rows → IsSorted by_position (map read_row rows)
unfolding by_position int_leb
read-IsSorted n [] h = tt
read-IsSorted n (r ∷ []) h = tt
read-IsSorted n (r ∷ s ∷ rows) (p, h) =
    (rw (p, h.0) (ground arith), read-IsSorted (suc n) (s ∷ rows) h)

chain_rows-All :
    (id : Text) (rows : List EventRow)
    → All (λ (r : EventRow). r.chain_id ≡ id) (chain_rows id rows)
chain_rows-All id [] = tt
chain_rows-All id (r ∷ rows) = elim (Bool-cases (str_eq r.chain_id id)) [
  | inl e ↦ rw e ((str_eq_iff r.chain_id id).0 e, chain_rows-All id rows)
  | inr e ↦ rw e (chain_rows-All id rows)
]

-- the published tip of a chain whose id no other one has
tip_from_same :
    (tip found : Option Text) (id : Text) (cs : List Chain)
    → ((c : Chain) → Elem c cs → c.id ≡ id → c.latest_event_hash ≡ tip)
    → found ≡ tip
    → tip_from found (map read_chain (map export_chain cs)) id ≡ tip
unfolding tip_from
tip_from_same tip found id [] h e = e
tip_from_same tip found id (c ∷ cs) h e =
    tip_from_same tip (if str_eq c.id id then c.latest_event_hash else found) id cs
      (λ d m. h d (inr m)) (ground (arith, str_eq_iff c.id id, h c (inl refl)))

tip_from_lem :
    (found : Option Text) (c : Chain) (cs : List Chain)
    → ((d : Chain) → Elem d cs → d.id ≡ c.id → d.latest_event_hash ≡ c.latest_event_hash)
    → Elem c cs
    → tip_from found (map read_chain (map export_chain cs)) c.id ≡ c.latest_event_hash
unfolding tip_from
tip_from_lem found c [] h m = elim m [ ]
tip_from_lem found c (d ∷ cs) h (inl e) =
    tip_from_same c.latest_event_hash _ c.id cs (λ x m. h x (inr m))
      (rw (sym e, str_eq_refl c.id) refl)
tip_from_lem found c (d ∷ cs) h (inr m) =
    tip_from_lem (if str_eq d.id c.id then d.latest_event_hash else found) c cs
      (λ x m'. h x (inr m')) m

-- the bundle of a job on a database, as cmd/verify reads it
abbrev pub exported : Time → ExportJob → Db → Bundle
exported now job db =
    read_bundle
      (build_bundle now job (list_events_for_export job db) (list_chain_summaries_for_org job db))

-- a row that the job selects belongs to a chain of the job's project
abbrev pub Owned : ExportJob → Db → Type 0
Owned job db =
    (r : EventRow)
    → Elem r db.events
    → selected job r ≡ true
    → (c : Chain) × Elem c db.chains × (of_project job c ≡ true) × (c.id ≡ r.chain_id)

-- the job selects every row of its project's chains
abbrev pub Covers : ExportJob → Db → Type 0
Covers job db =
    (c : Chain)
    → Elem c db.chains
    → of_project job c ≡ true
    → (r : EventRow) → Elem r db.events
    → r.chain_id ≡ c.id
    → selected job r ≡ true

-- the primary key of the chains
abbrev pub UniqueChains : Db → Type 0
UniqueChains db = (c d : Chain) → Elem c db.chains → Elem d db.chains → c.id ≡ d.id → c ≡ d

module _ (lib : JsonLib) where
  -- the links of the stored rows are links of the exported ones
  read-Extend :
      (prev : Text) (rows : List EventRow)
      → Extend lib prev (row_records rows)
      → Extend lib prev (map to_record (map read_row rows))
  read-Extend prev [] h = tt
  read-Extend prev (r ∷ rows) ((_, e, _), h) = ((tt, e, tt), read-Extend r.event_hash rows h)

  read-end_tip :
      (prev : Text) (rows : List EventRow)
      → end_tip lib prev (map to_record (map read_row rows)) ≡ end_tip lib prev (row_records rows)
  read-end_tip prev [] = refl
  read-end_tip prev (r ∷ rows) = read-end_tip r.event_hash rows

  -- the query keeps the rows of a chain that the job selects whole, in their order
  exported_rows :
      (job : ExportJob) (db : Db) (c : Chain)
      → Numbered 1 (chain_rows c.id db.events)
      → ((r : EventRow) → Elem r db.events → r.chain_id ≡ c.id → selected job r ≡ true)
      → chain_rows c.id (list_events_for_export job db) ≡ chain_rows c.id db.events
  unfolding list_events_for_export
  exported_rows job db c numbered whole =
      filter-sort_by export_leb export_leb_total export_leb_trans (λ r. str_eq r.chain_id c.id)
        (filter (selected job) db.events)
      ∙ ap (sort_by export_leb) (
          filter-filter_of_Elem (λ (r : EventRow). str_eq r.chain_id c.id) (selected job) db.events
            λ r m p. whole r m ((str_eq_iff r.chain_id c.id).0 p))
      ∙ sort_by_of_IsSorted export_leb (chain_rows c.id db.events) (
          exported-IsSorted c.id 1 (chain_rows c.id db.events) (chain_rows-All c.id db.events)
            numbered)

  exported_chain :
      (now : Time) (job : ExportJob) (db : Db) (c : Chain)
      → Numbered 1 (chain_rows c.id db.events)
      → ((r : EventRow) → Elem r db.events → r.chain_id ≡ c.id → selected job r ≡ true)
      → chain_events lib (exported now job db) c.id ≡ map read_row (chain_rows c.id db.events)
  exported_chain now job db c numbered whole =
      ap (sort_by by_position)
        (members now job db c ∙ ap (map read_row) (exported_rows job db c numbered whole))
      ∙ sort_by_of_IsSorted by_position (map read_row (chain_rows c.id db.events))
          (read-IsSorted 1 (chain_rows c.id db.events) numbered)
    where
      map-map : (rows : List EventRow) → map read_event (map export_event rows) ≡ map read_row rows
      map-map [] = refl
      map-map (r ∷ rows) = ap (◌∷◌ (read_row r)) (map-map rows)

      members :
          (now : Time) (job : ExportJob) (db : Db) (c : Chain)
          → events_of c.id (exported now job db).events
            ≡ map read_row (chain_rows c.id (list_events_for_export job db))
      members now job db c =
          unfold events_of build_bundle in
          rw (map-map (list_events_for_export job db)) (
            filter-map (λ (e : BundleEvent). str_eq e.chain_id c.id) read_row
              (list_events_for_export job db))

  exported_tip :
      (now : Time) (job : ExportJob) (db : Db) (c : Chain)
      → UniqueChains db
      → Elem c db.chains
      → of_project job c ≡ true
      → published_tip lib (exported now job db) c.id ≡ c.latest_event_hash
  unfolding build_bundle list_chain_summaries_for_org
  exported_tip now job db c unique m mine =
      let listed = Elem-filter (of_project job) in
      tip_from_lem none c (filter (of_project job) db.chains)
        (λ d md same.
          ap (λ (x : Chain). x.latest_event_hash) (unique d c ((listed d db.chains).0 md).0 m same))
        ((listed c db.chains).1 (m, mine))

  exported_chain_passes :
      (now : Time) (job : ExportJob) (db : Db) (c : Chain) (rows : List EventRow) (r : EventRow)
      → Elem r rows
      → IsChain lib c rows
      → chain_events lib (exported now job db) c.id ≡ map read_row rows
      → published_tip lib (exported now job db) c.id ≡ c.latest_event_hash
      → (report_chain lib (exported now job db) c.id).valid ≡ true
  exported_chain_passes now job db c [] r m chain same tip = elim m [ ]
  exported_chain_passes now job db c (x ∷ rows) r m chain same tip =
      report_chain_passes lib (exported now job db) c.id (read_row x) (map read_row rows) same
        (read-Extend [] (x ∷ rows) chain.linked)
        (tip
          ∙ (IsChain-Accepted lib c (x ∷ rows) chain).1
          ∙ ap some (sym (read-end_tip [] (x ∷ rows))))

  exported-Elem :
      (now : Time) (job : ExportJob) (db : Db) (e : BundleEvent)
      → Elem e (exported now job db).events
      → (r : EventRow) × Elem r db.events × (selected job r ≡ true) × (r.chain_id ≡ e.chain_id)
  unfolding build_bundle list_events_for_export
  exported-Elem now job db e m =
      let (r, m', same) = source e (list_events_for_export job db) m in
      let (m'', picked) =
        (Elem-filter (selected job) r db.events).0
          ((Elem-sort_by export_leb r (filter (selected job) db.events)).0 m') in
      (r, m'', picked, same)
    where
      source :
          (e : BundleEvent) (rows : List EventRow)
          → Elem e (map read_event (map export_event rows))
          → (r : EventRow) × Elem r rows × (r.chain_id ≡ e.chain_id)
      source e [] m = elim m [ ]
      source e (r ∷ rows) (inl p) = (r, inl refl, sym (ap (λ (x : BundleEvent). x.chain_id) p))
      source e (r ∷ rows) (inr m) = let (s, m', p) = source e rows m in (s, inr m', p)

  -- Let every chain of a database link up from genesis to its recorded tip, let chain ids be unique,
  -- let each row that a job selects belong to a chain of the job's project, and let the job select
  -- every row of those chains. Then the bundle that the worker builds passes the public verifier.
  pub export_passes :
      (now : Time) (job : ExportJob) (db : Db)
      → IsConsistent lib db
      → UniqueChains db
      → Owned job db
      → Covers job db
      → (verify_bundle lib (exported now job db)).valid ≡ true
  export_passes now job db h unique owned whole =
      (verify_bundle_iff lib (exported now job db)).1 λ e m.
        let (r, mr, picked, same) = exported-Elem now job db e m in
        let (c, mc, mine, owns) = owned r mr picked in
        subst (λ id. (report_chain lib (exported now job db) id).valid ≡ true) (owns ∙ same)
          (exported_chain_passes now job db c (chain_rows c.id db.events) r
            ((Elem-filter (λ (x : EventRow). str_eq x.chain_id c.id) r db.events).1
              (mr, (str_eq_iff r.chain_id c.id).1 (sym owns)))
            (h c mc) (exported_chain now job db c (h c mc).numbered (whole c mc mine))
            (exported_tip now job db c unique mc mine))
