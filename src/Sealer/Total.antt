-- ===== src/Sealer/Total.antt =====
-- The rows that are built for decodable pending rows (server/internal/sealer/sealer.go).
use stonewrit.Prelude.{
  ℕ, ◌+◌, ◌≡◌, refl, sym, ap, inl, inr, Option, none, some, subst, List, [], ◌∷◌, Text, codes, Elem,
}
use stonewrit.Prelude.Errors.{Result, ok, ◌>>=◌}
use stonewrit.Prelude.Int.{ℤ, succ_int64}
use stonewrit.Core.Hash.{event_hash}
use stonewrit.Classify.{Classification}
use stonewrit.Classify.MapControls.{Mapping}
use stonewrit.Db.{Chain, PendingEvent, EventDataEnvelope, EventRow}
use stonewrit.Sealer.Row.{null_if_empty, build_event_row}
use stonewrit.Sealer.Batches.{item_of}
use stonewrit.Sealer.Invariant.{rows_of}
use stonewrit.Sealer.{Item, build_items, decoded}

-- the three JSON columns of a pending row decode
abbrev pub Decodes : PendingEvent → Type 0
Decodes p =
    ((env : EventDataEnvelope) × (p.event_data ≡ some env))
    × ((cl : Classification) × (p.classification ≡ some cl))
    × ((ms : List Mapping) × (p.control_mappings ≡ some ms))

-- The external id column of a pending row is the external id inside its event data, null for an empty
-- one, as the accept path stores it.
abbrev pub SameExternalId : Option EventDataEnvelope → Option Text → Type 0
SameExternalId none id = Unit
SameExternalId (some env) id = id ≡ null_if_empty env.input.external_event_id

-- both of the row
abbrev pub Buildable : PendingEvent → Type 0
Buildable p =
    ((env : EventDataEnvelope) × (p.event_data ≡ some env)
      × (p.external_event_id ≡ null_if_empty env.input.external_event_id))
    × ((cl : Classification) × (p.classification ≡ some cl))
    × ((ms : List Mapping) × (p.control_mappings ≡ some ms))

pub Decodes-Buildable :
    (p : PendingEvent) → Decodes p → SameExternalId p.event_data p.external_event_id → Buildable p
Decodes-Buildable p ((env, e), c, m) same =
    ((env, e, subst (λ d. SameExternalId d p.external_event_id) e same), c, m)

-- the row has the keys of the pending row
abbrev pub Keyed : EventRow → PendingEvent → Type 0
Keyed r p =
    (r.id ≡ p.id)
    × (r.environment_id ≡ p.environment_id)
    × (r.external_event_id ≡ p.external_event_id)

abbrev pub AllKeyed : List EventRow → List PendingEvent → Type 0
AllKeyed [] [] = Unit
AllKeyed (r ∷ rs) (p ∷ ps) = Keyed r p × AllKeyed rs ps
AllKeyed _ _ = ⊥

-- one round of the loop, when nothing fails
round_total :
    {A B C D E : Type 0} (a : Result A) (b : Result B) (c : Result C) (d : Result D)
    (mk : A → B → C → D → E) {x : A} {y : B} {z : C} {u : D}
    → a ≡ ok x
    → b ≡ ok y
    → c ≡ ok z
    → d ≡ ok u
    → (do x' ← a; y' ← b; z' ← c; u' ← d; ok (mk x' y' z' u')) ≡ ok (mk x y z u)
round_total a b c d mk e1 e2 e3 e4 = rw (e1, e2, e3, e4) refl

-- the loop builds a row for each of its rows
pub build_items-total :
    (locked : Chain) (i : ℕ) (prev : Text) (position : ℤ) (kept : List PendingEvent)
    → ((p : PendingEvent) → Elem p kept → Buildable p)
    → (items : List Item) × (build_items locked i prev position kept ≡ ok items)
      × AllKeyed (rows_of items) kept
unfolding build_items decoded build_event_row
build_items-total locked i prev position [] h = ([], refl, tt)
build_items-total locked i prev position (p ∷ kept) h =
    let ((env, e1, ext), (cl, e2), (ms, e3)) = h p (inl refl) in
    let (items, e4, keyed) =
      build_items-total locked (i + 1) (event_hash prev p.payload_hash position)
        (succ_int64 position) kept (λ q m. h q (inr m)) in
    (
      item_of locked p env cl ms position prev ∷ items,
      round_total (decoded (codes "decode pending event_data") i p.event_data)
          (decoded (codes "decode classification") i p.classification)
          (decoded (codes "decode control_mappings") i p.control_mappings)
          (build_items locked (i + 1) (event_hash prev p.payload_hash position)
            (succ_int64 position) kept)
          (λ env cl ms rest. item_of locked p env cl ms position prev ∷ rest)
          (ap (decoded (codes "decode pending event_data") i) e1)
          (ap (decoded (codes "decode classification") i) e2)
          (ap (decoded (codes "decode control_mappings") i) e3) e4,
      ((refl, refl, sym ext), keyed),
    )
