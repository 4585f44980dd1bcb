-- ===== src/Sealer/Fates.antt =====
-- What becomes of each row of a batch: kept and built, or dropped for an external id that is taken
-- (`dedupePending` and the loop of server/internal/sealer/sealer.go).
use stonewrit.Prelude.{
  contains-Elem, ℕ, ◌+◌, ◌≡◌, refl, sym, ap, ◌∙◌, ◌⊎◌, inl, inr, true, ◌&&◌, Bool-cases, Option,
  Option-cases, none, some, List, [], ◌∷◌, map, Text, str_eq, str_eq_iff, contains, Elem, arith,
}
use stonewrit.Prelude.Errors.{ok, Error, Result-cases}
use stonewrit.Prelude.Int.{ℤ, succ_int64}
use stonewrit.Db.{Chain, PendingEvent, EventRow}
use stonewrit.Db.Queries.{existing_in}
use stonewrit.Sealer.Row.{build_event_row}
use stonewrit.Sealer.Dedupe.{
  Deduped, external_id, candidates, dedupe_loop, existing_ids, dedupe_pending,
}
use stonewrit.Sealer.Invariant.{rows_of}
use stonewrit.Sealer.Batches.{build_items-cons}
use stonewrit.Sealer.{Item, build_items}

-- a row is kept, or its external id is one of two lists or that of a kept row
abbrev pub Kept : List Text → List Text → List PendingEvent → PendingEvent → Type 0
Kept already seen kept q =
    Elem q kept
    ⊎ ((x : Text) × (external_id q ≡ some x)
        × ((contains already x ≡ true)
            ⊎ ((contains seen x ≡ true)
                ⊎ ((k : PendingEvent) × Elem k kept × (external_id k ≡ some x)))))

Kept-cons :
    (already seen : List Text) (kept : List PendingEvent) (p q : PendingEvent)
    → Kept already seen kept q
    → Kept already seen (p ∷ kept) q
Kept-cons already seen kept p q (inl m) = inl (inr m)
Kept-cons already seen kept p q (inr (x, e, inl a)) = inr (x, e, inl a)
Kept-cons already seen kept p q (inr (x, e, inr (inl b))) = inr (x, e, inr (inl b))
Kept-cons already seen kept p q (inr (x, e, inr (inr (k, m, f)))) =
    inr (x, e, inr (inr (k, inr m, f)))

Kept-seen :
    (already seen : List Text) (kept : List PendingEvent) (p q : PendingEvent) (y : Text)
    → external_id p ≡ some y
    → Kept already (y ∷ seen) kept q
    → Kept already seen (p ∷ kept) q
unfolding contains
Kept-seen already seen kept p q y h (inl m) = inl (inr m)
Kept-seen already seen kept p q y h (inr (x, e, inl a)) = inr (x, e, inl a)
Kept-seen already seen kept p q y h (inr (x, e, inr (inl b))) = elim (Bool-cases (str_eq y x)) [
  | inl same ↦ inr (x, e, inr (inr (p, inl refl, h ∙ ap some ((str_eq_iff y x).0 same))))
  | inr other ↦ inr (x, e, inr (inl (rw (other, contains) at b)))
]
Kept-seen already seen kept p q y h (inr (x, e, inr (inr (k, m, f)))) =
    inr (x, e, inr (inr (k, inr m, f)))

-- every row of the batch is kept, or has an external id that is taken
pub dedupe_loop-Kept :
    (already seen : List Text) (ps : List PendingEvent) (q : PendingEvent)
    → Elem q ps
    → Kept already seen (dedupe_loop already seen ps).kept q
unfolding dedupe_loop
dedupe_loop-Kept already seen [] q m = elim m [ ]
dedupe_loop-Kept already seen (p ∷ ps) q m = elim (Option-cases (external_id p)) [
  | inl e ↦
      rw (e, dedupe_loop)
        (elim m [
          | inl here ↦ inl (inl here)
          | inr m' ↦ Kept-cons already seen _ p q (dedupe_loop-Kept already seen ps q m')
        ])
  | inr (x, e) ↦ elim (Bool-cases (contains already x)) [
    | inl a ↦
        rw (e, dedupe_loop, a)
          (elim m [
            | inl here ↦ inr (x, ap external_id here ∙ e, inl a)
            | inr m' ↦ dedupe_loop-Kept already seen ps q m'
          ])
    | inr a ↦ elim (Bool-cases (contains seen x)) [
      | inl b ↦
          rw (e, dedupe_loop, a, b)
            (elim m [
              | inl here ↦ inr (x, ap external_id here ∙ e, inr (inl b))
              | inr m' ↦ dedupe_loop-Kept already seen ps q m'
            ])
      | inr b ↦
          rw (e, dedupe_loop, a, b)
            (elim m [
              | inl here ↦ inl (inl here)
              | inr m' ↦
                  Kept-seen already seen _ p q x e (dedupe_loop-Kept already (x ∷ seen) ps q m')
            ])
    ]
  ]
]

-- only rows of the batch are dropped
pub Elem-dropped :
    (already seen : List Text) (ps : List PendingEvent) (id : Text)
    → Elem id (dedupe_loop already seen ps).dropped
    → Elem id (map (λ (p : PendingEvent). p.id) ps)
unfolding dedupe_loop
Elem-dropped already seen [] id m = elim m [ ]
Elem-dropped already seen (p ∷ ps) id m = elim (Option-cases (external_id p)) [
  | inl e ↦ inr (Elem-dropped already seen ps id (rw (e, dedupe_loop) at m))
  | inr (x, e) ↦
      grind (arith, e, m, Elem-dropped already seen ps id, Elem-dropped already (x ∷ seen) ps id)
]

-- an event of the journal holds what a pending row was accepted with
abbrev pub Sealed : PendingEvent → List EventRow → Type 0
Sealed p events = (e : EventRow) × Elem e events × (e.id ≡ p.id) × (e.payload_hash ≡ p.payload_hash)

-- every kept row has a built row
pub build_items-Sealed :
    (locked : Chain) (i : ℕ) (prev : Text) (position : ℤ) (kept : List PendingEvent)
    (items : List Item) (p : PendingEvent)
    → build_items locked i prev position kept ≡ ok items
    → Elem p kept
    → Sealed p (rows_of items)
build_items-Sealed locked i prev position [] items p built m = elim m [ ]
build_items-Sealed locked i prev position (q ∷ kept) items p built m =
    let (env, cl, ms, rest, _, more, here) =
      build_items-cons locked i prev position q kept items built in
    rw (← here) (elim m [
      | inl same ↦
          unfold build_event_row in
          (
            _,
            inl refl,
            ap (λ (x : PendingEvent). x.id) (sym same),
            ap (λ (x : PendingEvent). x.payload_hash) (sym same),
          )
      | inr m' ↦
          let (e, there, a, b) =
            build_items-Sealed locked (i + 1) _ (succ_int64 position) kept rest p more m' in
          (e, inr there, a, b)
    ])

-- what the query finds is in the journal of the environment
existing_in-Elem :
    (env : Text) (ids : List Text) (events : List EventRow) (x : Text)
    → Elem x (existing_in env ids events)
    → (e : EventRow) × Elem e events × (e.environment_id ≡ env) × (e.external_event_id ≡ some x)
unfolding existing_in
existing_in-Elem env ids [] x m = elim m [ ]
existing_in-Elem env ids (e ∷ events) x m = elim (Option-cases e.external_event_id) [
  | inl o ↦ later (existing_in-Elem env ids events x (rw (o, existing_in) at m))
  | inr (y, o) ↦ elim (Bool-cases (str_eq e.environment_id env && contains ids y)) [
    | inr b ↦ later (existing_in-Elem env ids events x (rw (o, existing_in, b) at m))
    | inl b ↦
        elim (rw (o, existing_in, b) at m)
          as (λ found.
            (f : EventRow) × Elem f (e ∷ events)
            × (f.environment_id ≡ env)
            × (f.external_event_id ≡ some x)) [
              | inl here ↦ (
                e,
                inl refl,
                (str_eq_iff e.environment_id env).0 (ground arith),
                o ∙ ap some (sym here),
              )
              | inr there ↦ later (existing_in-Elem env ids events x there)
            ]
  ]
]
  where
    later :
        (f : EventRow) × Elem f events × (f.environment_id ≡ env) × (f.external_event_id ≡ some x)
        → (f : EventRow) × Elem f (e ∷ events)
          × (f.environment_id ≡ env)
          × (f.external_event_id ≡ some x)
    later (f, there, a, b) = (f, inr there, a, b)

-- the external id is taken: an event of the environment's journal has it, or a kept row
abbrev pub Taken : Text → List EventRow → List PendingEvent → Text → Type 0
Taken env events kept x =
    ((e : EventRow) × Elem e events × (e.environment_id ≡ env) × (e.external_event_id ≡ some x))
    ⊎ ((k : PendingEvent) × Elem k kept × (external_id k ≡ some x))

already_taken :
    (fails : Option Error) (env : Text) (events : List EventRow) (ids already : List Text)
    (x : Text)
    → existing_ids fails env events ids ≡ ok already
    → contains already x ≡ true
    → Elem x (existing_in env ids events)
unfolding existing_ids
already_taken fails env events [] already x h c =
    let nothing : [] ≡ already = cc in absurd (empty x (rw (← nothing) at c))
  where
    empty : (x : Text) → contains [] x ≡ true → ⊥
    empty x c = unfold contains in cc
already_taken (some e) env events (i ∷ ids) already x h c = cc
already_taken none env events (i ∷ ids) already x h c =
    let found : existing_in env (i ∷ ids) events ≡ already = cc in
    rw found (contains-Elem x already c)

-- each row of a batch is kept, or its external id is taken
pub dedupe_pending-Kept :
    (fails : Option Error) (env : Text) (events : List EventRow) (batch : List PendingEvent)
    (d : Deduped) (p : PendingEvent)
    → dedupe_pending fails env events batch ≡ ok d
    → Elem p batch
    → Elem p d.kept ⊎ ((x : Text) × (external_id p ≡ some x) × Taken env events d.kept x)
unfolding dedupe_pending
dedupe_pending-Kept fails env events batch d p h m =
    elim (Result-cases (existing_ids fails env events (candidates batch))) [
      | inl (x, e) ↦ cc (rw (e, dedupe_pending) at h)
      | inr (already, e) ↦
          let same : dedupe_loop already [] batch ≡ d = cc (rw (e, dedupe_pending) at h) in
          rw (← same) (settled already e (dedupe_loop-Kept already [] batch p m))
    ]
  where
    settled :
        (already : List Text)
        → existing_ids fails env events (candidates batch) ≡ ok already
        → Kept already [] (dedupe_loop already [] batch).kept p
        → Elem p (dedupe_loop already [] batch).kept
          ⊎ ((x : Text) × (external_id p ≡ some x)
              × Taken env events (dedupe_loop already [] batch).kept x)
    settled already e (inl k) = inl k
    settled already e (inr (x, f, inl a)) = inr (
      x,
      f,
      inl (
          existing_in-Elem env (candidates batch) events x
            (already_taken fails env events (candidates batch) already x e a)),
    )
    settled already e (inr (x, f, inr (inl b))) = unfold contains in cc
    settled already e (inr (x, f, inr (inr k))) = inr (x, f, inr k)

-- the dropped ids are ids of the batch
pub dedupe_pending-dropped :
    (fails : Option Error) (env : Text) (events : List EventRow) (batch : List PendingEvent)
    (d : Deduped) (id : Text)
    → dedupe_pending fails env events batch ≡ ok d
    → Elem id d.dropped
    → Elem id (map (λ (p : PendingEvent). p.id) batch)
unfolding dedupe_pending
dedupe_pending-dropped fails env events batch d id h m =
    elim (Result-cases (existing_ids fails env events (candidates batch))) [
      | inl (x, e) ↦ cc (rw (e, dedupe_pending) at h)
      | inr (already, e) ↦
          let same : dedupe_loop already [] batch ≡ d = cc (rw (e, dedupe_pending) at h) in
          Elem-dropped already [] batch id (rw (← same) at m)
    ]

pub kept-Elem :
    (already seen : List Text) (ps : List PendingEvent) (q : PendingEvent)
    → Elem q (dedupe_loop already seen ps).kept
    → Elem q ps
unfolding dedupe_loop
kept-Elem already seen [] q m = elim m [ ]
kept-Elem already seen (p ∷ ps) q m = elim (Option-cases (external_id p)) [
  | inl e ↦ lift (rw (e, dedupe_loop) at m) (kept-Elem already seen ps q)
  | inr (x, e) ↦ grind (arith, e, m, kept-Elem already seen ps q, kept-Elem already (x ∷ seen) ps q)
]
  where
    lift :
        (q ≡ p) ⊎ Elem q (dedupe_loop already seen ps).kept
        → (Elem q (dedupe_loop already seen ps).kept → Elem q ps)
        → Elem q (p ∷ ps)
    lift (inl e) h = inl e
    lift (inr k) h = inr (h k)

-- the kept rows are rows of the batch
pub dedupe_pending-Elem :
    (fails : Option Error) (env : Text) (events : List EventRow) (batch : List PendingEvent)
    (d : Deduped) (q : PendingEvent)
    → dedupe_pending fails env events batch ≡ ok d
    → Elem q d.kept
    → Elem q batch
unfolding dedupe_pending
dedupe_pending-Elem fails env events batch d q h m =
    elim (Result-cases (existing_ids fails env events (candidates batch))) [
      | inl (x, e) ↦ cc (rw (e, dedupe_pending) at h)
      | inr (already, e) ↦
          let same : dedupe_loop already [] batch ≡ d = cc (rw (e, dedupe_pending) at h) in
          kept-Elem already [] batch q (rw (← same) at m)
    ]
