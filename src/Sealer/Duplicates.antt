-- ===== src/Sealer/Duplicates.antt =====
-- What `dedupePending` keeps: no external id twice, and none that the journal has.
use stonewrit.Prelude.Sort.{Elem-filter}
use stonewrit.Prelude.{
  Option, map, filter, All, subst, Elem-contains, contains-Elem, ◌≡◌, refl, sym, ap, ◌∙◌, inl, inr,
  true, false, Bool-cases, Option-cases, none, some, List, [], ◌∷◌, Text, ◌&&◌, str_eq, str_eq_iff,
  contains, Elem, arith,
}
use stonewrit.Prelude.Errors.{ok, Result-cases}
use stonewrit.Db.{PendingEvent, EventRow}
use stonewrit.Db.Queries.{existing_in}
use stonewrit.Sealer.Dedupe.{
  Deduped, external_id, candidates, dedupe_loop, existing_ids, dedupe_pending,
}

-- no text stands in the list twice
abbrev pub IsDistinct : List Text → Type 0
IsDistinct [] = Unit
IsDistinct (x ∷ xs) = (contains xs x ≡ false) × IsDistinct xs

-- the ids of the rows that the loop keeps are new
kept_avoid :
    (already seen : List Text) (ps : List PendingEvent) (x : Text)
    → contains (candidates (dedupe_loop already seen ps).kept) x ≡ true
    → (contains already x ≡ false) × (contains seen x ≡ false)
unfolding dedupe_loop candidates contains
kept_avoid already seen [] x h = cc
kept_avoid already seen (p ∷ ps) x h = elim (Option-cases (external_id p)) [
  | inl e ↦ kept_avoid already seen ps x (rw (e, dedupe_loop, e, candidates) at h)
  | inr (y, e) ↦ grind (
    arith,
    e,
    h,
    kept_avoid already seen ps x,
    kept_avoid already (y ∷ seen) ps x,
    str_eq_iff y x,
  )
]

head_clash : (y : Text) (seen : List Text) → contains (y ∷ seen) y ≡ false → ⊥
head_clash y seen h = cc (Elem-contains y (y ∷ seen) (inl refl), h)

pub kept-IsDistinct :
    (already seen : List Text) (ps : List PendingEvent)
    → IsDistinct (candidates (dedupe_loop already seen ps).kept)
unfolding dedupe_loop candidates
kept-IsDistinct already seen [] = tt
kept-IsDistinct already seen (p ∷ ps) = elim (Option-cases (external_id p)) [
  | inl e ↦ rw (e, dedupe_loop, e, candidates) (kept-IsDistinct already seen ps)
  | inr (y, e) ↦ elim (Bool-cases (contains already y)) [
    | inl a ↦ rw (e, a, dedupe_loop) (kept-IsDistinct already seen ps)
    | inr a ↦ elim (Bool-cases (contains seen y)) [
      | inl b ↦ rw (e, a, b, dedupe_loop) (kept-IsDistinct already seen ps)
      | inr b ↦
          rw (e, a, b, dedupe_loop, e, candidates)
            (not_again already seen ps y, kept-IsDistinct already (y ∷ seen) ps)
    ]
  ]
]
  where
    not_again :
        (already seen : List Text) (ps : List PendingEvent) (y : Text)
        → contains (candidates (dedupe_loop already (y ∷ seen) ps).kept) y ≡ false
    not_again already seen ps y =
        elim (Bool-cases (contains (candidates (dedupe_loop already (y ∷ seen) ps).kept) y)) [
          | inr fine ↦ fine
          | inl again ↦ absurd (head_clash y seen (kept_avoid already (y ∷ seen) ps y again).1)
        ]

-- an id of the journal that the batch has too is found by the query
existing_in-contains :
    (env : Text) (ids : List Text) (events : List EventRow) (e : EventRow) (x : Text)
    → Elem e events
    → e.environment_id ≡ env
    → e.external_event_id ≡ some x
    → contains ids x ≡ true
    → contains (existing_in env ids events) x ≡ true
unfolding existing_in contains
existing_in-contains env ids [] e x m s n c = elim m [ ]
existing_in-contains env ids (f ∷ events) e x (inl same) s n c =
    rw (ap (λ (z : EventRow). z.external_event_id) (sym same) ∙ n, existing_in, here, c)
      (Elem-contains x (x ∷ existing_in env ids events) (inl refl))
  where
    here : str_eq f.environment_id env ≡ true
    here =
        (str_eq_iff f.environment_id env).1 (ap (λ (z : EventRow). z.environment_id) (sym same) ∙ s)
existing_in-contains env ids (f ∷ events) e x (inr m) s n c =
    elim (Option-cases f.external_event_id) [
      | inl o ↦ rw (o, existing_in) (existing_in-contains env ids events e x m s n c)
      | inr (z, o) ↦ elim (Bool-cases (str_eq f.environment_id env && contains ids z)) [
        | inr b ↦ rw (o, existing_in, b) (existing_in-contains env ids events e x m s n c)
        | inl b ↦
            rw (o, existing_in, b)
              (Elem-contains x (z ∷ existing_in env ids events) (
                inr (
                  contains-Elem x (existing_in env ids events)
                    (existing_in-contains env ids events e x m s n c))))
      ]
    ]

-- the kept rows are rows of the batch
pub candidates-kept :
    (already seen : List Text) (ps : List PendingEvent) (x : Text)
    → contains (candidates (dedupe_loop already seen ps).kept) x ≡ true
    → contains (candidates ps) x ≡ true
unfolding dedupe_loop candidates contains
candidates-kept already seen [] x h = cc
candidates-kept already seen (p ∷ ps) x h = elim (Option-cases (external_id p)) [
  | inl e ↦
      rw (e, candidates)
        (candidates-kept already seen ps x (rw (e, dedupe_loop, e, candidates) at h))
  | inr (y, e) ↦
      grind
        (arith, e, h, candidates-kept already seen ps x, candidates-kept already (y ∷ seen) ps x)
]

-- the loop ran on the ids that the query returned
pub dedupe_pending-eq-ok :
    (env : Text) (events : List EventRow) (pending : List PendingEvent) (d : Deduped)
    → dedupe_pending none env events pending ≡ ok d
    → (already : List Text) × (existing_ids none env events (candidates pending) ≡ ok already)
      × (d ≡ dedupe_loop already [] pending)
unfolding dedupe_pending
dedupe_pending-eq-ok env events pending d h =
    elim (Result-cases (existing_ids none env events (candidates pending))) [
      | inl (x, e) ↦ absurd (grind (arith, e, h))
      | inr (already, e) ↦ (already, e, grind (arith, e, h))
    ]

pub existing_ids-eq-ok :
    (env : Text) (events : List EventRow) (ids already : List Text) (x : Text)
    → existing_ids none env events ids ≡ ok already
    → contains ids x ≡ true
    → already ≡ existing_in env ids events
unfolding existing_ids contains
existing_ids-eq-ok env events [] already x h c = cc
existing_ids-eq-ok env events (i ∷ ids) already x h c = cc

-- a kept row does not have the id of an event of the environment
pub dedupe_pending-fresh :
    (env : Text) (events : List EventRow) (pending : List PendingEvent) (d : Deduped) (e : EventRow)
    (x : Text)
    → dedupe_pending none env events pending ≡ ok d
    → Elem e events
    → e.environment_id ≡ env
    → e.external_event_id ≡ some x
    → contains (candidates d.kept) x ≡ false
dedupe_pending-fresh env events pending d e x h m s n =
    let (already, found, same) = dedupe_pending-eq-ok env events pending d h in
    rw same (absent already found)
  where
    absent :
        (already : List Text)
        → existing_ids none env events (candidates pending) ≡ ok already
        → contains (candidates (dedupe_loop already [] pending).kept) x ≡ false
    absent already found =
        elim (Bool-cases (contains (candidates (dedupe_loop already [] pending).kept) x)) [
          | inr fine ↦ fine
          | inl kept ↦
              let c = candidates-kept already [] pending x kept in
              let listed = existing_in-contains env (candidates pending) events e x m s n c in
              absurd (
                cc (
                  (kept_avoid already [] pending x kept).0,
                  listed,
                  existing_ids-eq-ok env events (candidates pending) already x found c,
                ))
        ]

-- the external ids that are set and not empty
abbrev pub set_ids : List (Option Text) → List Text
set_ids [] = []
set_ids (none ∷ ids) = set_ids ids
set_ids (some [] ∷ ids) = set_ids ids
set_ids (some (c ∷ s) ∷ ids) = (c ∷ s) ∷ set_ids ids

abbrev pub batch_ids : List PendingEvent → List Text
batch_ids ps = set_ids (map (λ (p : PendingEvent). p.external_event_id) ps)

-- the external ids of the events of an environment
abbrev pub journal_ids : Text → List EventRow → List Text
journal_ids env events = set_ids (
    map (λ (e : EventRow). e.external_event_id)
      (filter (λ (e : EventRow). str_eq e.environment_id env) events))

candidates-cons :
    (p : PendingEvent) (ps : List PendingEvent) (o : Option Text)
    → p.external_event_id ≡ o
    → candidates ps ≡ batch_ids ps
    → candidates (p ∷ ps) ≡ batch_ids (p ∷ ps)
unfolding candidates external_id
candidates-cons p ps none e h = rw (e, candidates, external_id) h
candidates-cons p ps (some []) e h = rw (e, candidates, external_id) h
candidates-cons p ps (some (c ∷ s)) e h = rw (e, candidates, external_id) (ap (◌∷◌ (c ∷ s)) h)

candidates_lem : (ps : List PendingEvent) → candidates ps ≡ batch_ids ps
candidates_lem [] = unfold candidates in refl
candidates_lem (p ∷ ps) = candidates-cons p ps p.external_event_id refl (candidates_lem ps)

Elem-set_ids : (x : Text) (ids : List (Option Text)) → Elem x (set_ids ids) → Elem (some x) ids
Elem-set_ids x [] m = elim m [ ]
Elem-set_ids x (none ∷ ids) m = inr (Elem-set_ids x ids m)
Elem-set_ids x (some [] ∷ ids) m = inr (Elem-set_ids x ids m)
Elem-set_ids x (some (c ∷ s) ∷ ids) (inl e) = inl (ap some e)
Elem-set_ids x (some (c ∷ s) ∷ ids) (inr m) = inr (Elem-set_ids x ids m)

Elem-map :
    (o : Option Text) (events : List EventRow)
    → Elem o (map (λ (e : EventRow). e.external_event_id) events)
    → (e : EventRow) × Elem e events × (e.external_event_id ≡ o)
Elem-map o [] m = elim m [ ]
Elem-map o (e ∷ events) (inl h) = (e, inl refl, sym h)
Elem-map o (e ∷ events) (inr m) = let (f, k, h) = Elem-map o events m in (f, inr k, h)

journal_ids-Elem :
    (env : Text) (events : List EventRow) (x : Text)
    → Elem x (journal_ids env events)
    → (e : EventRow) × Elem e events × (e.environment_id ≡ env) × (e.external_event_id ≡ some x)
journal_ids-Elem env events x m =
    let (e, k, h) =
      Elem-map (some x) (filter (λ (e : EventRow). str_eq e.environment_id env) events)
        (Elem-set_ids x _ m) in
    let (there, here) =
      (Elem-filter (λ (e : EventRow). str_eq e.environment_id env) e events).0 k in
    (e, there, (str_eq_iff e.environment_id env).0 here, h)

All-of_Elem : (P : Text → Type 0) (xs : List Text) → ((x : Text) → Elem x xs → P x) → All P xs
All-of_Elem P [] h = tt
All-of_Elem P (x ∷ xs) h = (h x (inl refl), All-of_Elem P xs (λ y m. h y (inr m)))

-- When the query for the ids does not fail: no two of the rows that the sealer keeps of a batch have
-- the same external event id, empty ids and nulls aside, and no kept row has the external event id of
-- an event in the journal of the environment.
pub dedupe_pending-IsDistinct :
    (env : Text) (events : List EventRow) (pending : List PendingEvent) (d : Deduped)
    → dedupe_pending none env events pending ≡ ok d
    → IsDistinct (batch_ids d.kept)
      × All (λ x. contains (batch_ids d.kept) x ≡ false) (journal_ids env events)
dedupe_pending-IsDistinct env events pending d h =
    let (already, found, same) = dedupe_pending-eq-ok env events pending d h in
    subst (λ ids. IsDistinct ids × All (λ x. contains ids x ≡ false) (journal_ids env events))
      (candidates_lem d.kept)
      (
        rw same (kept-IsDistinct already [] pending),
        All-of_Elem (λ x. contains (candidates d.kept) x ≡ false) (journal_ids env events)
            (λ x m.
              let (e, there, here, id) = journal_ids-Elem env events x m in
              dedupe_pending-fresh env events pending d e x h there here id),
      )
