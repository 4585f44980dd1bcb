-- ===== src/Sealer/Copies.antt =====
-- When the COPY of a batch into `events` (server/internal/sealer/sealer.go) meets no unique constraint.
use stonewrit.Prelude.{
  Elem-contains, ◌≡◌, ◌≢◌, refl, sym, ap, ◌∙◌, subst, ◌⊎◌, inl, inr, Bool, true, false, ◌&&◌,
  Bool-cases, Option, Option-cases, none, some, List, [], ◌∷◌, ◌++◌, map, append_assoc, append-nil,
  Text, str_eq, str_eq_iff, contains, Elem, arith,
}
use stonewrit.Prelude.Errors.{ok}
use stonewrit.Db.{PendingEvent, EventRow}
use stonewrit.Db.Queries.{conflicts, any_conflict, copy_events, same_external}
use stonewrit.Sealer.Row.{null_if_empty}
use stonewrit.Sealer.Dedupe.{external_id, candidates}
use stonewrit.Sealer.Duplicates.{IsDistinct}
use stonewrit.Sealer.Tables.{Elem-append_cases}
use stonewrit.Sealer.Total.{Buildable, Keyed, AllKeyed}

any_conflict-none :
    (r : EventRow) (table : List EventRow)
    → ((e : EventRow) → Elem e table → conflicts r e ≡ false)
    → any_conflict r table ≡ false
unfolding any_conflict
any_conflict-none r [] h = refl
any_conflict-none r (e ∷ table) h =
    rw (h e (inl refl), any_conflict-none r table (λ x m. h x (inr m))) refl

-- no row clashes with one in front of it
abbrev pub Apart : List EventRow → Type 0
Apart [] = Unit
Apart (r ∷ rows) = ((x : EventRow) → Elem x rows → conflicts x r ≡ false) × Apart rows

-- a COPY of rows without a clash appends them
pub copy_events-ok :
    (table rows : List EventRow)
    → ((r e : EventRow) → Elem r rows → Elem e table → conflicts r e ≡ false)
    → Apart rows
    → copy_events table rows ≡ ok (table ++ rows)
unfolding copy_events
copy_events-ok table [] h a = ap ok (sym (append-nil table))
copy_events-ok table (r ∷ rows) h (first, a) =
    rw (any_conflict-none r table (λ e m. h r e (inl refl) m), copy_events)
      (copy_events-ok (table ++ r ∷ []) rows
          (λ x e mx me. behind x e mx (Elem-append_cases e table (r ∷ []) me)) a
        ∙ ap ok (append_assoc table (r ∷ []) rows))
  where
    behind : (x e : EventRow) → Elem x rows → Elem e table ⊎ Elem e (r ∷ []) → conflicts x e ≡ false
    behind x e mx (inl old) = h x e (inr mx) old
    behind x e mx (inr (inl new)) = rw new (first x mx)
    behind x e mx (inr (inr nowhere)) = elim nowhere [ ]

Elem-candidates :
    (u : Text) (q : PendingEvent) (kept : List PendingEvent)
    → Elem q kept
    → external_id q ≡ some u
    → contains (candidates kept) u ≡ true
unfolding candidates contains
Elem-candidates u q [] m e = elim m [ ]
Elem-candidates u q (p ∷ kept) (inl same) e =
    let here : external_id p ≡ some u = ap external_id (sym same) ∙ e in
    rw (here, candidates) (Elem-contains u (u ∷ candidates kept) (inl refl))
Elem-candidates u q (p ∷ kept) (inr m) e = elim (Option-cases (external_id p)) [
  | inl none' ↦ rw (none', candidates) (Elem-candidates u q kept m e)
  | inr (x, f) ↦ rw (f, candidates) (ground (arith, Elem-candidates u q kept m e))
]

-- an external id that is stored as accept stores it is one that dedupePending looks at
external_id-stored :
    (p : PendingEvent) (s u : Text)
    → p.external_event_id ≡ null_if_empty s
    → p.external_event_id ≡ some u
    → external_id p ≡ some u
unfolding external_id null_if_empty
external_id-stored p [] u e f = cc
external_id-stored p (c ∷ s) u e f = let same : c ∷ s ≡ u = cc in rw (f, external_id, sym same) refl

same_external-eq :
    (a b : Option Text) → same_external a b ≡ true → (u : Text) × (a ≡ some u) × (b ≡ some u)
unfolding same_external
same_external-eq none b h = cc
same_external-eq (some x) none h = cc
same_external-eq (some x) (some y) h = (y, ap some ((str_eq_iff x y).0 h), refl)

both_true : (a b : Bool) → (a && b) ≡ true → (a ≡ true) × (b ≡ true)
both_true true b h = (refl, h)
both_true false b h = cc

-- two rows with other keys do not clash
conflicts-none :
    (a b : EventRow)
    → a.id ≢ b.id
    → ((u : Text)
        → a.environment_id ≡ b.environment_id
        → a.external_event_id ≡ some u
        → b.external_event_id ≡ some u
        → ⊥)
    → conflicts a b ≡ false
unfolding conflicts
conflicts-none a b ids ext = elim (Bool-cases (conflicts a b)) [
  | inr fine ↦ fine
  | inl clash ↦ elim (Bool-cases (str_eq a.id b.id)) [
    | inl same ↦ absurd (ids ((str_eq_iff a.id b.id).0 same))
    | inr other ↦
        let both : (str_eq a.environment_id b.environment_id
              && same_external a.external_event_id b.external_event_id)
            ≡ true =
          rw (other) at clash in
        let (env, eq) = both_true _ _ both in
        let (u, p, q) = same_external-eq a.external_event_id b.external_event_id eq in
        absurd (ext u ((str_eq_iff a.environment_id b.environment_id).0 env) p q)
  ]
]

Keyed-Elem :
    (rows : List EventRow) (kept : List PendingEvent) (r : EventRow)
    → AllKeyed rows kept
    → Elem r rows
    → (p : PendingEvent) × Elem p kept × Keyed r p
Keyed-Elem [] kept r keyed m = elim m [ ]
Keyed-Elem (x ∷ rows) [] r keyed m = elim keyed [ ]
Keyed-Elem (x ∷ rows) (p ∷ kept) r (k, keyed) (inl e) = (p, inl refl, rw e k)
Keyed-Elem (x ∷ rows) (p ∷ kept) r (k, keyed) (inr m) =
    let (q, mq, kq) = Keyed-Elem rows kept r keyed m in (q, inr mq, kq)

pub Elem-ids :
    (q : PendingEvent) (kept : List PendingEvent)
    → Elem q kept
    → Elem q.id (map (λ (p : PendingEvent). p.id) kept)
Elem-ids q [] m = elim m [ ]
Elem-ids q (p ∷ kept) (inl e) = inl (ap (λ (x : PendingEvent). x.id) e)
Elem-ids q (p ∷ kept) (inr m) = inr (Elem-ids q kept m)

candidates-tail :
    (p : PendingEvent) (kept : List PendingEvent)
    → IsDistinct (candidates (p ∷ kept))
    → IsDistinct (candidates kept)
      × ((u : Text) → external_id p ≡ some u → contains (candidates kept) u ≡ false)
unfolding candidates
candidates-tail p kept h = elim (Option-cases (external_id p)) [
  | inl e ↦ (rw (e, candidates) at h, λ u f. cc)
  | inr (x, e) ↦
      let (new, rest) = split_head x kept (rw (e, candidates) at h) in
      (
        rest,
        λ u f.
            let same : x ≡ u = some-injective (sym e ∙ f) in
            subst (λ t. contains (candidates kept) t ≡ false) same new,
      )
]
  where
    split_head :
        (x : Text) (kept : List PendingEvent)
        → IsDistinct (x ∷ candidates kept)
        → (contains (candidates kept) x ≡ false) × IsDistinct (candidates kept)
    split_head x kept h = h

    some-injective : {x y : Text} → some x ≡ some y → x ≡ y
    some-injective h = cc

-- a kept row with an external id is a candidate
taken_by :
    (q : PendingEvent) (kept : List PendingEvent) (u : Text)
    → Elem q kept
    → Buildable q
    → q.external_event_id ≡ some u
    → contains (candidates kept) u ≡ true
taken_by q kept u m ((env, _, ext), _, _) e =
    Elem-candidates u q kept m (external_id-stored q env.input.external_event_id u ext e)

-- The rows that are built of kept rows do not clash with each other, if the ids of the kept rows are
-- distinct and so are their external ids.
pub built-Apart :
    (rows : List EventRow) (kept : List PendingEvent)
    → AllKeyed rows kept
    → ((p : PendingEvent) → Elem p kept → Buildable p)
    → IsDistinct (map (λ (p : PendingEvent). p.id) kept)
    → IsDistinct (candidates kept)
    → Apart rows
built-Apart [] kept keyed good ids exts = tt
built-Apart (r ∷ rows) [] keyed good ids exts = elim keyed [ ]
built-Apart (r ∷ rows) (p ∷ kept) (k, keyed) good (new, ids) exts =
    let (exts', free) = candidates-tail p kept exts in
    (
      λ x m.
          let (q, mq, kq) = Keyed-Elem rows kept x keyed m in
          conflicts-none x r
            (λ same.
              let there =
                Elem-contains q.id (map (λ (y : PendingEvent). y.id) kept) (Elem-ids q kept mq) in
              cc (there, new, kq.0, k.0, same))
            (λ u _ ex er.
              let ((env, _, ext), _, _) = good p (inl refl) in
              let fresh =
                free u (external_id-stored p env.input.external_event_id u ext (sym k.2 ∙ er)) in
              let there = taken_by q kept u mq (good q (inr mq)) (sym kq.2 ∙ ex) in
              cc (fresh, there)),
      built-Apart rows kept keyed (λ q m. good q (inr m)) ids exts',
    )

-- nor with the journal, if their ids are not in it and it holds no external id of theirs
pub built-fresh :
    (env : Text) (rows : List EventRow) (kept : List PendingEvent) (events : List EventRow)
    → AllKeyed rows kept
    → ((p : PendingEvent) → Elem p kept → Buildable p × (p.environment_id ≡ env))
    → ((p : PendingEvent) (e : EventRow) → Elem p kept → Elem e events → p.id ≢ e.id)
    → ((e : EventRow) (u : Text)
        → Elem e events
        → e.environment_id ≡ env
        → e.external_event_id ≡ some u
        → contains (candidates kept) u ≡ false)
    → (r e : EventRow) → Elem r rows
    → Elem e events
    → conflicts r e ≡ false
built-fresh env rows kept events keyed good ids exts r e mr me =
    let (q, mq, kq) = Keyed-Elem rows kept r keyed mr in
    conflicts-none r e (λ same. ids q e mq me (sym kq.0 ∙ same))
      (λ u here ex er.
        let fresh = exts e u me (sym here ∙ kq.1 ∙ (good q mq).1) er in
        let there = taken_by q kept u mq (good q mq).0 (sym kq.2 ∙ ex) in cc (fresh, there))
