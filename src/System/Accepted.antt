-- ===== src/System/Accepted.antt =====
-- What a request does to the pending rows, whatever it answers.
use stonewrit.Prelude.{
  ◌≡◌, refl, ◌⊎◌, inl, inr, [], ◌∷◌, ◌++◌, Option-cases, Bool-cases, Text, str_eq,
}
use stonewrit.Prelude.Errors.{ok, Result-cases}
use stonewrit.Json.{JsonLib}
use stonewrit.Db.{PendingEvent}
use stonewrit.Ingest.{
  World, State, AcceptInput, prepare, insert, gate, admit, accept, find_key, request_hash,
  claim_row, insert_pending, claim_key, read_response,
}

-- the pending rows are as before, or have `p` behind them
abbrev pub Grows : PendingEvent → State → State → Type 0
Grows p s s' = (s'.pending ≡ s.pending) ⊎ (s'.pending ≡ (s.pending ++ p ∷ []))

insert-Grows :
    (w : World) (i : AcceptInput) (p : PendingEvent) (s : State) → Grows p s (insert w i p s).1
unfolding insert
insert-Grows w i p s = elim (Option-cases (w.fails insert_pending)) [
  | inl e ↦ inr (rw (e, insert) refl)
  | inr (x, e) ↦ inl (rw (e, insert) refl)
]

gate-Grows :
    (w : World) (i : AcceptInput) (hash : Text) (p : PendingEvent) (s : State)
    → Grows p s (gate w i hash p s).1
unfolding gate
gate-Grows w i hash p s = elim (Option-cases (w.fails claim_key)) [
  | inr (x, e) ↦ inl (rw (e, gate) refl)
  | inl e ↦ elim (Option-cases (find_key i.auth.organization_id i.idempotency_key s.idempotency)) [
    | inl f ↦
        rw (e, gate, f, gate)
          (insert-Grows w i p
            (record s { idempotency = s.idempotency ++ claim_row w i hash p ∷ [] }))
    | inr (row, f) ↦ elim (Option-cases (w.fails read_response)) [
      | inl g ↦ inl (rw (e, gate, f, gate, g, gate) refl)
      | inr (x, g) ↦ inl (rw (e, gate, f, gate, g, gate) refl)
    ]
  ]
]

module _ (lib : JsonLib) where
  admit-Grows :
      (w : World) (i : AcceptInput) (p : PendingEvent) (s : State) → Grows p s (admit lib w i p s).1
  unfolding admit
  admit-Grows w i p s = elim (Bool-cases (str_eq i.idempotency_key [])) [
    | inl e ↦ rw (e, admit) (insert-Grows w i p s)
    | inr e ↦ elim (Result-cases (request_hash lib w i)) [
      | inl (x, f) ↦ inl (rw (e, admit, f, admit) refl)
      | inr (h, f) ↦ rw (e, admit, f, admit) (gate-Grows w i h p s)
    ]
  ]

  -- a request stores nothing, or the row that it prepared
  pub accept-Grows :
      (w : World) (i : AcceptInput) (s : State)
      → ((accept lib w i s).1.pending ≡ s.pending)
        ⊎ ((p : PendingEvent) × (prepare lib w s i ≡ ok p)
            × ((accept lib w i s).1.pending ≡ (s.pending ++ p ∷ [])))
  unfolding accept
  accept-Grows w i s = elim (Result-cases (prepare lib w s i)) [
    | inl (x, e) ↦ inl (rw (e, accept) refl)
    | inr (p, e) ↦ elim (admit-Grows w i p s) [
      | inl same ↦ inl (rw (e, accept) same)
      | inr grown ↦ inr (p, e, rw (e, accept) grown)
    ]
  ]
