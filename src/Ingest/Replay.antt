-- ===== src/Ingest/Replay.antt =====
-- Idempotency keys: what a second request with the same key gets.
use stonewrit.Prelude.{
  ◌≡◌, ◌≢◌, refl, sym, ap, ◌∙◌, inl, inr, true, false, Bool-cases, List, [], ◌∷◌, ◌++◌, none, some,
  Option-cases, Text, str_eq, str_eq_iff, arith,
}
use stonewrit.Prelude.Errors.{ok, Result-cases}
use stonewrit.Json.{JsonLib}
use stonewrit.Spec.{AcceptedResponse}
use stonewrit.Db.{PendingEvent, IdempotencyRow}
use stonewrit.Ingest.{
  World, State, AcceptInput, AcceptResult, prepare, find_key, fresh_result, cached_result, insert,
  gate, admit, accept, insert_pending, claim_key, read_response, request_hash, claim_row, status_of,
}

-- Two answers are the same to the client: the status, and the bytes of the body.
pub record SameAnswer (r r' : AcceptResult) : Type 0 where
  pub status : r.status ≡ r'.status
  pub body : r.body ≡ r'.body

-- the row that answers a key after a successful request with it
pub record IsAnswered (i : AcceptInput) (r : AcceptResult) (s : State) : Type 0 where
  pub row : IdempotencyRow AcceptedResponse
  pub found : find_key i.auth.organization_id i.idempotency_key s.idempotency ≡ some row
  pub status : (cached_result row).status ≡ r.status
  pub body : row.response_body ≡ r.body

find_key-append :
    (org key : Text) (rows : List (IdempotencyRow AcceptedResponse))
    (row : IdempotencyRow AcceptedResponse)
    → find_key org key rows ≡ none
    → row.organization_id ≡ org
    → row.key ≡ key
    → find_key org key (rows ++ row ∷ []) ≡ some row
unfolding find_key
find_key-append org key [] row h o k =
    ground (arith, str_eq_iff row.organization_id org, str_eq_iff row.key key)
find_key-append org key (r ∷ rows) row h o k = ground (arith, find_key-append org key rows row)

find_key-append_left :
    (org key : Text) (rows more : List (IdempotencyRow AcceptedResponse))
    (row : IdempotencyRow AcceptedResponse)
    → find_key org key rows ≡ some row
    → find_key org key (rows ++ more) ≡ some row
unfolding find_key
find_key-append_left org key [] more row h = cc
find_key-append_left org key (r ∷ rows) more row h =
    ground (arith, find_key-append_left org key rows more row)

-- the claimed row answers its key
pub claim_row-found :
    (w : World) (i : AcceptInput) (hash : Text) (p : PendingEvent) (s : State)
    → find_key i.auth.organization_id i.idempotency_key s.idempotency ≡ none
    → find_key i.auth.organization_id i.idempotency_key (s.idempotency ++ claim_row w i hash p ∷ [])
      ≡ some (claim_row w i hash p)
claim_row-found w i hash p s h =
    find_key-append i.auth.organization_id i.idempotency_key s.idempotency (claim_row w i hash p) h
      (unfold claim_row in refl) (unfold claim_row in refl)

insert-state :
    (w : World) (i : AcceptInput) (p : PendingEvent) (s : State) (r : AcceptResult) (s' : State)
    → insert w i p s ≡ (ok r, s')
    → (r ≡ fresh_result w i p) × (s'.idempotency ≡ s.idempotency)
unfolding insert
insert-state w i p s r s' h = elim (Option-cases (w.fails insert_pending)) [
  | inl e ↦ grind (arith, e, h)
  | inr (x, e) ↦ absurd (grind (arith, e, h))
]

fresh-IsAnswered :
    (w : World) (i : AcceptInput) (hash : Text) (p : PendingEvent) (s : State) (r : AcceptResult)
    (s' : State)
    → find_key i.auth.organization_id i.idempotency_key s.idempotency ≡ none
    → r ≡ fresh_result w i p
    → s'.idempotency ≡ s.idempotency ++ claim_row w i hash p ∷ []
    → IsAnswered i r s'
fresh-IsAnswered w i hash p s r s' e fresh table = record {
  row = claim_row w i hash p;
  found =
      ap (find_key i.auth.organization_id i.idempotency_key) table ∙ claim_row-found w i hash p s e;
  status =
      unfold cached_result claim_row status_of in
      sym (ap (λ x. x.status) fresh ∙ unfold fresh_result in refl);
  body = unfold claim_row in sym (ap (λ x. x.body) fresh ∙ unfold fresh_result in refl);
}

gate-IsAnswered :
    (w : World) (i : AcceptInput) (hash : Text) (p : PendingEvent) (s : State) (r : AcceptResult)
    (s' : State)
    → gate w i hash p s ≡ (ok r, s')
    → IsAnswered i r s'
unfolding gate
gate-IsAnswered w i hash p s r s' h = elim (Option-cases (w.fails claim_key)) [
  | inr (x, e) ↦ absurd (grind (arith, e, h))
  | inl e ↦ elim (Option-cases (find_key i.auth.organization_id i.idempotency_key s.idempotency)) [
    | inr (row, e') ↦ elim (Option-cases (w.fails read_response)) [
      | inr (x, e'') ↦ absurd (grind (arith, e, e', e'', h))
      | inl e'' ↦
          let same : s ≡ s' = grind (arith, e, e', e'', h) in
          let answer : cached_result row ≡ r = grind (arith, e, e', e'', h) in
          record {
            row = row;
            found =
                ap (λ x. find_key i.auth.organization_id i.idempotency_key x.idempotency) (sym same)
                ∙ e';
            status = ap (λ x. x.status) answer;
            body = unfold cached_result in ap (λ x. x.body) answer;
          }
    ]
    | inl e' ↦
        let inserted : insert w i p
              (record s { idempotency = s.idempotency ++ claim_row w i hash p ∷ [] })
            ≡ (ok r, s') =
          grind (arith, e, e', h) in
        let (fresh, table) =
          insert-state w i p (record s { idempotency = s.idempotency ++ claim_row w i hash p ∷ [] })
            r s' inserted in
        fresh-IsAnswered w i hash p s r s' e' fresh table
  ]
]

module _ (lib : JsonLib) where
  -- the second request, when its key has an answer
  pub answered_again :
      (w : World) (i : AcceptInput) (s : State) (row : IdempotencyRow AcceptedResponse)
      (p : PendingEvent) (hash : Text)
      → i.idempotency_key ≢ []
      → find_key i.auth.organization_id i.idempotency_key s.idempotency ≡ some row
      → prepare lib w s i ≡ ok p
      → request_hash lib w i ≡ ok hash
      → w.fails claim_key ≡ none
      → w.fails read_response ≡ none
      → accept lib w i s ≡ (ok (cached_result row), s)
  unfolding accept admit gate
  answered_again w i s row p hash keyed found ready hashed f1 f2 =
      rw (ready, accept, admit, not_empty, hashed, gate, f1, found, f2) refl
    where
      not_empty : str_eq i.idempotency_key [] ≡ false
      not_empty = ground (arith, str_eq_iff i.idempotency_key [], keyed)

  accept-IsAnswered :
      (w : World) (i : AcceptInput) (s : State) (r : AcceptResult) (s' : State)
      → i.idempotency_key ≢ []
      → accept lib w i s ≡ (ok r, s')
      → IsAnswered i r s'
  unfolding accept admit
  accept-IsAnswered w i s r s' keyed h = elim (Result-cases (prepare lib w s i)) [
    | inl (x, e) ↦ absurd (grind (arith, e, h))
    | inr (p, e) ↦ elim (Bool-cases (str_eq i.idempotency_key [])) [
      | inl e' ↦ absurd (keyed ((str_eq_iff i.idempotency_key []).0 e'))
      | inr e' ↦ elim (Result-cases (request_hash lib w i)) [
        | inl (x, e'') ↦ absurd (grind (arith, e, e', e'', h))
        | inr (hash, e'') ↦ gate-IsAnswered w i hash p s r s' (grind (arith, e, e', e'', h))
      ]
    ]
  ]

  -- After a request with an idempotency key was answered, each later request of the organisation with
  -- that key, whatever its event, gets the same status and the same body and changes no table, if the
  -- steps before the gate succeed and its two queries do not fail. Rows of other keys may have been
  -- added in between.
  pub accept_replay :
      (w : World) (i : AcceptInput) (s : State) (r : AcceptResult) (s' : State) (w' : World)
      (i' : AcceptInput) (later : State) (more : List (IdempotencyRow AcceptedResponse))
      (p : PendingEvent) (hash : Text)
      → i.idempotency_key ≢ []
      → accept lib w i s ≡ (ok r, s')
      → i'.auth.organization_id ≡ i.auth.organization_id
      → i'.idempotency_key ≡ i.idempotency_key
      → later.idempotency ≡ s'.idempotency ++ more
      → prepare lib w' later i' ≡ ok p
      → request_hash lib w' i' ≡ ok hash
      → w'.fails claim_key ≡ none
      → w'.fails read_response ≡ none
      → (r' : AcceptResult) × (accept lib w' i' later ≡ (ok r', later))
        × (r'.cached ≡ true)
        × SameAnswer r r'
  accept_replay w i s r s' w' i' later more p hash keyed h org key table ready hashed f1 f2 =
      let a = accept-IsAnswered w i s r s' keyed h in
      (
        cached_result a.row,
        answered_again w' i' later a.row p hash (λ e. keyed (sym key ∙ e)) (found a) ready hashed f1
            f2,
        unfold cached_result in refl,
        record { status = sym a.status; body = unfold cached_result in sym a.body },
      )
    where
      found :
          (a : IsAnswered i r s')
          → find_key i'.auth.organization_id i'.idempotency_key later.idempotency ≡ some a.row
      found a =
          rw (org, key, table)
            (find_key-append_left i.auth.organization_id i.idempotency_key s'.idempotency more a.row
              a.found)
