-- ===== src/Sealer/Dedupe.antt =====
-- `dedupePending` of server/internal/sealer/sealer.go: which rows of a batch are kept.
use stonewrit.Prelude.{List, [], ◌∷◌, Option, none, some, Text, codes, contains, if◌then◌else◌}
use stonewrit.Prelude.Errors.{Error, Result, ok, err, wrap}
use stonewrit.Db.{PendingEvent, EventRow}
use stonewrit.Db.Queries.{existing_in}

-- the rows at `keepIdx`, and `droppedIDs`
pub record Deduped : Type 0 where
  pub kept : List PendingEvent
  pub dropped : List Text

-- `p.ExternalEventID`, where it is neither nil nor empty
unfoldable pub external_id : PendingEvent → Option Text
external_id p = elim p.external_event_id [
  | none ↦ none
  | some x ↦ elim x [ [] ↦ none | c ∷ s ↦ some (c ∷ s) ]
]

unfoldable pub candidates : List PendingEvent → List Text
unfolding external_id
candidates [] = []
candidates (p ∷ ps) =
    let rest = candidates ps in elim (external_id p) [ none ↦ rest | some x ↦ x ∷ rest ]

abbrev keep : PendingEvent → Deduped → Deduped
keep p d = record { kept = p ∷ d.kept; dropped = d.dropped }

abbrev drop_row : PendingEvent → Deduped → Deduped
drop_row p d = record { kept = d.kept; dropped = p.id ∷ d.dropped }

-- the loop, with the ids `already` in the table and those seen in the batch
unfoldable pub dedupe_loop : List Text → List Text → List PendingEvent → Deduped
unfolding external_id
dedupe_loop already seen [] = record { kept = []; dropped = [] }
dedupe_loop already seen (p ∷ ps) =
    let same = dedupe_loop already seen ps in
    elim (external_id p) [
      | none ↦ keep p same
      | some x ↦
          let fresh = dedupe_loop already (x ∷ seen) ps in
          if contains already x
          then drop_row p same
          else if contains seen x
          then drop_row p same
          else keep p fresh
    ]

-- the query is not made when there is no candidate; `fails` is its error
unfoldable pub existing_ids : Option Error → Text → List EventRow → List Text → Result (List Text)
existing_ids fails env events [] = ok []
existing_ids fails env events (c ∷ cs) = elim fails [
  | none ↦ ok (existing_in env (c ∷ cs) events)
  | some e ↦ err (wrap (codes "look up existing external_event_ids") e)
]

unfoldable pub dedupe_pending :
    Option Error → Text → List EventRow → List PendingEvent → Result Deduped
unfolding dedupe_loop existing_ids candidates
dedupe_pending fails env events pending =
    elim (existing_ids fails env events (candidates pending)) [
      | err e ↦ err e
      | ok already ↦ ok (dedupe_loop already [] pending)
    ]
