-- ===== src/VerifyService/Sound.antt =====
-- What the answer about a sealed event means, and which rows that the sealer builds pass.
use stonewrit.Prelude.{
  ◌≢◌, ◌↔◌, ◌∙◌, sym, inl, inr, Bool-cases, str_eq_iff, ◌≡◌, refl, ap, true, false, ◌&&◌, [], ◌∷◌,
  Option, none, some, Text, str_eq, str_eq_refl, arith,
}
use stonewrit.Prelude.Errors.{Result, ok, err}
use stonewrit.Prelude.Int.{ℤ, pos, int_eq, int_eq_iff}
use stonewrit.Json.{JsonLib, Fields, end, field}
use stonewrit.Spec.{EventInput}
use stonewrit.Core.Hash.{payload_hash, event_hash}
use stonewrit.Core.Payload.{ContentInput, build_content_payload}
use stonewrit.Core.Verify.{verify_event, text_or_empty, links, recomputed_payload, matches, is_some}
use stonewrit.Classify.{Classification}
use stonewrit.Db.{PendingEvent, EventDataEnvelope, EventRow}
use stonewrit.Sealer.Row.{null_if_empty, build_event_row}
use stonewrit.VerifyService.{
  content_of, record_of, pending_content, Answer, pending_answer, verify_sealed, verify_pending,
}
use stonewrit.Spec.Encode.{stored_metadata, reread}

-- the link of a row: nothing before position 1, something before every other
abbrev pub IsLink : ℤ → Text → Type 0
IsLink position [] = int_eq position (pos 1) ≡ true
IsLink position (c ∷ prev) = int_eq position (pos 1) ≡ false

-- the event hash of a row is right for this previous hash, which fits its position
abbrev pub IsHashed : Option Text → EventRow → Type 0
IsHashed none ev =
    (ev.event_hash ≡ event_hash [] ev.payload_hash ev.chain_position) × (ev.chain_position ≡ pos 1)
IsHashed (some prev) ev =
    (ev.event_hash ≡ event_hash prev ev.payload_hash ev.chain_position)
    × (ev.chain_position ≢ pos 1)
    × (prev ≢ [])

IsHashed-iff :
    (prev : Option Text) (ev : EventRow)
    → ((str_eq (event_hash (text_or_empty prev) ev.payload_hash ev.chain_position) ev.event_hash
          && links ev.chain_position prev)
        ≡ true)
      ↔ IsHashed prev ev
unfolding text_or_empty links
IsHashed-iff none ev =
    let hash = str_eq_iff (event_hash [] ev.payload_hash ev.chain_position) ev.event_hash in
    let first = int_eq_iff ev.chain_position (pos 1) in
    (
      λ h. (sym (hash.0 (ground arith)), first.0 (ground arith)),
      λ h. let a = hash.1 (sym h.0) in let b = first.1 h.1 in ground arith,
    )
IsHashed-iff (some prev) ev =
    let hash = str_eq_iff (event_hash prev ev.payload_hash ev.chain_position) ev.event_hash in
    let first = int_eq_iff ev.chain_position (pos 1) in
    let nothing = str_eq_iff prev [] in
    (
      λ h. (
        sym (hash.0 (ground arith)),
        λ e. let b = first.1 e in ground arith,
        λ e. let b = nothing.1 e in ground arith,
      ),
      λ h.
          let a = hash.1 (sym h.0) in
          let b : int_eq ev.chain_position (pos 1) ≡ false =
            elim (Bool-cases (int_eq ev.chain_position (pos 1))) [
              | inl t ↦ absurd (h.1 (first.0 t))
              | inr f ↦ f
            ] in
          let c : str_eq prev [] ≡ false = elim (Bool-cases (str_eq prev [])) [
            | inl t ↦ absurd (h.2 (nothing.0 t))
            | inr f ↦ f
          ] in
          ground arith,
    )

stored_metadata-stable :
    (m : Option Fields) → stored_metadata (stored_metadata m) ≡ stored_metadata m
unfolding stored_metadata
stored_metadata-stable none = refl
stored_metadata-stable (some end) = refl
stored_metadata-stable (some (field k v m)) = refl

-- storing an event once more changes nothing
pub reread-stable : (e : EventInput) → reread (reread e) ≡ reread e
unfolding reread
reread-stable e = ap (λ m. record e { metadata = m }) (stored_metadata-stable e.metadata)

module _ (lib : JsonLib) where
  undecodable-valid :
      (ev : EventRow)
      → ev.raw_payload ≡ none
      → (verify_sealed lib ev).valid ≡ (
          str_eq
            (event_hash (text_or_empty ev.previous_event_hash) ev.payload_hash ev.chain_position)
            ev.event_hash
          && links ev.chain_position ev.previous_event_hash)
  unfolding verify_sealed record_of content_of verify_event is_some
  undecodable-valid ev h = grind (arith, h)

  -- A sealed row whose raw payload does not decode is reported valid, without a computed payload hash,
  -- exactly when its event hash is that of its previous hash, payload hash and position, and it has a
  -- previous hash that is not empty and a position other than 1, or no previous hash and position 1.
  pub undecodable_passes :
      (ev : EventRow)
      → ev.raw_payload ≡ none
      → (((verify_sealed lib ev).valid ≡ true) ↔ IsHashed ev.previous_event_hash ev)
        × ((verify_sealed lib ev).computed_payload_hash ≡ none)
  unfolding verify_sealed record_of content_of verify_event recomputed_payload
  undecodable_passes ev h =
      let (to, back) = IsHashed-iff ev.previous_event_hash ev in
      (
        (λ v. to (sym (undecodable-valid ev h) ∙ v), λ r. undecodable-valid ev h ∙ back r),
        grind (arith, h),
      )

  recomputed_payload-some :
      (c : ContentInput) (hash : Text)
      → payload_hash lib (build_content_payload c) ≡ ok hash
      → recomputed_payload lib (some c) ≡ some hash
  unfolding recomputed_payload
  recomputed_payload-some c hash h = rw (h, recomputed_payload) refl

  verify_event-valid :
      (prev : Option Text) (hash : Text) (position : ℤ) (c : ContentInput)
      → payload_hash lib (build_content_payload c) ≡ ok hash
      → links position prev ≡ true
      → (verify_event lib (record {
        previous_event_hash = prev;
        payload_hash = hash;
        event_hash = event_hash (text_or_empty prev) hash position;
        chain_position = position;
        content = some c;
      })).valid
        ≡ true
  unfolding verify_event links is_some matches
  verify_event-valid prev hash position c h l =
      rw
        (
          recomputed_payload-some c hash h,
          l,
          verify_event,
          str_eq_refl (event_hash (text_or_empty prev) hash position),
          str_eq_refl hash,
        )
        refl

  pub answer_of :
      (p : PendingEvent) (env : EventDataEnvelope) (r : Result Text)
      → payload_hash lib (build_content_payload (pending_content p env)) ≡ r
      → p.event_data ≡ some env
      → verify_pending lib p
        ≡ (elim r [ err e ↦ err e | ok recomputed ↦ ok (pending_answer lib p recomputed) ])
  unfolding verify_pending
  answer_of p env r e h = grind (arith, h, e)

  pub pending_verifies :
      (p : PendingEvent) (env : EventDataEnvelope)
      → p.event_data ≡ some env
      → payload_hash lib (build_content_payload (pending_content p env)) ≡ ok p.payload_hash
      → (a : Answer) × (verify_pending lib p ≡ ok a) × (a.valid ≡ true)
  unfolding pending_answer
  pending_verifies p env h e = (
    pending_answer lib p p.payload_hash,
    answer_of p env (ok p.payload_hash) e h,
    str_eq_refl p.payload_hash,
  )

  pub sealed_verifies :
      (p : PendingEvent) (env : EventDataEnvelope) (chain_id : Text) (position : ℤ) (prev : Text)
      (cl : Classification)
      → payload_hash lib
          (build_content_payload (pending_content p (record env { input = reread env.input })))
        ≡ ok p.payload_hash
      → IsLink position prev
      → (verify_sealed lib (
          build_event_row p env chain_id p.project_id position prev
            (event_hash prev p.payload_hash position)
            cl)).valid
        ≡ true
  unfolding verify_sealed build_event_row record_of null_if_empty content_of pending_content links
      text_or_empty str_eq
  sealed_verifies p env chain_id position [] cl h link =
      verify_event-valid none p.payload_hash position
        (pending_content p (record env { input = reread env.input })) h link
  sealed_verifies p env chain_id position (c ∷ prev) cl h link =
      verify_event-valid (some (c ∷ prev)) p.payload_hash position
        (pending_content p (record env { input = reread env.input })) h (rw (link) refl)
