-- ===== src/Core/Verify/Walk.antt =====
-- `VerifyChain` accepts exactly the chains that link up, and stops at the first record that does not.
use stonewrit.Prelude.{
  ℕ, ◌+◌, ◌≡◌, refl, ap, ◌↔◌, ◌⊎◌, inl, inr, true, false, Option-cases, Option, none, some, List,
  [], ◌∷◌, ◌++◌, Text, str_eq_iff, length, arith,
}
use stonewrit.Prelude.Errors.{Result, ok, err}
use stonewrit.Json.{JsonLib}
use stonewrit.Core.Hash.{event_hash, payload_hash}
use stonewrit.Core.Payload.{ContentInput, build_content_payload}
use stonewrit.Core.Verify.{
  Record, ChainBreak, ChainResult, or_else, tip_break, hash_break, content_break, check_record,
  walk, verify_chain,
}

-- an explicit previous hash is the running tip
abbrev pub Follows : Text → Option Text → Type 0
Follows prev none = Unit
Follows prev (some stored) = stored ≡ prev

module _ (lib : JsonLib) where
  -- a content hashes to the stored payload hash
  abbrev pub Commits : Text → Option ContentInput → Type 0
  Commits stored none = Unit
  Commits stored (some c) = payload_hash lib (build_content_payload c) ≡ ok stored

  -- the record is the next one after an event of hash `prev`
  abbrev pub Extends : Text → Record → Type 0
  Extends prev r =
      Follows prev r.previous_event_hash
      × (event_hash prev r.payload_hash r.chain_position ≡ r.event_hash)
      × Commits r.payload_hash r.content

  -- every record extends the one before it, the first one `prev`
  abbrev pub Extend : Text → List Record → Type 0
  Extend prev [] = Unit
  Extend prev (r ∷ rs) = Extends prev r × Extend r.event_hash rs

  or_else-eq-none : (a b : Option ChainBreak) → or_else lib a b ≡ none → (a ≡ none) × (b ≡ none)
  unfolding or_else
  or_else-eq-none none b h = (refl, h)
  or_else-eq-none (some a) b h = cc

  tip_break_iff :
      (prev : Text) (r : Record) (o : Option Text)
      → (tip_break lib prev r o ≡ none) ↔ Follows prev o
  unfolding tip_break
  tip_break_iff prev r none = (λ _. tt, λ _. refl)
  tip_break_iff prev r (some stored) = ground (arith, str_eq_iff stored prev)

  hash_break_iff :
      (prev : Text) (r : Record)
      → (hash_break lib prev r ≡ none)
        ↔ (event_hash prev r.payload_hash r.chain_position ≡ r.event_hash)
  unfolding hash_break
  hash_break_iff prev r =
      ground (arith, str_eq_iff (event_hash prev r.payload_hash r.chain_position) r.event_hash)

  content_test :
      (r : Record) (c : ContentInput) (res : Result Text)
      → payload_hash lib (build_content_payload c) ≡ res
      → (content_break lib r (some c) ≡ none) ↔ (res ≡ ok r.payload_hash)
  unfolding content_break
  content_test r c (ok h) e = rw (e, content_break) (ground (arith, str_eq_iff h r.payload_hash))
  content_test r c (err x) e = rw (e, content_break) (ground arith)

  content_break_iff :
      (r : Record) (o : Option ContentInput)
      → (content_break lib r o ≡ none) ↔ Commits r.payload_hash o
  content_break_iff r none = (λ _. tt, λ _. unfold content_break in refl)
  content_break_iff r (some c) = content_test r c _ refl

  -- the checks of one round pass exactly when the record extends the tip
  pub check_record_iff :
      (prev : Text) (r : Record) → (check_record lib prev r ≡ none) ↔ Extends prev r
  unfolding check_record
  check_record_iff prev r = (
    λ h.
        let (p, q) = or_else-eq-none _ _ h in
        let (p', q') = or_else-eq-none _ _ q in
        (
          (tip_break_iff prev r r.previous_event_hash).0 p,
          (hash_break_iff prev r).0 p',
          (content_break_iff r r.content).0 q',
        ),
    λ h.
        rw
          (
            (tip_break_iff prev r r.previous_event_hash).1 h.0,
            (hash_break_iff prev r).1 h.1,
            (content_break_iff r r.content).1 h.2,
            or_else,
          )
          refl,
  )

  -- the loop from a tip `prev`, with `n` records verified before
  walk_iff :
      (count n : ℕ) (prev : Text) (rs : List Record)
      → ((walk lib count prev n rs).valid ≡ true) ↔ Extend prev rs
  unfolding walk
  walk_iff count n prev [] = (λ _. tt, λ _. refl)
  walk_iff count n prev (r ∷ rs) =
      grind (arith, walk_iff count (n + 1) r.event_hash rs, check_record_iff prev r)

  -- The verifier accepts a list of records exactly when each follows the one before it, its event
  -- hash recomputes, and its payload hash does where it carries its content.
  pub verify_chain_iff : (rs : List Record) → ((verify_chain lib rs).valid ≡ true) ↔ Extend [] rs
  unfolding verify_chain
  verify_chain_iff rs = walk_iff (length rs) 0 [] rs

  -- the tip after records, from the tip before them
  abbrev pub end_tip : Text → List Record → Text
  end_tip prev [] = prev
  end_tip prev (r ∷ rs) = end_tip r.event_hash rs

  -- a verdict of the loop: all records verified, or a break at the first bad one
  abbrev pub Verdict : ℕ → Text → List Record → ChainResult → Type 0
  Verdict n prev rs res =
      (Extend prev rs
        × (res.valid ≡ true)
        × (res.broken ≡ none)
        × (res.events_verified ≡ n + length rs))
      ⊎ ((good : List Record) × (bad : Record) × (rest : List Record) × (b : ChainBreak) × (rs
            ≡ good ++ bad ∷ rest)
          × Extend prev good
          × (check_record lib (end_tip prev good) bad ≡ some b)
          × (res.valid ≡ false)
          × (res.broken ≡ some b)
          × (res.events_verified ≡ n + length good))

  walk-Verdict :
      (count n : ℕ) (prev : Text) (rs : List Record) → Verdict n prev rs (walk lib count prev n rs)
  unfolding walk
  walk-Verdict count n prev [] = inl (tt, refl, refl, omega arith)
  walk-Verdict count n prev (r ∷ rs) = elim (Option-cases (check_record lib prev r)) [
    | inl fine ↦
        let ext = (check_record_iff prev r).0 fine in
        elim (walk-Verdict count (n + 1) r.event_hash rs) [
          | inl (all, v, b, k) ↦
              inl ((ext, all), rw (fine, walk) v, rw (fine, walk) b, rw (fine, walk) (omega arith))
          | inr (good, bad, rest, b, e, g, c, v, br, k) ↦ inr (
            r ∷ good,
            bad,
            rest,
            b,
            ap (◌∷◌ r) e,
            (ext, g),
            c,
            rw (fine, walk) v,
            rw (fine, walk) br,
            rw (fine, walk) (omega arith),
          )
        ]
    | inr (b, broken) ↦ inr (
      [],
      r,
      rs,
      b,
      refl,
      tt,
      broken,
      rw (broken, walk) refl,
      rw (broken, walk) refl,
      rw (broken, walk) (omega arith),
    )
  ]

  -- The verifier either verifies every record, or reports the first record that does not extend the
  -- chain before it, and counts the records in front of that one.
  pub verify_chain-Verdict : (rs : List Record) → Verdict 0 [] rs (verify_chain lib rs)
  unfolding verify_chain
  verify_chain-Verdict rs = walk-Verdict (length rs) 0 [] rs
