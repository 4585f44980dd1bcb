-- ===== src/Migrate/Once.antt =====
-- Up reports what it recorded, and a second run does nothing.
use stonewrit.Prelude.{
  ◌≡◌, ◌≢◌, subst, refl, sym, ap, ◌∙◌, inl, inr, true, false, Bool-cases, Option-cases, none, some,
  List, [], ◌∷◌, ◌++◌, append_assoc, append-nil, All, arith,
}
use stonewrit.Prelude.Errors.{Error, ok}
use stonewrit.Prelude.Int.{ℤ, int_eq_iff}
use stonewrit.Migrate.{
  Migration, Journal, World, Outcome, is_done, record_up, up_loop, read_done, up,
}

is_done-append :
    (done more : List ℤ) (v : ℤ) → is_done done v ≡ true → is_done (done ++ more) v ≡ true
unfolding is_done
is_done-append [] more v h = cc
is_done-append (d ∷ done) more v h = ground (arith, is_done-append done more v)

pub is_done-last : (done : List ℤ) (v : ℤ) → is_done (done ++ v ∷ []) v ≡ true
unfolding is_done
is_done-last [] v = ground (arith, int_eq_iff v v)
is_done-last (d ∷ done) v = ground (arith, is_done-last done v)

-- the loop appends to the table what it appends to its report
up_loop-versions :
    (w : World) (done : List ℤ) (ms : List Migration) (applied : List ℤ) (j : Journal)
    (base : List ℤ)
    → j.versions ≡ base ++ applied
    → (up_loop w done ms applied j).journal.versions ≡ base ++ (up_loop w done ms applied j).applied
unfolding up_loop record_up
up_loop-versions w done [] applied j base h = h
up_loop-versions w done (m ∷ ms) applied j base h = elim (Bool-cases (is_done done m.version)) [
  | inl e ↦ rw (e, up_loop) (up_loop-versions w done ms applied j base h)
  | inr e ↦ elim (Option-cases (w.tx_fails m.version)) [
    | inr (x, f) ↦ rw (e, f, up_loop) h
    | inl f ↦
        rw (e, f, up_loop)
          (up_loop-versions w done ms (applied ++ m.version ∷ []) (record_up m j) base
            (ap (λ vs. vs ++ m.version ∷ []) h ∙ append_assoc base applied (m.version ∷ [])))
  ]
]

-- what is in the table stays in it
up_loop-keeps :
    (w : World) (done : List ℤ) (ms : List Migration) (applied : List ℤ) (j : Journal) (v : ℤ)
    → is_done j.versions v ≡ true
    → is_done (up_loop w done ms applied j).journal.versions v ≡ true
unfolding up_loop record_up
up_loop-keeps w done [] applied j v h = h
up_loop-keeps w done (m ∷ ms) applied j v h = elim (Bool-cases (is_done done m.version)) [
  | inl e ↦ rw (e, up_loop) (up_loop-keeps w done ms applied j v h)
  | inr e ↦ elim (Option-cases (w.tx_fails m.version)) [
    | inr (x, f) ↦ rw (e, f, up_loop) h
    | inl f ↦
        rw (e, f, up_loop)
          (up_loop-keeps w done ms (applied ++ m.version ∷ []) (record_up m j) v
            (is_done-append j.versions (m.version ∷ []) v h))
  ]
]

-- a round over a migration that was applied before, and one that applies its migration
up_loop-skip :
    (w : World) (done : List ℤ) (m : Migration) (ms : List Migration) (applied : List ℤ)
    (j : Journal)
    → is_done done m.version ≡ true
    → up_loop w done (m ∷ ms) applied j ≡ up_loop w done ms applied j
unfolding up_loop
up_loop-skip w done m ms applied j e = rw (e, up_loop) refl

pub up_loop-step :
    (w : World) (done : List ℤ) (m : Migration) (ms : List Migration) (applied : List ℤ)
    (j : Journal)
    → is_done done m.version ≡ false
    → w.tx_fails m.version ≡ none
    → up_loop w done (m ∷ ms) applied j
      ≡ up_loop w done ms (applied ++ m.version ∷ []) (record_up m j)
unfolding up_loop
up_loop-step w done m ms applied j e f = rw (e, f, up_loop) refl

up_loop-failed :
    (w : World) (done : List ℤ) (m : Migration) (ms : List Migration) (applied : List ℤ)
    (j : Journal) (x : Error)
    → is_done done m.version ≡ false
    → w.tx_fails m.version ≡ some x
    → (up_loop w done (m ∷ ms) applied j).error ≢ none
unfolding up_loop
up_loop-failed w done m ms applied j x e f h = cc (rw (e, f, up_loop) at h)

-- every one of the migrations is in the table
abbrev pub AllDone : List Migration → Outcome → Type 0
AllDone ms o = All (λ m. is_done o.journal.versions m.version ≡ true) ms

-- the migrations of a loop without an error are in the table after it
up_loop-AllDone :
    (w : World) (done : List ℤ) (ms : List Migration) (applied : List ℤ) (j : Journal)
    → ((v : ℤ) → is_done done v ≡ true → is_done j.versions v ≡ true)
    → (up_loop w done ms applied j).error ≡ none
    → AllDone ms (up_loop w done ms applied j)
up_loop-AllDone w done [] applied j sub h = tt
up_loop-AllDone w done (m ∷ ms) applied j sub h = elim (Bool-cases (is_done done m.version)) [
  | inl e ↦
      let same = up_loop-skip w done m ms applied j e in
      subst (AllDone (m ∷ ms)) (sym same) (
        up_loop-keeps w done ms applied j m.version (sub m.version e),
        up_loop-AllDone w done ms applied j sub (ap (λ o. o.error) (sym same) ∙ h),
      )
  | inr e ↦ elim (Option-cases (w.tx_fails m.version)) [
    | inr (x, f) ↦ absurd (up_loop-failed w done m ms applied j x e f h)
    | inl f ↦
        let same = up_loop-step w done m ms applied j e f in
        subst (AllDone (m ∷ ms)) (sym same) (
          up_loop-keeps w done ms (applied ++ m.version ∷ []) (record_up m j) m.version
              (unfold record_up in is_done-last j.versions m.version),
          up_loop-AllDone w done ms (applied ++ m.version ∷ []) (record_up m j)
              (λ v d. unfold record_up in is_done-append j.versions (m.version ∷ []) v (sub v d))
              (ap (λ o. o.error) (sym same) ∙ h),
        )
  ]
]

-- a loop over applied migrations does nothing
up_loop-idle :
    (w : World) (done : List ℤ) (ms : List Migration) (applied : List ℤ) (j : Journal)
    → All (λ m. is_done done m.version ≡ true) ms
    → up_loop w done ms applied j ≡ record { applied = applied; error = none; journal = j }
unfolding up_loop
up_loop-idle w done [] applied j h = refl
up_loop-idle w done (m ∷ ms) applied j (e, h) = rw (e, up_loop) (up_loop-idle w done ms applied j h)

-- a run that got to its loop
pub up-loop :
    (w : World) (ms : List Migration) (j : Journal)
    → w.ensure_fails ≡ none
    → w.read_fails ≡ none
    → up w (ok ms) j ≡ up_loop w j.versions ms [] j
unfolding up read_done
up-loop w ms j e r = rw (e, r, up) refl

-- Once the two queries in front succeed, the table of versions has grown by exactly the versions that
-- Up reports, in their order, also when it stops at an error.
pub up-versions :
    (w : World) (ms : List Migration) (j : Journal)
    → w.ensure_fails ≡ none
    → w.read_fails ≡ none
    → (up w (ok ms) j).journal.versions ≡ j.versions ++ (up w (ok ms) j).applied
up-versions w ms j e r =
    rw (up-loop w ms j e r)
      (up_loop-versions w j.versions ms [] j j.versions (sym (append-nil j.versions)))

-- After a run of Up without an error, a second run on the same migrations, whatever would fail in a
-- migration, applies nothing, returns no error and changes nothing, if its two queries succeed.
pub up_twice :
    (w w' : World) (ms : List Migration) (j : Journal)
    → w.ensure_fails ≡ none
    → w.read_fails ≡ none
    → w'.ensure_fails ≡ none
    → w'.read_fails ≡ none
    → (up w (ok ms) j).error ≡ none
    → up w' (ok ms) (up w (ok ms) j).journal
      ≡ record { applied = []; error = none; journal = (up w (ok ms) j).journal }
up_twice w w' ms j e r e' r' h =
    let first = up-loop w ms j e r in
    up-loop w' ms (up w (ok ms) j).journal e' r'
    ∙ up_loop-idle w' (up w (ok ms) j).journal.versions ms [] (up w (ok ms) j).journal (
        subst (AllDone ms) (sym first)
          (up_loop-AllDone w j.versions ms [] j (λ v d. d) (ap (λ o. o.error) (sym first) ∙ h)))
