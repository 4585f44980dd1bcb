-- ===== src/Migrate/Undo.antt =====
-- Down takes back what Up applied last (server/internal/migrate/migrate.go).
use mathlib.Core.List.{reverse-append}
use stonewrit.Prelude.{
  ◌≡◌, refl, ap, ◌∙◌, inl, inr, true, false, not, Bool-cases, none, List, [], ◌∷◌, ◌++◌, filter,
  reverse, All, str_eq,
}
use stonewrit.Prelude.Errors.{ok}
use stonewrit.Prelude.Int.{ℤ, int_eq, int_eq_iff}
use stonewrit.Migrate.{
  Migration, Journal, World, Outcome, DownOutcome, is_done, record_up, record_down, up_loop, up,
  read_done, down_loop, down,
}
use stonewrit.Migrate.Once.{is_done-last, up_loop-step, up-loop}

-- the loop of Up passes over what was applied before
up_loop-pass :
    (w : World) (done : List ℤ) (ms more : List Migration) (applied : List ℤ) (j : Journal)
    → All (λ m. is_done done m.version ≡ true) ms
    → up_loop w done (ms ++ more) applied j ≡ up_loop w done more applied j
unfolding up_loop
up_loop-pass w done [] more applied j h = refl
up_loop-pass w done (m ∷ ms) more applied j (e, h) =
    rw (e, up_loop) (up_loop-pass w done ms more applied j h)

-- a version that is not in the table is not taken out of it
filter_out :
    (done : List ℤ) (v : ℤ)
    → is_done done v ≡ false
    → filter (λ d. not (int_eq d v)) (done ++ v ∷ []) ≡ done
unfolding is_done
filter_out [] v h = rw ((int_eq_iff v v).1 refl) refl
filter_out (d ∷ done) v h = elim (Bool-cases (int_eq d v)) [
  | inl e ↦ absurd (cc (rw (e, is_done) at h))
  | inr e ↦ rw e (ap (◌∷◌ d) (filter_out done v (rw (e, is_done) at h)))
]

reverse-last : (ms : List Migration) (m : Migration) → reverse (ms ++ m ∷ []) ≡ m ∷ reverse ms
reverse-last ms m = reverse-append ms (m ∷ [])

-- a run of Down that got to its loop
down-loop :
    (w : World) (ms : List Migration) (j : Journal)
    → w.ensure_fails ≡ none
    → w.read_fails ≡ none
    → down w (ok ms) j ≡ down_loop w j.versions (reverse ms) j
unfolding down read_done
down-loop w ms j e r = rw (e, r, down) refl

down_loop-first :
    (w : World) (done : List ℤ) (m : Migration) (older : List Migration) (j : Journal)
    → is_done done m.version ≡ true
    → str_eq m.down_sql [] ≡ false
    → w.tx_fails m.version ≡ none
    → down_loop w done (m ∷ older) j
      ≡ record { version = m.version; error = none; journal = record_down m j }
unfolding down_loop
down_loop-first w done m older j d s t = rw (d, down_loop, s, t) refl

-- If all migrations but the newest are applied, the newest has a down file and nothing fails: Up applies
-- just the newest, Down after it reports the same version, and the table of versions is as before both.
pub down_undoes_up :
    (w : World) (ms : List Migration) (m : Migration) (j : Journal)
    → w.ensure_fails ≡ none
    → w.read_fails ≡ none
    → w.tx_fails m.version ≡ none
    → All (λ (o : Migration). is_done j.versions o.version ≡ true) ms
    → is_done j.versions m.version ≡ false
    → str_eq m.down_sql [] ≡ false
    → ((up w (ok (ms ++ m ∷ [])) j).applied ≡ m.version ∷ [])
      × ((down w (ok (ms ++ m ∷ [])) (up w (ok (ms ++ m ∷ [])) j).journal).version ≡ m.version)
      × ((down w (ok (ms ++ m ∷ [])) (up w (ok (ms ++ m ∷ [])) j).journal).journal.versions
          ≡ j.versions)
down_undoes_up w ms m j e r t old new s =
    let ran : up w (ok (ms ++ m ∷ [])) j
        ≡ record { applied = m.version ∷ []; error = none; journal = record_up m j } =
      up-loop w (ms ++ m ∷ []) j e r
      ∙ up_loop-pass w j.versions ms (m ∷ []) [] j old
      ∙ up_loop-step w j.versions m [] [] j new t
      ∙ (unfold up_loop in refl) in
    let undone : down w (ok (ms ++ m ∷ [])) (record_up m j)
        ≡ record { version = m.version; error = none; journal = record_down m (record_up m j) } =
      down-loop w (ms ++ m ∷ []) (record_up m j) e r
      ∙ ap (λ l. down_loop w (record_up m j).versions l (record_up m j)) (reverse-last ms m)
      ∙ down_loop-first w (record_up m j).versions m (reverse ms) (record_up m j)
          (unfold record_up in is_done-last j.versions m.version) s t in
    (
      ap (λ (o : Outcome). o.applied) ran,
      ap (λ (o : Outcome). (down w (ok (ms ++ m ∷ [])) o.journal).version) ran
          ∙ ap (λ (o : DownOutcome). o.version) undone,
      ap (λ (o : Outcome). (down w (ok (ms ++ m ∷ [])) o.journal).journal.versions) ran
          ∙ ap (λ (o : DownOutcome). o.journal.versions) undone
          ∙ (unfold record_down record_up in filter_out j.versions m.version new),
    )
