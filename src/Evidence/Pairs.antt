-- ===== src/Evidence/Pairs.antt =====
-- The pairs of a mapping and an event that an evidence summary counts, told apart by one test
-- (GetEvidenceCountsPerControl of server/internal/queries/gen/evidence.sql.go).
use stonewrit.Prelude.{
  ℕ, suc, ◌+◌, ◌≡◌, refl, ap, ◌∙◌, inl, inr, true, false, ◌&&◌, Bool, Bool-cases, List, [], ◌∷◌,
  ◌++◌, map, filter, length, Text, str_eq, leb, ltb, arith,
}
use stonewrit.Db.{EventRow, MappingRow}
use stonewrit.Evidence.{Window, in_period, in_window, joined, count_of, count_events}

-- all pairs of two lists
abbrev pub cross : List MappingRow → List EventRow → List (MappingRow × EventRow)
cross [] es = []
cross (m ∷ ms) es = map (λ (e : EventRow). (m, e)) es ++ cross ms es

-- The mapping is one of the organization to the control of the framework, and it is of the event, which
-- is one of the project and was received in the period.
abbrev pub is_evidence : Window → Text → Text → MappingRow × EventRow → Bool
is_evidence w framework control (m, e) =
    str_eq m.organization_id w.organization_id
    && (str_eq m.framework framework
        && (str_eq control m.control_id
            && (str_eq e.id m.event_id
                && (str_eq e.project_id w.project_id
                    && (leb w.from e.received_at && ltb e.received_at w.to)))))

abbrev pub evidence_pairs : Window → Text → Text → List MappingRow → List EventRow → ℕ
evidence_pairs w framework control ms es =
    length (filter (is_evidence w framework control) (cross ms es))

-- the event is one of the organization and the project, received in the period
abbrev pub is_of : Window → EventRow → Bool
is_of w e =
    str_eq e.organization_id w.organization_id
    && (str_eq e.project_id w.project_id && (leb w.from e.received_at && ltb e.received_at w.to))

length-filter-append :
    {A : Type 0} (p : A → Bool) (xs ys : List A)
    → length (filter p (xs ++ ys)) ≡ length (filter p xs) + length (filter p ys)
length-filter-append p [] ys = omega arith
length-filter-append p (x ∷ xs) ys = ground (arith, length-filter-append p xs ys)

length-filter-map :
    {A B : Type 0} (p : B → Bool) (f : A → B) (xs : List A)
    → length (filter p (map f xs)) ≡ length (filter (λ a. p (f a)) xs)
length-filter-map p f [] = refl
length-filter-map p f (x ∷ xs) = ground (arith, length-filter-map p f xs)

-- the pairs of one mapping
one_mapping :
    (w : Window) (framework control : Text) (m : MappingRow) (es : List EventRow)
    → (str_eq m.organization_id w.organization_id && str_eq m.framework framework) ≡ true
    → length (
        filter (str_eq control) (
          map
            (λ (e : EventRow). m.control_id)
            (filter (λ (e : EventRow). str_eq e.id m.event_id && in_period w e) es)))
      ≡ length (filter (λ (e : EventRow). is_evidence w framework control (m, e)) es)
unfolding in_period
one_mapping w framework control m [] h = refl
one_mapping w framework control m (e ∷ es) h =
    ground (arith, one_mapping w framework control m es h)

no_mapping :
    (w : Window) (framework control : Text) (m : MappingRow) (es : List EventRow)
    → (str_eq m.organization_id w.organization_id && str_eq m.framework framework) ≡ false
    → length (filter (λ (e : EventRow). is_evidence w framework control (m, e)) es) ≡ 0
no_mapping w framework control m [] h = refl
no_mapping w framework control m (e ∷ es) h = ground (arith, no_mapping w framework control m es h)

-- the rows that the join returns for a control are its pairs
pub count_of-joined :
    (w : Window) (framework control : Text) (es : List EventRow) (ms : List MappingRow)
    → count_of control (joined w framework es ms) ≡ evidence_pairs w framework control ms es
unfolding count_of joined
count_of-joined w framework control es [] = refl
count_of-joined w framework control es (m ∷ ms) =
    let rest = count_of-joined w framework control es ms in
    let split =
      length-filter-append (is_evidence w framework control) (map (λ (e : EventRow). (m, e)) es)
        (cross ms es) in
    let here = length-filter-map (is_evidence w framework control) (λ (e : EventRow). (m, e)) es in
    elim (Bool-cases (str_eq m.organization_id w.organization_id && str_eq m.framework framework)) [
      | inl t ↦
          rw (t, joined)
            (length-filter-append (str_eq control)
                (map (λ (e : EventRow). m.control_id)
                  (filter (λ (e : EventRow). str_eq e.id m.event_id && in_period w e) es))
                (joined w framework es ms)
              ∙ omega (arith, rest, split, here, one_mapping w framework control m es t))
      | inr f ↦
          rw (f, joined) (omega (arith, rest, split, here, no_mapping w framework control m es f))
    ]

all_pass : {A : Type 0} (xs : List A) → length (filter (λ x. true) xs) ≡ length xs
all_pass [] = refl
all_pass (x ∷ xs) = ap suc (all_pass xs)

-- the total is the number of events in the period
pub count_events_lem :
    (w : Window) (es : List EventRow) → count_events w (λ e. true) es ≡ length (filter (is_of w) es)
unfolding count_events in_window in_period
count_events_lem w es = all_pass (filter (is_of w) es)
