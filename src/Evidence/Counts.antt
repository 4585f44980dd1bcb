-- ===== src/Evidence/Counts.antt =====
-- What the counts of an evidence summary count (server/internal/routes/evidence.go).
use stonewrit.Prelude.{
  ◌≤◌, ◌≡◌, refl, sym, ap, ◌∙◌, subst, ◌⊎◌, inl, inr, true, ◌||◌, Bool, Bool-cases, Option-cases,
  none, some, List, [], ◌∷◌, ◌++◌, map, filter, length, Text, codes, str_eq, str_eq_iff, str_leb,
  Elem, All, arith,
}
use stonewrit.Prelude.Sort.{distinct, Elem-distinct, Elem-sort_by, Elem-filter}
use stonewrit.Auth.{Context}
use stonewrit.Db.{EventRow}
use stonewrit.Read.{Reply, found, with_context}
use stonewrit.Evidence.Pairs.{evidence_pairs, is_of, count_of-joined, count_events_lem}
use stonewrit.Evidence.{
  ControlRow, FrameworkRow, Tables, Window, count_events, Totals, totals_of, joined, count_of,
  CountRow, grouped, key_of, last_count, count_or_zero, list_controls, ControlView, control_view,
  SummaryView, SummaryQuery, SummaryWorld, time_or, find_framework, summary_view, summarized,
  summary,
}

same_key : (f a b : Text) → f ++ a ≡ f ++ b → a ≡ b
same_key [] a b h = h
same_key (c ∷ f) a b h = same_key f a b (cc h)

same_control : (f a b : Text) → key_of f a ≡ key_of f b → a ≡ b
same_control f a b h = same_key (codes ":") a b (same_key f (codes ":" ++ a) (codes ":" ++ b) h)

count_of-absent : (x : Text) (xs : List Text) → (Elem x xs → ⊥) → count_of x xs ≡ 0
unfolding count_of
count_of-absent x [] h = refl
count_of-absent x (y ∷ xs) h = elim (Bool-cases (str_eq x y)) [
  | inl e ↦ absurd (h (inl ((str_eq_iff x y).0 e)))
  | inr e ↦ rw e (count_of-absent x xs (λ m. h (inr m)))
]

abbrev row_of : Text → List Text → Text → CountRow
row_of f xs c = record { framework = f; control_id = c; evidence_count = count_of c xs }

-- the map has the count of a control that is grouped, and no other
last_count-cases :
    (f : Text) (xs ds : List Text) (c : Text)
    → (last_count (map (row_of f xs) ds) (key_of f c) ≡ some (count_of c xs))
      ⊎ ((last_count (map (row_of f xs) ds) (key_of f c) ≡ none) × (Elem c ds → ⊥))
unfolding last_count
last_count-cases f xs [] c = inr (refl, λ m. elim m [ ])
last_count-cases f xs (d ∷ ds) c = elim (last_count-cases f xs ds c) [
  | inl e ↦ inl (rw (e, last_count) refl)
  | inr (e, absent) ↦ elim (Bool-cases (str_eq (key_of f d) (key_of f c))) [
    | inl same ↦ inl (
        rw (e, last_count, same)
          (ap (λ x. some (count_of x xs)) (same_control f d c ((str_eq_iff _ _).0 same))))
    | inr other ↦ inr (
      rw (e, last_count, other) refl,
      λ m. elim m [
        | inl here ↦
            absurd (cc ((str_eq_iff (key_of f d) (key_of f c)).1 (ap (key_of f) (sym here)), other))
        | inr there ↦ absent there
      ],
    )
  ]
]

-- looking a control up in the grouped rows counts it
grouped_lem :
    (f : Text) (xs : List Text) (c : Text)
    → count_or_zero (last_count (grouped f xs) (key_of f c)) ≡ count_of c xs
unfolding grouped count_or_zero
grouped_lem f xs c = elim (last_count-cases f xs (distinct xs) c) [
  | inl e ↦ rw e refl
  | inr (e, absent) ↦ rw e (sym (count_of-absent c xs (λ m. absent ((Elem-distinct c xs).1 m))))
]

length-filter :
    {A : Type 0} (p : A → Bool) (xs : List A)
    → length (filter p xs) ≤ length (filter (λ x. true) xs)
length-filter p [] = omega arith
length-filter p (x ∷ xs) = ground (arith, length-filter p xs)

-- a counted row is one of the window
pub count_events-le :
    (w : Window) (p : EventRow → Bool) (events : List EventRow)
    → count_events w p events ≤ count_events w (λ e. true) events
unfolding count_events
count_events-le w p events = length-filter p _

controls-paired :
    (win : Window) (f : Text) (t : Tables) (cs : List ControlRow)
    → ((c : ControlRow) → Elem c cs → c.framework ≡ f)
    → All
        (λ (v : ControlView).
          v.evidence_count ≡ evidence_pairs win f v.control_id t.mappings t.events)
        (map (control_view (grouped f (joined win f t.events t.mappings))) cs)
unfolding control_view
controls-paired win f t [] h = tt
controls-paired win f t (c ∷ cs) h =
    let xs = joined win f t.events t.mappings in
    (
      ap (λ g. count_or_zero (last_count (grouped f xs) (key_of g c.control_id))) (h c (inl refl))
          ∙ grouped_lem f xs c.control_id
          ∙ count_of-joined win f c.control_id t.events t.mappings,
      controls-paired win f t cs (λ d m. h d (inr m)),
    )

listed-framework :
    (f : Text) (rows : List ControlRow) (c : ControlRow)
    → Elem c (list_controls f rows)
    → c.framework ≡ f
unfolding list_controls
listed-framework f rows c m =
    (str_eq_iff c.framework f).0
      ((Elem-filter (λ (x : ControlRow). str_eq x.framework f) c rows).0 (
        (Elem-sort_by (λ (a b : ControlRow). str_leb a.control_id b.control_id) c
            (filter (λ (x : ControlRow). str_eq x.framework f) rows)).0
          m)).1

-- no event is counted that is not of the organization, the project and the period of the view
abbrev pub Bounded : Totals → Type 0
Bounded t =
    (t.privileged_access_count ≤ t.total_events)
    × (t.ai_agent_action_count ≤ t.total_events)
    × (t.out_of_scope_agent_action_count ≤ t.total_events)
    × (t.policy_denial_count ≤ t.total_events)
    × (t.external_data_sharing_count ≤ t.total_events)

totals_of-Bounded : (w : Window) (t : Tables) → Bounded (totals_of w t)
unfolding totals_of
totals_of-Bounded w t = (
  count_events-le w _ t.events,
  count_events-le w _ t.events,
  count_events-le w _ t.events,
  count_events-le w _ t.events,
  count_events-le w _ t.events,
)

-- Each control of the view has the number of its pairs of a mapping and an event, and the totals count
-- events of the organization, the project and the period.
abbrev pub Counted : Text → Text → Tables → SummaryView → Type 0
Counted org project t v =
    let win : Window = record {
      organization_id = org;
      project_id = project;
      from = v.from;
      to = v.to;
    } in
    All
      (λ (c : ControlView).
        c.evidence_count ≡ evidence_pairs win v.framework c.control_id t.mappings t.events)
      v.controls
    × (v.totals.total_events ≡ length (filter (is_of win) t.events))
    × Bounded v.totals

-- of a reply with a body
abbrev pub OnFound : {B : Type 0} → (B → Type 0) → Reply B → Type 0
OnFound P (found v) = P v
OnFound P _ = Unit

summary_view-Counted :
    (q : SummaryQuery) (win : Window) (fw : FrameworkRow) (f : Text) (t : Tables)
    → fw.id ≡ f
    → Counted win.organization_id win.project_id t (summary_view q win fw f t)
unfolding summary_view
summary_view-Counted q win fw f t same = (
  subst
      (λ g.
        All
          (λ (v : ControlView).
            v.evidence_count ≡ evidence_pairs win g v.control_id t.mappings t.events)
          (map (control_view (grouped f (joined win f t.events t.mappings)))
            (list_controls f t.controls)))
      (sym same)
      (controls-paired win f t (list_controls f t.controls) (listed-framework f t.controls)),
  unfold totals_of in count_events_lem win t.events,
  totals_of-Bounded win t,
)

find_framework-eq-some :
    (f : Text) (rows : List FrameworkRow) (fw : FrameworkRow)
    → find_framework f rows ≡ some fw
    → fw.id ≡ f
unfolding find_framework
find_framework-eq-some f [] fw h = cc
find_framework-eq-some f (r ∷ rows) fw h = elim (Bool-cases (str_eq r.id f)) [
  | inl e ↦
      let same : some r ≡ some fw = rw (e, find_framework) at h in
      let here : r ≡ fw = cc in ap (λ (x : FrameworkRow). x.id) (sym here) ∙ (str_eq_iff r.id f).0 e
  | inr e ↦ find_framework-eq-some f rows fw (rw (e, find_framework) at h)
]

summarized-Counted :
    (w : SummaryWorld) (q : SummaryQuery) (win : Window) (f : Text) (t : Tables)
    → OnFound (Counted win.organization_id win.project_id t) (summarized w q win f t)
unfolding summarized
summarized-Counted w q win f t = elim (Option-cases w.framework_fails) [
  | inr (x, e) ↦ rw (e, summarized) tt
  | inl e ↦ elim (Option-cases (find_framework f t.frameworks)) [
    | inl e' ↦ rw (e, summarized, e') tt
    | inr (fw, e') ↦ elim (Option-cases w.group_fails) [
      | inr (x, e'') ↦ rw (e, summarized, e', e'') tt
      | inl e'' ↦
          rw (e, summarized, e', e'')
            (summary_view-Counted q win fw f t (find_framework-eq-some f t.frameworks fw e'))
    ]
  ]
]

-- When the project id is read as a uuid, each control of a summary has as its count the number of pairs
-- of a mapping of the organization to it and an event of that project in the summary's period, zero
-- included; the total is the number of events of the organization and that project in the period, and
-- none of the five counts of kinds of events exceeds it.
pub summary-Counted :
    (w : SummaryWorld) (ac : Context) (q : SummaryQuery) (t : Tables) (project : Text)
    → w.parse_uuid q.project_id ≡ some project
    → OnFound (Counted ac.organization_id project t) (summary w (some ac) q t)
unfolding summary with_context
summary-Counted w ac q t project parsed =
    elim (Bool-cases (str_eq (w.to_upper q.framework) [] || str_eq q.project_id [])) [
      | inl e ↦ rw (e, summary) tt
      | inr e ↦
          rw (e, summary, parsed)
            (summarized-Counted w q
              (record {
                organization_id = ac.organization_id;
                project_id = project;
                from = time_or w w.month_ago q.from;
                to = time_or w w.now q.to;
              })
              (w.to_upper q.framework) t)
    ]
