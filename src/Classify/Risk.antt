-- ===== src/Classify/Risk.antt =====
-- What the classification of an event says: its classes, and when its risk is high.
use stonewrit.Prelude.{
  ◌≡◌, ◌≢◌, refl, ◌↔◌, Bool, true, false, ◌||◌, List, [], ◌∷◌, Text, codes, str_eq, has_prefix,
  str_eq_iff, contains, contains-Elem, Elem-contains, subst, ◌⊎◌, inl, inr, Bool-cases, Elem, arith,
}
use stonewrit.Classify.{
  RiskLevel, low, medium, high, Event, any_high, bump_high, bump_medium, bump_at_least_medium,
  classify,
}
use stonewrit.Classify.Classes.{Derived, classify_classes}

bump_at_least_medium-ne-high :
    (b : Bool) (r : RiskLevel) → r ≢ high → bump_at_least_medium b r ≢ high
unfolding bump_at_least_medium
bump_at_least_medium-ne-high false r h = h
bump_at_least_medium-ne-high true low h = λ e. cc e
bump_at_least_medium-ne-high true medium h = λ e. cc e
bump_at_least_medium-ne-high true high h = h

four-ne-high :
    (a b c d : Bool) (r : RiskLevel)
    → r ≢ high
    → bump_at_least_medium a
        (bump_at_least_medium b (bump_at_least_medium c (bump_at_least_medium d r)))
      ≢ high
four-ne-high a b c d r h = bump_at_least_medium-ne-high a _ (
    bump_at_least_medium-ne-high b _
      (bump_at_least_medium-ne-high c _ (bump_at_least_medium-ne-high d r h)))

bump_medium-ne-high : (e : Event) (r : RiskLevel) → r ≢ high → bump_medium e r ≢ high
unfolding bump_medium
bump_medium-ne-high e low h =
    four-ne-high (str_eq e.actor_type (codes "ai_agent")) (str_eq e.action_result (codes "denied"))
      (has_prefix e.event_type (codes "admin.")) (has_prefix e.event_type (codes "data.")) low h
bump_medium-ne-high e medium h =
    four-ne-high (str_eq e.actor_type (codes "ai_agent")) (str_eq e.action_result (codes "denied"))
      (has_prefix e.event_type (codes "admin.")) (has_prefix e.event_type (codes "data.")) medium h
bump_medium-ne-high e high h = h

bump_medium-high : (e : Event) (r : RiskLevel) → (bump_medium e r ≡ high) ↔ (r ≡ high)
unfolding bump_medium
bump_medium-high e low = (λ h. absurd (bump_medium-ne-high e low (λ h. cc h) h), λ h. cc h)
bump_medium-high e medium = (λ h. absurd (bump_medium-ne-high e medium (λ h. cc h) h), λ h. cc h)
bump_medium-high e high = (λ _. refl, λ _. refl)

three : Bool → Event → RiskLevel
unfolding bump_high
three b e =
    bump_high (str_eq e.event_type (codes "data.shared_external"))
      (bump_high (str_eq e.event_type (codes "data.exported")) (bump_high b low))

three-high :
    (a b c : Bool) → (bump_high c (bump_high b (bump_high a low)) ≡ high) ↔ ((a || (b || c)) ≡ true)
unfolding bump_high
three-high true true c = (λ _. refl, λ _. ground arith)
three-high true false c = (λ _. refl, λ _. ground arith)
three-high false true c = (λ _. refl, λ _. ground arith)
three-high false false true = (λ _. refl, λ _. refl)
three-high false false false = (λ h. cc h, λ h. cc h)

-- the classes that make an event high-risk
abbrev pub high_classes : List Text
high_classes =
    codes "pii" ∷ codes "customer_data" ∷ codes "phi" ∷ codes "pci" ∷ codes "financial" ∷ []

any_high-of :
    (classes : List Text)
    → any_high classes ≡ true
    → (c : Text) × Elem c classes × Elem c high_classes
unfolding any_high
any_high-of [] h = cc
any_high-of (d ∷ classes) h = elim (Bool-cases (contains high_classes d)) [
  | inl here ↦ (d, inl refl, contains-Elem d high_classes here)
  | inr other ↦ let (c, m, k) = any_high-of classes (ground arith) in (c, inr m, k)
]

of-any_high :
    (classes : List Text) (c : Text)
    → Elem c classes
    → Elem c high_classes
    → any_high classes ≡ true
unfolding any_high
of-any_high [] c m k = elim m [ ]
of-any_high (d ∷ classes) c (inl e) k =
    let here = Elem-contains d high_classes (subst (λ x. Elem x high_classes) e k) in rw here refl
of-any_high (d ∷ classes) c (inr m) k = let rest = of-any_high classes c m k in ground arith

-- the derived classes are not high-risk
low_text :
    (d : Text) → contains high_classes d ≡ false → (c : Text) → c ≡ d → Elem c high_classes → ⊥
low_text d new c e m =
    let there = Elem-contains d high_classes (subst (λ x. Elem x high_classes) e m) in
    cc (there, new)

Derived-low : (e : Event) (c : Text) → Derived e c → Elem c high_classes → ⊥
unfolding contains str_eq
Derived-low e c (inl (s, b)) m = low_text (codes "ai_agent_action") refl c s m
Derived-low e c (inr (inl (s, b))) m = low_text (codes "data_event") refl c s m
Derived-low e c (inr (inr (inl (s, b)))) m = low_text (codes "privileged_admin") refl c s m
Derived-low e c (inr (inr (inr (inl (s, b))))) m = low_text (codes "identity_event") refl c s m
Derived-low e c (inr (inr (inr (inr (inl (s, b)))))) m =
    low_text (codes "ai_agent_action") refl c s m
Derived-low e c (inr (inr (inr (inr (inr (s, b)))))) m =
    low_text (codes "vendor_data_egress") refl c s m

-- the loop finds a declared class
any_high-declared :
    (e : Event)
    → (any_high (classify e).data_classes ≡ true)
      ↔ ((c : Text) × Elem c e.data_classes × Elem c high_classes)
any_high-declared e = (
  λ h.
      let (c, m, k) = any_high-of (classify e).data_classes h in
      elim ((classify_classes e c).1.0 m) [
        | inl declared ↦ (c, declared, k)
        | inr d ↦ absurd (Derived-low e c d k)
      ],
  λ h.
      let (c, m, k) = h in
      of-any_high (classify e).data_classes c ((classify_classes e c).1.1 (inl m)) k,
)

either : (a b : Bool) → ((a || b) ≡ true) ↔ ((a ≡ true) ⊎ (b ≡ true))
either true b = (λ _. inl refl, λ _. refl)
either false b = (λ h. inr h, λ h. elim h [ inl e ↦ absurd (cc e) | inr e ↦ e ])

-- The risk is high exactly for an event whose resource declares one of the classes pii, customer_data,
-- phi, pci and financial, or whose type is data.exported or data.shared_external.
pub classify_high :
    (e : Event)
    → ((classify e).risk_level ≡ high) ↔ (
        ((c : Text) × Elem c e.data_classes × Elem c high_classes)
        ⊎ ((e.event_type ≡ codes "data.exported") ⊎ (e.event_type ≡ codes "data.shared_external")))
unfolding classify three
classify_high e =
    let a = any_high (classify e).data_classes in
    let b = str_eq e.event_type (codes "data.exported") in
    let c = str_eq e.event_type (codes "data.shared_external") in
    let (to, back) = bump_medium-high e (three a e) in
    let (up, down) = three-high a b c in
    (
      λ h. elim ((either a (b || c)).0 (up (to h))) [
        | inl d ↦ inl ((any_high-declared e).0 d)
        | inr x ↦ inr (elim ((either b c).0 x) [
          | inl y ↦ inl ((str_eq_iff e.event_type (codes "data.exported")).0 y)
          | inr y ↦ inr ((str_eq_iff e.event_type (codes "data.shared_external")).0 y)
        ])
      ],
      λ h. back (
          down (
            (either a (b || c)).1 (elim h [
              | inl d ↦ inl ((any_high-declared e).1 d)
              | inr x ↦ inr (
                  (either b c).1 (elim x [
                    | inl y ↦ inl ((str_eq_iff e.event_type (codes "data.exported")).1 y)
                    | inr y ↦ inr ((str_eq_iff e.event_type (codes "data.shared_external")).1 y)
                  ]))
            ]))),
    )
