-- ===== src/Classify/Classes.antt =====
-- Which data classes an event has (classify/classify.go).
use stonewrit.Prelude.{
  ◌≡◌, refl, ◌↔◌, Bool, true, false, List, [], ◌∷◌, Text, codes, str_eq, str_leb, str_leb_total,
  has_prefix, has_prefix_iff, str_eq_iff, ◌⊎◌, inl, inr, ◌++◌, Elem-append_right, Elem,
  Elem-append_left,
}
use stonewrit.Prelude.Sort.{IsSorted, sort_by-IsSorted, Elem-sort_by, distinct, Elem-distinct}
use stonewrit.Classify.{Event, add_if, class_set, classify}

abbrev pub Begins : Text → Text → Type 0
Begins s p = (rest : Text) × (s ≡ p ++ rest)

-- the class follows from the actor or the type of the event
abbrev pub Derived : Event → Text → Type 0
Derived e c =
    ((c ≡ codes "ai_agent_action") × (e.actor_type ≡ codes "ai_agent"))
    ⊎ (((c ≡ codes "data_event") × Begins e.event_type (codes "data."))
        ⊎ (((c ≡ codes "privileged_admin") × Begins e.event_type (codes "admin."))
            ⊎ (((c ≡ codes "identity_event") × Begins e.event_type (codes "identity."))
                ⊎ (((c ≡ codes "ai_agent_action") × Begins e.event_type (codes "agent."))
                    ⊎ ((c ≡ codes "vendor_data_egress") × Begins e.event_type (codes "vendor."))))))

add_if-keeps :
    (c : Text) (cond : Bool) (d : Text) (set : List Text) → Elem c set → Elem c (add_if cond d set)
unfolding add_if
add_if-keeps c true d set h = Elem-append_left c set (d ∷ []) h
add_if-keeps c false d set h = h

add_if-new :
    (c : Text) (cond : Bool) (d : Text) (set : List Text)
    → cond ≡ true
    → c ≡ d
    → Elem c (add_if cond d set)
unfolding add_if
add_if-new c cond d set h e = rw h (Elem-append_right c set (d ∷ []) (inl e))

add_if-of :
    (c : Text) (cond : Bool) (d : Text) (set : List Text)
    → Elem c (add_if cond d set)
    → Elem c set ⊎ ((c ≡ d) × (cond ≡ true))
unfolding add_if
add_if-of c false d set h = inl h
add_if-of c true d set h = last c d set h
  where
    last :
        (c d : Text) (set : List Text)
        → Elem c (set ++ d ∷ [])
        → Elem c set ⊎ ((c ≡ d) × (true ≡ true))
    last c d [] (inl e) = inr (e, refl)
    last c d [] (inr h) = elim h [ ]
    last c d (x ∷ set) (inl e) = inl (inl e)
    last c d (x ∷ set) (inr h) = elim (last c d set h) [ inl m ↦ inl (inr m) | inr e ↦ inr e ]

-- one test after the other
added : List (Bool × Text) → List Text → List Text
added [] set = set
added ((cond, d) ∷ rules) set = added rules (add_if cond d set)

abbrev Fires : Text → List (Bool × Text) → Type 0
Fires c [] = ⊥
Fires c ((cond, d) ∷ rules) = ((c ≡ d) × (cond ≡ true)) ⊎ Fires c rules

added-of :
    (c : Text) (rules : List (Bool × Text)) (set : List Text)
    → Elem c (added rules set)
    → Elem c set ⊎ Fires c rules
unfolding added
added-of c [] set m = inl m
added-of c ((cond, d) ∷ rules) set m = elim (added-of c rules (add_if cond d set) m) [
  | inr f ↦ inr (inr f)
  | inl k ↦ elim (add_if-of c cond d set k) [ inl old ↦ inl old | inr new ↦ inr (inl new) ]
]

of-added :
    (c : Text) (rules : List (Bool × Text)) (set : List Text)
    → Elem c set ⊎ Fires c rules
    → Elem c (added rules set)
unfolding added
of-added c [] set (inl m) = m
of-added c [] set (inr f) = elim f [ ]
of-added c ((cond, d) ∷ rules) set (inl m) =
    of-added c rules (add_if cond d set) (inl (add_if-keeps c cond d set m))
of-added c ((cond, d) ∷ rules) set (inr (inl (e, b))) =
    of-added c rules (add_if cond d set) (inl (add_if-new c cond d set b e))
of-added c ((cond, d) ∷ rules) set (inr (inr f)) = of-added c rules (add_if cond d set) (inr f)

abbrev tests : Event → List (Bool × Text)
tests e =
    (str_eq e.actor_type (codes "ai_agent"), codes "ai_agent_action")
    ∷ (has_prefix e.event_type (codes "data."), codes "data_event")
    ∷ (has_prefix e.event_type (codes "admin."), codes "privileged_admin")
    ∷ (has_prefix e.event_type (codes "identity."), codes "identity_event")
    ∷ (has_prefix e.event_type (codes "agent."), codes "ai_agent_action")
    ∷ (has_prefix e.event_type (codes "vendor."), codes "vendor_data_egress")
    ∷ []

class_set_lem : (e : Event) → class_set e ≡ added (tests e) e.data_classes
unfolding class_set added
class_set_lem e = refl

Fires-Derived : (e : Event) (c : Text) → Fires c (tests e) → Derived e c
Fires-Derived e c (inl (s, b)) = inl (s, (str_eq_iff e.actor_type (codes "ai_agent")).0 b)
Fires-Derived e c (inr (inl (s, b))) =
    inr (inl (s, (has_prefix_iff e.event_type (codes "data.")).0 b))
Fires-Derived e c (inr (inr (inl (s, b)))) =
    inr (inr (inl (s, (has_prefix_iff e.event_type (codes "admin.")).0 b)))
Fires-Derived e c (inr (inr (inr (inl (s, b))))) =
    inr (inr (inr (inl (s, (has_prefix_iff e.event_type (codes "identity.")).0 b))))
Fires-Derived e c (inr (inr (inr (inr (inl (s, b)))))) =
    inr (inr (inr (inr (inl (s, (has_prefix_iff e.event_type (codes "agent.")).0 b)))))
Fires-Derived e c (inr (inr (inr (inr (inr (inl (s, b))))))) =
    inr (inr (inr (inr (inr (s, (has_prefix_iff e.event_type (codes "vendor.")).0 b)))))
Fires-Derived e c (inr (inr (inr (inr (inr (inr none)))))) = elim none [ ]

Derived-Fires : (e : Event) (c : Text) → Derived e c → Fires c (tests e)
Derived-Fires e c (inl (s, b)) = inl (s, (str_eq_iff e.actor_type (codes "ai_agent")).1 b)
Derived-Fires e c (inr (inl (s, b))) =
    inr (inl (s, (has_prefix_iff e.event_type (codes "data.")).1 b))
Derived-Fires e c (inr (inr (inl (s, b)))) =
    inr (inr (inl (s, (has_prefix_iff e.event_type (codes "admin.")).1 b)))
Derived-Fires e c (inr (inr (inr (inl (s, b))))) =
    inr (inr (inr (inl (s, (has_prefix_iff e.event_type (codes "identity.")).1 b))))
Derived-Fires e c (inr (inr (inr (inr (inl (s, b)))))) =
    inr (inr (inr (inr (inl (s, (has_prefix_iff e.event_type (codes "agent.")).1 b)))))
Derived-Fires e c (inr (inr (inr (inr (inr (s, b)))))) =
    inr (inr (inr (inr (inr (inl (s, (has_prefix_iff e.event_type (codes "vendor.")).1 b))))))

class_set_iff :
    (e : Event) (c : Text) → Elem c (class_set e) ↔ (Elem c e.data_classes ⊎ Derived e c)
class_set_iff e c = rw (class_set_lem e) (
  λ m. elim (added-of c (tests e) e.data_classes m) [
    | inl old ↦ inl old
    | inr f ↦ inr (Fires-Derived e c f)
  ],
  λ m.
      of-added c (tests e) e.data_classes
        (elim m [ inl old ↦ inl old | inr d ↦ inr (Derived-Fires e c d) ]),
)

-- The classes of an event are sorted, and they are the classes that its resource declares and those
-- that follow from its actor and its type.
pub classify_classes :
    (e : Event) (c : Text)
    → IsSorted str_leb (classify e).data_classes
      × (Elem c (classify e).data_classes ↔ (Elem c e.data_classes ⊎ Derived e c))
unfolding classify
classify_classes e c = (
  sort_by-IsSorted str_leb str_leb_total (distinct (class_set e)),
  (
    λ m.
        (class_set_iff e c).0 (
          (Elem-distinct c (class_set e)).0
            ((Elem-sort_by str_leb c (distinct (class_set e))).0 m)),
    λ m.
        (Elem-sort_by str_leb c (distinct (class_set e))).1
          ((Elem-distinct c (class_set e)).1 ((class_set_iff e c).1 m)),
  ),
)
