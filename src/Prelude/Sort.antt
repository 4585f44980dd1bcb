-- ===== src/Prelude/Sort.antt =====
-- Go's sort.Strings and sort.Slice as insertion sort (elements that compare equal keep their order),
-- and the distinct values of a list, in the order of their first occurrences.
use stonewrit.Prelude.{
  ◌≡◌, refl, ap, sym, ◌∙◌, ◌⊎◌, inl, inr, Bool, true, false, not, Bool-cases, List, [], ◌∷◌, filter,
  map, Text, str_eq, str_eq_iff, if◌then◌else◌, ◌↔◌, All, Elem, arith,
}

module _ {A : Type 0} (leb : A → A → Bool) where
  unfoldable pub insert_by : A → List A → List A
  insert_by x [] = x ∷ []
  insert_by x (y ∷ ys) = let rest = insert_by x ys in if leb x y then x ∷ y ∷ ys else y ∷ rest

  unfoldable pub sort_by : List A → List A
  unfolding insert_by
  sort_by [] = []
  sort_by (x ∷ xs) = insert_by x (sort_by xs)

  -- no element is above the next one
  abbrev pub IsSorted : List A → Type 0
  IsSorted [] = Unit
  IsSorted (x ∷ []) = Unit
  IsSorted (x ∷ y ∷ ys) = (leb x y ≡ true) × IsSorted (y ∷ ys)

  pub sort_by_of_IsSorted : (xs : List A) → IsSorted xs → sort_by xs ≡ xs
  unfolding sort_by
  sort_by_of_IsSorted [] h = refl
  sort_by_of_IsSorted (x ∷ []) h = refl
  sort_by_of_IsSorted (x ∷ y ∷ ys) (h, hs) = rw (sort_by_of_IsSorted (y ∷ ys) hs, insert_by, h) refl

  pub insert_by-IsSorted :
      (total : (a b : A) → leb a b ≡ false → leb b a ≡ true) (x : A) (ys : List A)
      → IsSorted ys
      → IsSorted (insert_by x ys)
  unfolding insert_by
  insert_by-IsSorted total x [] h = tt
  insert_by-IsSorted total x (y ∷ []) h = ground (arith, total x y)
  insert_by-IsSorted total x (y ∷ z ∷ zs) (h, hs) =
      ground (arith, total x y, insert_by-IsSorted total x (z ∷ zs) hs)

  pub sort_by-IsSorted :
      (total : (a b : A) → leb a b ≡ false → leb b a ≡ true) (xs : List A) → IsSorted (sort_by xs)
  unfolding sort_by
  sort_by-IsSorted total [] = tt
  sort_by-IsSorted total (x ∷ xs) =
      insert_by-IsSorted total x (sort_by xs) (sort_by-IsSorted total xs)

  Elem-insert_by : (a x : A) (ys : List A) → Elem a (x ∷ ys) → Elem a (insert_by x ys)
  unfolding insert_by
  Elem-insert_by a x [] h = h
  Elem-insert_by a x (y ∷ ys) (inl e) = ground (arith, Elem-insert_by a x ys (inl e))
  Elem-insert_by a x (y ∷ ys) (inr (inl e)) = ground arith
  Elem-insert_by a x (y ∷ ys) (inr (inr m)) = ground (arith, Elem-insert_by a x ys (inr m))

  Elem-of_insert_by : (a x : A) (ys : List A) → Elem a (insert_by x ys) → Elem a (x ∷ ys)
  unfolding insert_by
  Elem-of_insert_by a x [] h = h
  Elem-of_insert_by a x (y ∷ ys) h = ground (arith, Elem-of_insert_by a x ys)

  Elem-of_sort_by : (a : A) (xs : List A) → Elem a (sort_by xs) → Elem a xs
  unfolding sort_by
  Elem-of_sort_by a [] h = h
  Elem-of_sort_by a (x ∷ xs) h = elim (Elem-of_insert_by a x (sort_by xs) h) [
    | inl e ↦ inl e
    | inr m ↦ inr (Elem-of_sort_by a xs m)
  ]

  Elem-sort_by_of : (a : A) (xs : List A) → Elem a xs → Elem a (sort_by xs)
  unfolding sort_by
  Elem-sort_by_of a [] h = h
  Elem-sort_by_of a (x ∷ xs) (inl e) = Elem-insert_by a x (sort_by xs) (inl e)
  Elem-sort_by_of a (x ∷ xs) (inr m) =
      Elem-insert_by a x (sort_by xs) (inr (Elem-sort_by_of a xs m))

  -- sorting keeps the elements
  pub Elem-sort_by : (a : A) (xs : List A) → Elem a (sort_by xs) ↔ Elem a xs
  Elem-sort_by a xs = (Elem-of_sort_by a xs, Elem-sort_by_of a xs)

module _ {A : Type 0} (p : A → Bool) where
  Elem-of_filter : (a : A) (xs : List A) → Elem a (filter p xs) → Elem a xs × (p a ≡ true)
  Elem-of_filter a [] h = elim h [ ]
  Elem-of_filter a (x ∷ xs) h = elim (Bool-cases (p x)) [
    | inl e ↦ elim (kept e h) [
      | inl here ↦ (inl here, ap p here ∙ e)
      | inr m ↦ let (m', q) = Elem-of_filter a xs m in (inr m', q)
    ]
    | inr e ↦ let (m', q) = Elem-of_filter a xs (dropped e h) in (inr m', q)
  ]
    where
      kept : p x ≡ true → Elem a (filter p (x ∷ xs)) → (a ≡ x) ⊎ Elem a (filter p xs)
      kept e h = rw e at h

      dropped : p x ≡ false → Elem a (filter p (x ∷ xs)) → Elem a (filter p xs)
      dropped e h = rw e at h

  Elem-filter_of : (a : A) (xs : List A) → Elem a xs → p a ≡ true → Elem a (filter p xs)
  Elem-filter_of a (x ∷ xs) (inl here) q =
      let e : p x ≡ true = ap p (sym here) ∙ q in rw e (inl here)
  Elem-filter_of a (x ∷ xs) (inr m) q = elim (Bool-cases (p x)) [
    | inl e ↦ rw e (inr (Elem-filter_of a xs m q))
    | inr e ↦ rw e (Elem-filter_of a xs m q)
  ]
  Elem-filter_of a [] h q = elim h [ ]

  pub Elem-filter : (a : A) (xs : List A) → Elem a (filter p xs) ↔ (Elem a xs × (p a ≡ true))
  Elem-filter a xs = (Elem-of_filter a xs, λ h. Elem-filter_of a xs h.0 h.1)

  -- a filter whose tests all pass keeps the list
  pub filter_of_All : (xs : List A) → All (λ x. p x ≡ true) xs → filter p xs ≡ xs
  filter_of_All [] h = refl
  filter_of_All (x ∷ xs) (h, hs) = rw (h, filter_of_All xs hs)

  -- a second filter that passes everything the first one passes changes nothing
  pub filter-filter :
      (q : A → Bool) (xs : List A)
      → ((x : A) → p x ≡ true → q x ≡ true)
      → filter p (filter q xs) ≡ filter p xs
  filter-filter q [] h = refl
  filter-filter q (x ∷ xs) h = ground (arith, filter-filter q xs h, h x)

module _ {A : Type 0} (p : A → Bool) where
  -- the same, where only the elements of the list are known to pass
  pub filter-filter_of_Elem :
      (q : A → Bool) (xs : List A)
      → ((x : A) → Elem x xs → p x ≡ true → q x ≡ true)
      → filter p (filter q xs) ≡ filter p xs
  filter-filter_of_Elem q [] h = refl
  filter-filter_of_Elem q (x ∷ xs) h =
      ground (arith, filter-filter_of_Elem q xs (λ y m. h y (inr m)), h x (inl refl))

  pub filter-map :
      {B : Type 0} (f : B → A) (xs : List B)
      → filter p (map f xs) ≡ map f (filter (λ b. p (f b)) xs)
  filter-map f [] = refl
  filter-map f (x ∷ xs) = ground (arith, filter-map f xs)

  All-filter {κ} : (P : A → Type κ) (xs : List A) → All P xs → All P (filter p xs)
  All-filter P [] h = tt
  All-filter P (x ∷ xs) (h, hs) = elim (Bool-cases (p x)) [
    | inl e ↦ rw e (h, All-filter P xs hs)
    | inr e ↦ rw e (All-filter P xs hs)
  ]

module _ {A : Type 0} (leb : A → A → Bool) (total : (a b : A) → leb a b ≡ false → leb b a ≡ true)
    (trans : (a b c : A) → leb a b ≡ true → leb b c ≡ true → leb a c ≡ true) where
  IsSorted-All :
      (x y : A) (ys : List A)
      → leb x y ≡ true
      → IsSorted leb (y ∷ ys)
      → All (λ z. leb x z ≡ true) (y ∷ ys)
  IsSorted-All x y [] h s = (h, tt)
  IsSorted-All x y (z ∷ zs) h (e, s) = (h, IsSorted-All x z zs (trans x y z h e) s)

  insert_by_of_All :
      (x : A) (ys : List A) → All (λ z. leb x z ≡ true) ys → insert_by leb x ys ≡ x ∷ ys
  unfolding insert_by
  insert_by_of_All x [] h = refl
  insert_by_of_All x (y ∷ ys) (e, h) = rw (e, insert_by) refl

  IsSorted-tail : (y : A) (ys : List A) → IsSorted leb (y ∷ ys) → IsSorted leb ys
  IsSorted-tail y [] s = tt
  IsSorted-tail y (z ∷ zs) s = s.1

  filter-insert_by :
      (p : A → Bool) (x : A) (ys : List A)
      → IsSorted leb ys
      → filter p (insert_by leb x ys) ≡ (if p x then insert_by leb x (filter p ys) else filter p ys)
  unfolding insert_by
  filter-insert_by p x [] s = ground arith
  filter-insert_by p x (y ∷ ys) s = elim (Bool-cases (leb x y)) [
    | inl e ↦
        rw (e, insert_by)
          (ground (
            arith,
            insert_by_of_All x (filter p (y ∷ ys))
                (All-filter p (λ z. leb x z ≡ true) (y ∷ ys) (IsSorted-All x y ys e s)),
          ))
    | inr e ↦ rw (e, insert_by) (ground (arith, filter-insert_by p x ys (IsSorted-tail y ys s), e))
  ]

  -- the elements that pass a test are sorted the same way alone
  pub filter-sort_by :
      (p : A → Bool) (xs : List A) → filter p (sort_by leb xs) ≡ sort_by leb (filter p xs)
  unfolding sort_by
  filter-sort_by p [] = refl
  filter-sort_by p (x ∷ xs) = ground (
    arith,
    filter-insert_by p x (sort_by leb xs) (sort_by-IsSorted leb total xs),
    filter-sort_by p xs,
  )

-- the distinct values, each at its first occurrence
unfoldable pub distinct : List Text → List Text
distinct [] = []
distinct (x ∷ xs) = x ∷ filter (λ y. not (str_eq x y)) (distinct xs)

Elem-of_distinct : (a : Text) (xs : List Text) → Elem a (distinct xs) → Elem a xs
unfolding distinct
Elem-of_distinct a [] h = h
Elem-of_distinct a (x ∷ xs) (inl e) = inl e
Elem-of_distinct a (x ∷ xs) (inr m) =
    inr (Elem-of_distinct a xs ((Elem-filter (λ y. not (str_eq x y)) a (distinct xs)).0 m).0)

Elem-distinct_of : (a : Text) (xs : List Text) → Elem a xs → Elem a (distinct xs)
unfolding distinct
Elem-distinct_of a [] h = h
Elem-distinct_of a (x ∷ xs) (inl e) = inl e
Elem-distinct_of a (x ∷ xs) (inr m) = elim (Bool-cases (str_eq x a)) [
  | inl same ↦ inl (sym ((str_eq_iff x a).0 same))
  | inr other ↦ inr (
      (Elem-filter (λ y. not (str_eq x y)) a (distinct xs)).1
        (Elem-distinct_of a xs m, rw other refl))
]

pub Elem-distinct : (a : Text) (xs : List Text) → Elem a (distinct xs) ↔ Elem a xs
Elem-distinct a xs = (Elem-of_distinct a xs, Elem-distinct_of a xs)
