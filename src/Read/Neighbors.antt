-- ===== src/Read/Neighbors.antt =====
-- The neighbours that the route of server/internal/routes/events_read.go shows are the rows before and
-- after an event in its chain.
use stonewrit.Prelude.{
  ℕ, zero, suc, ◌+◌, ◌<◌, ◌≤◌, ◌^◌, ◌≡◌, refl, sym, ap, ◌∙◌, inl, inr, ◌⊎◌, false, Bool-cases,
  Option, none, some, List, [], ◌∷◌, filter, Text, str_eq, str_eq_iff, Elem, arith,
}
use stonewrit.Prelude.Int.{ℤ, pos, pred_int64, succ_int64, int_eq, int_eq_iff, int_leb}
use stonewrit.Prelude.Sort.{Elem-sort_by, Elem-filter}
use stonewrit.Json.{JsonLib}
use stonewrit.Db.{Chain, EventRow, Db}
use stonewrit.Sealer.Row.{null_if_empty}
use stonewrit.Sealer.Invariant.{chain_rows, Numbered, Named, IsConsistent, succ_int64_lem}
use stonewrit.Read.Views.{NeighborView, neighbor_view}
use stonewrit.Read.{in_positions, get_event_neighbors, neighbors_loop, neighbors_of}

-- what is left to show behind a row at another position
still :
    (a : ℤ) (p n : EventRow) (ns : List EventRow) (shown : Option NeighborView)
    → int_eq n.chain_position a ≡ false
    → (shown ≡ some (neighbor_view p)) ⊎ (Elem p (n ∷ ns) × (p.chain_position ≡ a))
    → (shown ≡ some (neighbor_view p)) ⊎ (Elem p ns × (p.chain_position ≡ a))
still a p n ns shown e (inl done) = inl done
still a p n ns shown e (inr (inl same, at)) = absurd (
    cc (
      e,
      (int_eq_iff n.chain_position a).1 (ap (λ (x : EventRow). x.chain_position) (sym same) ∙ at),
    ))
still a p n ns shown e (inr (inr m, at)) = inr (m, at)

-- with one row at a position, the loop shows it
loop_prev :
    (a b : ℤ) (p : EventRow) (prev next : Option NeighborView) (ns : List EventRow)
    → ((n : EventRow) → Elem n ns → n.chain_position ≡ a → n ≡ p)
    → (prev ≡ some (neighbor_view p)) ⊎ (Elem p ns × (p.chain_position ≡ a))
    → (neighbors_loop a b prev next ns).0 ≡ some (neighbor_view p)
unfolding neighbors_loop
loop_prev a b p prev next [] h (inl e) = e
loop_prev a b p prev next [] h (inr (m, _)) = elim m [ ]
loop_prev a b p prev next (n ∷ ns) h here = elim (Bool-cases (int_eq n.chain_position a)) [
  | inl e ↦
      let same = h n (inl refl) ((int_eq_iff n.chain_position a).0 e) in
      rw e (
        loop_prev a b p (some (neighbor_view n)) next ns (λ x m. h x (inr m))
          (inl (ap (λ (x : EventRow). some (neighbor_view x)) same)))
  | inr e ↦
      let here' = still a p n ns prev e here in
      elim (Bool-cases (int_eq n.chain_position b)) [
        | inl f ↦
            rw (e, f) (loop_prev a b p prev (some (neighbor_view n)) ns (λ x m. h x (inr m)) here')
        | inr f ↦ rw (e, f) (loop_prev a b p prev next ns (λ x m. h x (inr m)) here')
      ]
]

loop_next :
    (a b : ℤ) (p : EventRow) (prev next : Option NeighborView) (ns : List EventRow)
    → int_eq b a ≡ false
    → ((n : EventRow) → Elem n ns → n.chain_position ≡ b → n ≡ p)
    → (next ≡ some (neighbor_view p)) ⊎ (Elem p ns × (p.chain_position ≡ b))
    → (neighbors_loop a b prev next ns).1 ≡ some (neighbor_view p)
unfolding neighbors_loop
loop_next a b p prev next [] ne h (inl e) = e
loop_next a b p prev next [] ne h (inr (m, _)) = elim m [ ]
loop_next a b p prev next (n ∷ ns) ne h here = elim (Bool-cases (int_eq n.chain_position b)) [
  | inl f ↦
      let same = h n (inl refl) ((int_eq_iff n.chain_position b).0 f) in
      let e : int_eq n.chain_position a ≡ false = rw ((int_eq_iff n.chain_position b).0 f) ne in
      rw (e, f)
        (loop_next a b p prev (some (neighbor_view n)) ns ne (λ x m. h x (inr m))
          (inl (ap (λ (x : EventRow). some (neighbor_view x)) same)))
  | inr f ↦
      let here' = still b p n ns next f here in
      elim (Bool-cases (int_eq n.chain_position a)) [
        | inl e ↦
            rw e (loop_next a b p (some (neighbor_view n)) next ns ne (λ x m. h x (inr m)) here')
        | inr e ↦ rw (e, f) (loop_next a b p prev next ns ne (λ x m. h x (inr m)) here')
      ]
]

-- positions of numbered rows start at the first number
Numbered-le :
    (k : ℕ) (rows : List EventRow) (r : EventRow)
    → Numbered k rows
    → Elem r rows
    → (n : ℕ) × (r.chain_position ≡ pos n) × (k ≤ n)
Numbered-le k [] r h m = elim m [ ]
Numbered-le k (x ∷ rows) r (e, h) (inl same) =
    (k, ap (λ (y : EventRow). y.chain_position) same ∙ e, omega arith)
Numbered-le k (x ∷ rows) r (e, h) (inr m) =
    let (n, p, le) = Numbered-le (suc k) rows r h m in (n, p, omega arith)

pos-injective : {a b : ℕ} → pos a ≡ pos b → a ≡ b
pos-injective h = cc

-- and no two are equal
Numbered-unique :
    (k : ℕ) (rows : List EventRow) (r s : EventRow)
    → Numbered k rows
    → Elem r rows
    → Elem s rows
    → r.chain_position ≡ s.chain_position
    → r ≡ s
Numbered-unique k [] r s h mr ms e = elim mr [ ]
Numbered-unique k (x ∷ rows) r s h (inl a) (inl b) e = a ∙ sym b
Numbered-unique k (x ∷ rows) r s (p, h) (inl a) (inr m) e =
    let (n, q, le) = Numbered-le (suc k) rows s h m in
    let same : k ≡ n =
      pos-injective (sym p ∙ ap (λ (y : EventRow). y.chain_position) (sym a) ∙ e ∙ q) in
    absurd (omega arith)
Numbered-unique k (x ∷ rows) r s (p, h) (inr m) (inl b) e =
    let (n, q, le) = Numbered-le (suc k) rows r h m in
    let same : k ≡ n =
      pos-injective (sym p ∙ ap (λ (y : EventRow). y.chain_position) (sym b) ∙ sym e ∙ q) in
    absurd (omega arith)
Numbered-unique k (x ∷ rows) r s (p, h) (inr m) (inr m') e =
    Numbered-unique (suc k) rows r s h m m' e

-- the row behind the first one names it
first-Named :
    (k n : ℕ) (x : EventRow) (rows : List EventRow) (s : EventRow)
    → Numbered (suc k) rows
    → Named x.event_hash rows
    → Elem s rows
    → k ≡ n
    → s.chain_position ≡ pos (suc n)
    → s.previous_event_hash ≡ null_if_empty x.event_hash
first-Named k n x [] s h g m same q = elim m [ ]
first-Named k n x (y ∷ rows) s h (g, _) (inl b) same q =
    ap (λ (z : EventRow). z.previous_event_hash) b ∙ g
first-Named k n x (y ∷ rows) s (_, h) g (inr m) same q =
    let (i, at, le) = Numbered-le (suc (suc k)) rows s h m in
    let i-eq : i ≡ suc n = pos-injective (sym at ∙ q) in absurd (omega arith)

-- a row names the one before it
Named-next :
    (k n : ℕ) (prev : Text) (rows : List EventRow) (r s : EventRow)
    → Numbered k rows
    → Named prev rows
    → Elem r rows
    → Elem s rows
    → r.chain_position ≡ pos n
    → s.chain_position ≡ pos (suc n)
    → s.previous_event_hash ≡ null_if_empty r.event_hash
Named-next k n prev [] r s h g mr ms p q = elim mr [ ]
Named-next k n prev (x ∷ rows) r s (e, h) (_, g) (inl a) (inl b) p q =
    absurd (apart (sym p ∙ ap (λ (y : EventRow). y.chain_position) (a ∙ sym b) ∙ q))
  where
    apart : pos n ≡ pos (suc n) → ⊥
    apart h = let same : n ≡ suc n = pos-injective h in omega arith
Named-next k n prev (x ∷ rows) r s (e, h) (_, g) (inl a) (inr m) p q =
    first-Named k n x rows s h g m
      (pos-injective (sym e ∙ ap (λ (y : EventRow). y.chain_position) (sym a) ∙ p)) q
    ∙ ap (λ (y : EventRow). null_if_empty y.event_hash) (sym a)
Named-next k n prev (x ∷ rows) r s (e, h) (_, g) (inr m) (inl b) p q =
    let (i, at, le) = Numbered-le (suc k) rows r h m in
    let i-eq : i ≡ n = pos-injective (sym at ∙ p) in
    let k-eq : k ≡ suc n =
      pos-injective (sym e ∙ ap (λ (y : EventRow). y.chain_position) (sym b) ∙ q) in
    absurd (omega arith)
Named-next k n prev (x ∷ rows) r s (e, h) (_, g) (inr m) (inr m') p q =
    Named-next (suc k) n x.event_hash rows r s h g m m' p q

-- the rows that the query returns are rows of the chain
neighbors-Elem :
    (id : Text) (a b : ℤ) (db : Db) (n : EventRow)
    → Elem n (get_event_neighbors id a b db)
    → Elem n (chain_rows id db.events)
unfolding get_event_neighbors in_positions
neighbors-Elem id a b db n m =
    let by = λ (x y : EventRow). int_leb x.chain_position y.chain_position in
    let (there, picked) =
      (Elem-filter (in_positions id a b) n db.events).0
        ((Elem-sort_by by n (filter (in_positions id a b) db.events)).0 m) in
    (Elem-filter (λ (r : EventRow). str_eq r.chain_id id) n db.events).1 (there, ground arith)

neighbors-of_Elem :
    (id : Text) (a b : ℤ) (db : Db) (n : EventRow)
    → Elem n (chain_rows id db.events)
    → (n.chain_position ≡ a) ⊎ (n.chain_position ≡ b)
    → Elem n (get_event_neighbors id a b db)
unfolding get_event_neighbors in_positions
neighbors-of_Elem id a b db n m here =
    let by = λ (x y : EventRow). int_leb x.chain_position y.chain_position in
    let (there, mine) = (Elem-filter (λ (r : EventRow). str_eq r.chain_id id) n db.events).0 m in
    (Elem-sort_by by n (filter (in_positions id a b) db.events)).1 (
      (Elem-filter (in_positions id a b) n db.events).1 (
        there,
        ground (arith, mine, int_eq_iff n.chain_position a, int_eq_iff n.chain_position b, here),
      ))

row-chain :
    (id : Text) (db : Db) (r : EventRow) → Elem r (chain_rows id db.events) → r.chain_id ≡ id
row-chain id db r m =
    (str_eq_iff r.chain_id id).0
      ((Elem-filter (λ (x : EventRow). str_eq x.chain_id id) r db.events).0 m).1

apart_by_two : (n : ℕ) → int_eq (pos (suc n)) (pred_int64 (pos n)) ≡ false
unfolding int_eq pred_int64
apart_by_two zero = refl
apart_by_two (suc n) = ground arith

module _ (lib : JsonLib) (db : Db) (c : Chain) (p e : EventRow) (n : ℕ) (h : IsConsistent lib db)
    (m : Elem c db.chains) (mp : Elem p (chain_rows c.id db.events))
    (me : Elem e (chain_rows c.id db.events)) (at_p : p.chain_position ≡ pos n)
    (at_e : e.chain_position ≡ pos (suc n)) (small : n + 2 < 2 ^ 63) where
  alone :
      (r : EventRow) (a b : ℤ)
      → Elem r (chain_rows c.id db.events)
      → (x : EventRow) → Elem x (get_event_neighbors c.id a b db)
      → x.chain_position ≡ r.chain_position
      → x ≡ r
  alone r a b mr x mx same =
      Numbered-unique 1 (chain_rows c.id db.events) x r (h c m).numbered
        (neighbors-Elem c.id a b db x mx) mr same

  previous-of : (neighbors_of e db).previous ≡ some (neighbor_view p)
  unfolding neighbors_of pred_int64
  previous-of =
      rw (row-chain c.id db e me, at_e)
        (loop_prev (pos n) (succ_int64 (pos (suc n))) p none none
          (get_event_neighbors c.id (pos n) (succ_int64 (pos (suc n))) db)
          (λ x mx same. alone p (pos n) (succ_int64 (pos (suc n))) mp x mx (same ∙ sym at_p))
          (inr
            (neighbors-of_Elem c.id (pos n) (succ_int64 (pos (suc n))) db p mp (inl at_p), at_p)))

  next-of : (neighbors_of p db).next ≡ some (neighbor_view e)
  unfolding neighbors_of
  next-of =
      rw (row-chain c.id db p mp, at_p, succ_int64_lem n (omega arith))
        (loop_next (pred_int64 (pos n)) (pos (suc n)) e none none
          (get_event_neighbors c.id (pred_int64 (pos n)) (pos (suc n)) db) (apart_by_two n)
          (λ x mx same. alone e (pred_int64 (pos n)) (pos (suc n)) me x mx (same ∙ sym at_e))
          (inr
            (neighbors-of_Elem c.id (pred_int64 (pos n)) (pos (suc n)) db e me (inr at_e), at_e)))

-- In a consistent database, for two rows of a chain at positions n and n + 1: the route shows the first
-- as the previous neighbour of the second, and the second as the next neighbour of the first, and the
-- second names the hash of the first, nil for an empty one.
pub neighbors_link :
    (lib : JsonLib) (db : Db) (c : Chain) (p e : EventRow) (n : ℕ)
    → IsConsistent lib db
    → Elem c db.chains
    → Elem p (chain_rows c.id db.events)
    → Elem e (chain_rows c.id db.events)
    → p.chain_position ≡ pos n
    → e.chain_position ≡ pos (suc n)
    → n + 2 < 2 ^ 63
    → ((neighbors_of e db).previous ≡ some (neighbor_view p))
      × ((neighbors_of p db).next ≡ some (neighbor_view e))
      × (e.previous_event_hash ≡ null_if_empty p.event_hash)
neighbors_link lib db c p e n h m mp me at_p at_e small = (
  previous-of lib db c p e n h m mp me at_p at_e small,
  next-of lib db c p e n h m mp me at_p at_e small,
  Named-next 1 n [] (chain_rows c.id db.events) p e (h c m).numbered (h c m).named mp me at_p at_e,
)
