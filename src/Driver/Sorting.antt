-- ===== src/Driver/Sorting.antt =====
-- Rust's `sort_by_key`, a stable sort by an address, as both drivers use it, and what it keeps.
use opcua_plc_bridge.Base.{
  ℕ, ◌≤◌, List, [], ◌∷◌, ltb, if◌then◌else◌, All, arith, Bool-cases, inl, inr, Any, ◌⊎◌,
}

module _ {A : Type 0} (R : A → A → Type 0) where
  -- `R` holds of each element and every later one.
  abbrev pub AllPairs : List A → Type 0
  AllPairs [] = Unit {0}
  AllPairs (m ∷ ms) = All (R m) ms × AllPairs ms

module _ {A : Type 0} (key : A → ℕ) where
  -- Stable: `m` goes before the first element whose key is not below its own.
  unfoldable pub insert_by_key : A → List A → List A
  insert_by_key m [] = m ∷ []
  insert_by_key m (x ∷ xs) =
      let rest = insert_by_key m xs in if ltb (key x) (key m) then x ∷ rest else m ∷ x ∷ xs

  unfoldable pub sort_by_key : List A → List A
  unfolding insert_by_key
  sort_by_key [] = []
  sort_by_key (m ∷ ms) = insert_by_key m (sort_by_key ms)

  abbrev pub IsSorted : List A → Type 0
  IsSorted = AllPairs (λ a b. key a ≤ key b)

  module _ (P : A → Type 0) where
    All-insert_by_key : (m : A) (xs : List A) → P m → All P xs → All P (insert_by_key m xs)
    unfolding insert_by_key
    All-insert_by_key m [] p h = (p, tt)
    All-insert_by_key m (x ∷ xs) p h = elim (Bool-cases (ltb (key x) (key m))) [
      | inl lt ↦ rw lt (h.0, All-insert_by_key m xs p h.1)
      | inr ge ↦ rw ge (p, h)
    ]

    pub All-sort_by_key : (xs : List A) → All P xs → All P (sort_by_key xs)
    unfolding sort_by_key
    All-sort_by_key [] h = tt
    All-sort_by_key (m ∷ ms) h = All-insert_by_key m (sort_by_key ms) h.0 (All-sort_by_key ms h.1)

    Any-insert_by_key : (m : A) (xs : List A) → P m ⊎ Any P xs → Any P (insert_by_key m xs)
    unfolding insert_by_key
    Any-insert_by_key m [] (inl p) = inl p
    Any-insert_by_key m [] (inr h) = absurd h
    Any-insert_by_key m (x ∷ xs) h = elim (Bool-cases (ltb (key x) (key m))) [
      | inr ge ↦ rw ge h
      | inl lt ↦ rw lt (elim h [
        | inl p ↦ inr (Any-insert_by_key m xs (inl p))
        | inr (inl q) ↦ inl q
        | inr (inr k) ↦ inr (Any-insert_by_key m xs (inr k))
      ])
    ]

    pub Any-sort_by_key : (xs : List A) → Any P xs → Any P (sort_by_key xs)
    unfolding sort_by_key
    Any-sort_by_key [] h = absurd h
    Any-sort_by_key (m ∷ ms) (inl p) = Any-insert_by_key m (sort_by_key ms) (inl p)
    Any-sort_by_key (m ∷ ms) (inr h) =
        Any-insert_by_key m (sort_by_key ms) (inr (Any-sort_by_key ms h))

    insert-All : (m : A) (xs : List A) → All P (insert_by_key m xs) → P m × All P xs
    unfolding insert_by_key
    insert-All m [] h = (h.0, tt)
    insert-All m (x ∷ xs) h = elim (Bool-cases (ltb (key x) (key m))) [
      | inl lt ↦
          let k : All P (x ∷ insert_by_key m xs) = rw lt at h in
          let (pm, rest) = insert-All m xs k.1 in (pm, (k.0, rest))
      | inr ge ↦ let k : All P (m ∷ x ∷ xs) = rw ge at h in (k.0, k.1)
    ]

    pub sort-All : (xs : List A) → All P (sort_by_key xs) → All P xs
    unfolding sort_by_key
    sort-All [] h = tt
    sort-All (m ∷ ms) h = let (p, rest) = insert-All m (sort_by_key ms) h in (p, sort-All ms rest)

  All-le : (a b : ℕ) (xs : List A) → a ≤ b → All (λ x. b ≤ key x) xs → All (λ x. a ≤ key x) xs
  All-le a b [] h k = tt
  All-le a b (x ∷ xs) h k = (omega arith, All-le a b xs h k.1)

  insert-IsSorted : (m : A) (xs : List A) → IsSorted xs → IsSorted (insert_by_key m xs)
  unfolding insert_by_key
  insert-IsSorted m [] h = (tt, tt)
  insert-IsSorted m (x ∷ xs) h = elim (Bool-cases (ltb (key x) (key m))) [
    | inl lt ↦
        rw lt
          (All-insert_by_key (λ y. key x ≤ key y) m xs (ground arith) h.0, insert-IsSorted m xs h.1)
    | inr ge ↦
        let le : key m ≤ key x = ground arith in rw ge ((le, All-le (key m) (key x) xs le h.0), h)
  ]

  pub sort_by_key-IsSorted : (xs : List A) → IsSorted (sort_by_key xs)
  unfolding sort_by_key
  sort_by_key-IsSorted [] = tt
  sort_by_key-IsSorted (m ∷ ms) = insert-IsSorted m (sort_by_key ms) (sort_by_key-IsSorted ms)

  module _ (R : A → A → Type 0) (R-symm : (a b : A) → R a b → R b a) where
    insert-AllPairs : (m : A) (xs : List A) → AllPairs R (insert_by_key m xs) → AllPairs R (m ∷ xs)
    unfolding insert_by_key
    insert-AllPairs m [] h = h
    insert-AllPairs m (x ∷ xs) h = elim (Bool-cases (ltb (key x) (key m))) [
      | inl lt ↦
          let k : AllPairs R (x ∷ insert_by_key m xs) = rw lt at h in
          let (xm, others) = insert-All (R x) m xs k.0 in
          let (ms, rest) = insert-AllPairs m xs k.1 in ((R-symm x m xm, ms), (others, rest))
      | inr ge ↦ rw ge at h
    ]

    -- A symmetric relation of all pairs of the sorted list is one of all pairs of the list.
    pub sort-AllPairs : (xs : List A) → AllPairs R (sort_by_key xs) → AllPairs R xs
    unfolding sort_by_key
    sort-AllPairs [] h = tt
    sort-AllPairs (m ∷ ms) h =
        let (a, rest) = insert-AllPairs m (sort_by_key ms) h in
        (sort-All (R m) ms a, sort-AllPairs ms rest)
