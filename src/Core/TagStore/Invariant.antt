-- ===== src/Core/TagStore/Invariant.antt =====
-- The representation invariant of the tag store (core-model/src/tag_store.rs).
use opcua_plc_bridge.Base.{
  ℕ, zero, suc, ◌+◌, ◌≤◌, ◌<◌, ◌≡◌, refl, ap, sym, ◌∙◌, Bool, true, false, ◌||◌, List, [], ◌∷◌,
  ◌++◌, none, some, is_some, Str, str_eq, str_eq_iff, str_lt, str_lt_trans, str_lt_total, length,
  length-append, lookup, insert, lookup-insert, All, arith, inl, inr, Bool-cases, Option-cases,
}
use opcua_plc_bridge.Base.{length-set, map}
use opcua_plc_bridge.Core.Tag.{Tag}
use opcua_plc_bridge.Core.TagStore.{
  Inner, empty, insert_position, insert_at, broadcast_change, store, push_slot, insert_locked,
  subscribe,
}
use opcua_plc_bridge.Core.TagStore.Subscribers.{
  Channel, TagChange, IsBounded, try_send, try_send-IsBounded,
}

-- The entries of the index are numbered from `k` up to `n`, and no id occurs twice.
abbrev pub Indexed : List (Str × ℕ) → ℕ → ℕ → Type 0
Indexed [] k n = k ≡ n
Indexed ((id, i) ∷ m) k n = (i ≡ k) × (lookup id m ≡ none) × Indexed m (suc k) n

Indexed-le : (m : List (Str × ℕ)) (k n : ℕ) → Indexed m k n → k ≤ n
Indexed-le [] k n h = omega arith
Indexed-le ((_, _) ∷ m) k n h = omega (arith, Indexed-le m (suc k) n h.2)

pub lookup-lt :
    (m : List (Str × ℕ)) (k n : ℕ) (id : Str) (i : ℕ)
    → Indexed m k n
    → lookup id m ≡ some i
    → (k ≤ i) × (i < n)
unfolding lookup
lookup-lt [] k n id i h e = cc
lookup-lt ((j, x) ∷ m) k n id i h e =
    ground (arith, Indexed-le m (suc k) n h.2, lookup-lt m (suc k) n id i h.2)

-- Two ids with one slot are one id.
pub lookup_injective :
    (m : List (Str × ℕ)) (k n : ℕ) (a b : Str) (i : ℕ)
    → Indexed m k n
    → lookup a m ≡ some i
    → lookup b m ≡ some i
    → a ≡ b
unfolding lookup
lookup_injective [] k n a b i h p q = cc
lookup_injective ((j, x) ∷ m) k n a b i h p q = ground (
  arith,
  str_eq_iff j a,
  str_eq_iff j b,
  lookup-lt m (suc k) n a i h.2,
  lookup-lt m (suc k) n b i h.2,
  lookup_injective m (suc k) n a b i h.2,
)

insert-absent :
    (m : List (Str × ℕ)) (id : Str) (n : ℕ) (j : Str)
    → str_eq id j ≡ false
    → lookup j (insert id n m) ≡ lookup j m
insert-absent m id n j h = rw (lookup-insert id j n m, h)

pub insert-Indexed :
    (m : List (Str × ℕ)) (k n : ℕ) (id : Str)
    → Indexed m k n
    → lookup id m ≡ none
    → Indexed (insert id n m) k (suc n)
unfolding lookup insert
insert-Indexed [] k n id h e = (sym h, refl, ap suc h)
insert-Indexed ((j, x) ∷ m) k n id h e = ground (
  arith,
  str_eq_iff j id,
  str_eq_iff id j,
  insert-absent m id n j,
  insert-Indexed m (suc k) n id h.2,
)

abbrev pub IsSorted : List Str → Type 0
IsSorted [] = Unit {0}
IsSorted (x ∷ xs) = All (λ y. str_lt x y ≡ true) xs × IsSorted xs

unfoldable pub member : Str → List Str → Bool
member id [] = false
member id (x ∷ xs) = str_eq x id || member id xs

All-insert_at :
    (x : Str) (n : ℕ) (id : Str) (xs : List Str)
    → str_lt x id ≡ true
    → All (λ y. str_lt x y ≡ true) xs
    → All (λ y. str_lt x y ≡ true) (insert_at n id xs)
unfolding insert_at
All-insert_at x zero id xs h a = (h, a)
All-insert_at x (suc n) id [] h a = (h, tt)
All-insert_at x (suc n) id (y ∷ ys) h a = (a.0, All-insert_at x n id ys h a.1)

All-above :
    (id x : Str) (xs : List Str)
    → str_lt id x ≡ true
    → All (λ y. str_lt x y ≡ true) xs
    → All (λ y. str_lt id y ≡ true) xs
All-above id x [] h a = tt
All-above id x (y ∷ ys) h a = (str_lt_trans id x y h a.0, All-above id x ys h a.1)

pub insert-IsSorted :
    (id : Str) (xs : List Str)
    → IsSorted xs
    → member id xs ≡ false
    → IsSorted (insert_at (insert_position id xs) id xs)
unfolding insert_at insert_position member
insert-IsSorted id [] h e = (tt, tt)
insert-IsSorted id (x ∷ xs) h e = elim (Bool-cases (str_lt x id)) [
  | inl lt ↦ rw lt (All-insert_at x _ id xs lt h.0, insert-IsSorted id xs h.1 (ground arith))
  | inr ge ↦
      let above : str_lt id x ≡ true = str_lt_total x id (ground arith) ge in
      rw ge ((above, All-above id x xs above h.0), h)
]

pub member-insert :
    (id j : Str) (n : ℕ) (xs : List Str)
    → member j (insert_at n id xs) ≡ (str_eq id j || member j xs)
unfolding insert_at member
member-insert id j zero xs = refl
member-insert id j (suc n) [] = refl
member-insert id j (suc n) (x ∷ xs) = ground (arith, member-insert id j n xs)

pub length-insert_at :
    (n : ℕ) (id : Str) (xs : List Str) → length (insert_at n id xs) ≡ length xs + 1
unfolding insert_at
length-insert_at zero id xs = omega arith
length-insert_at (suc n) id [] = omega arith
length-insert_at (suc n) id (x ∷ xs) = omega (arith, length-insert_at n id xs)

-- What every operation of the store keeps.
module _ {T : Type 0} where
  pub record IsWellFormed (s : Inner T) : Type 0 where
    pub indexed : Indexed s.index 0 (length s.tags)
    pub sorted : IsSorted s.sorted_ids
    pub counted : length s.sorted_ids ≡ length s.tags
    pub same_ids : (id : Str) → member id s.sorted_ids ≡ is_some (lookup id s.index)
    pub bounded : All IsBounded s.subscribers

  pub empty-IsWellFormed : IsWellFormed (empty T)
  unfolding member lookup
  empty-IsWellFormed = record {
    indexed = refl;
    sorted = tt;
    counted = refl;
    same_ids = λ id. refl;
    bounded = tt;
  }

  pub store-IsWellFormed :
      (idx : ℕ) (tag : Tag T) {s : Inner T} → IsWellFormed s → IsWellFormed (store idx tag s)
  unfolding store
  store-IsWellFormed idx tag {s} h = record {
    indexed = rw length-set h.indexed;
    sorted = h.sorted;
    counted = rw length-set h.counted;
    same_ids = h.same_ids;
    bounded = h.bounded;
  }

  pub push_slot-IsWellFormed :
      (id : Str) (tag : Tag T) {s : Inner T}
      → IsWellFormed s
      → lookup id s.index ≡ none
      → IsWellFormed (push_slot id tag s)
  unfolding push_slot
  push_slot-IsWellFormed id tag {s} h e = record {
    indexed =
        let e' : length (s.tags ++ (tag ∷ [])) ≡ suc (length s.tags) =
          omega (arith, length-append s.tags (tag ∷ [])) in
        rw e' (insert-Indexed s.index 0 (length s.tags) id h.indexed e);
    sorted = insert-IsSorted id s.sorted_ids h.sorted (h.same_ids id ∙ ap is_some e);
    counted = omega (
      arith,
      length-append s.tags (tag ∷ []),
      length-insert_at (insert_position id s.sorted_ids) id s.sorted_ids,
      h.counted,
    );
    same_ids = λ j. ground (
      arith,
      member-insert id j (insert_position id s.sorted_ids) s.sorted_ids,
      lookup-insert id j (length s.tags) s.index,
      h.same_ids j,
    );
    bounded = h.bounded;
  }

  All-map_send :
      (change : TagChange T) (cs : List (Channel T))
      → All IsBounded cs
      → All IsBounded (map (try_send change) cs)
  All-map_send change [] h = tt
  All-map_send change (c ∷ cs) h = (try_send-IsBounded change c h.0, All-map_send change cs h.1)

  pub broadcast_change-IsWellFormed :
      (id : Str) (tag : Tag T) {s : Inner T}
      → IsWellFormed s
      → IsWellFormed (broadcast_change id tag s)
  unfolding broadcast_change
  broadcast_change-IsWellFormed id tag {s} h = record {
    indexed = h.indexed;
    sorted = h.sorted;
    counted = h.counted;
    same_ids = h.same_ids;
    bounded = All-map_send _ s.subscribers h.bounded;
  }

  All-snoc :
      (cs : List (Channel T)) (c : Channel T)
      → All IsBounded cs
      → IsBounded c
      → All IsBounded (cs ++ (c ∷ []))
  All-snoc [] c h g = (g, tt)
  All-snoc (d ∷ cs) c h g = (h.0, All-snoc cs c h.1 g)

  pub subscribe-IsWellFormed : {s : Inner T} → IsWellFormed s → IsWellFormed (subscribe s)
  unfolding subscribe
  subscribe-IsWellFormed {s} h = record {
    indexed = h.indexed;
    sorted = h.sorted;
    counted = h.counted;
    same_ids = h.same_ids;
    bounded = All-snoc s.subscribers _ h.bounded (omega arith);
  }

  pub insert_locked-IsWellFormed :
      (id : Str) (tag : Tag T) {s : Inner T}
      → IsWellFormed s
      → IsWellFormed (insert_locked id tag s)
  unfolding insert_locked
  insert_locked-IsWellFormed id tag {s} h = elim (Option-cases (lookup id s.index)) [
    | inl gone ↦
        rw (gone, insert_locked)
          (broadcast_change-IsWellFormed id tag (push_slot-IsWellFormed id tag h gone))
    | inr (i, found) ↦ rw (found, insert_locked) (store-IsWellFormed i tag h)
  ]
