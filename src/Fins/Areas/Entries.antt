-- ===== src/Fins/Areas/Entries.antt =====
-- What the map from areas to mappings holds (driver/fins/src/driver.rs).
use opcua_plc_bridge.Base.{
  ℕ, ◌<◌, ◌==◌, ==_iff, ◌≡◌, refl, sym, ◌∙◌, ap, true, false, List, [], ◌∷◌, ◌++◌, ltb, arith, All,
  if◌then◌else◌, Bool-cases, inl, inr, Any,
}
use mathlib.Core.List.{append_assoc, append-nil}
use opcua_plc_bridge.Driver.Sorting.{AllPairs}
use opcua_plc_bridge.Fins.Mapping.{TagMapping}
use opcua_plc_bridge.Fins.Areas.{push_entry, by_area}

-- The mappings of an area, in the order of the configuration.
unfoldable pub with_area : ℕ → List TagMapping → List TagMapping
with_area a [] = []
with_area a (m ∷ ms) = let rest = with_area a ms in if m.area == a then m ∷ rest else rest

-- The entry of an area.
abbrev pub entry : ℕ → List (ℕ × List TagMapping) → List TagMapping
entry a [] = []
entry a ((area, ms) ∷ rest) = let later = entry a rest in if area == a then ms else later

-- The keys ascend.
abbrev pub IsAscending : List (ℕ × List TagMapping) → Type 0
IsAscending = AllPairs (λ x y. x.0 < y.0)

All-push_entry :
    (k : ℕ) (m : TagMapping) (es : List (ℕ × List TagMapping))
    → k < m.area
    → All (λ (x : ℕ × List TagMapping). k < x.0) es
    → All (λ (x : ℕ × List TagMapping). k < x.0) (push_entry m es)
unfolding push_entry
All-push_entry k m [] lt h = (lt, tt)
All-push_entry k m ((area, ms) ∷ rest) lt h = elim (Bool-cases (m.area == area)) [
  | inl here ↦ rw here h
  | inr other ↦ elim (Bool-cases (ltb m.area area)) [
    | inl before ↦ rw (other, before) (lt, h)
    | inr behind ↦ rw (other, behind) (h.0, All-push_entry k m rest lt h.1)
  ]
]

All-above :
    (a b : ℕ) (es : List (ℕ × List TagMapping))
    → a < b
    → All (λ (x : ℕ × List TagMapping). b < x.0) es
    → All (λ (x : ℕ × List TagMapping). a < x.0) es
All-above a b [] lt h = tt
All-above a b (x ∷ xs) lt h = (omega arith, All-above a b xs lt h.1)

push_entry-IsAscending :
    (m : TagMapping) (es : List (ℕ × List TagMapping))
    → IsAscending es
    → IsAscending (push_entry m es)
unfolding push_entry
push_entry-IsAscending m [] h = (tt, tt)
push_entry-IsAscending m ((area, ms) ∷ rest) h = elim (Bool-cases (m.area == area)) [
  | inl here ↦ rw here h
  | inr other ↦ elim (Bool-cases (ltb m.area area)) [
    | inl before ↦
        let lt : m.area < area = ground arith in
        rw (other, before) ((lt, All-above m.area area rest lt h.0), h)
    | inr behind ↦
        let lt : area < m.area = ground arith in
        rw (other, behind) (All-push_entry area m rest lt h.0, push_entry-IsAscending m rest h.1)
  ]
]

entry-none :
    (a : ℕ) (es : List (ℕ × List TagMapping))
    → All (λ (x : ℕ × List TagMapping). a < x.0) es
    → entry a es ≡ []
entry-none a [] h = refl
entry-none a ((area, ms) ∷ rest) h =
    let apart : (area == a) ≡ false = ground arith in rw apart (entry-none a rest h.1)

entry-push_entry :
    (a : ℕ) (m : TagMapping) (es : List (ℕ × List TagMapping))
    → IsAscending es
    → entry a (push_entry m es) ≡ entry a es ++ with_area a (m ∷ [])
unfolding push_entry with_area
entry-push_entry a m [] h = refl
entry-push_entry a m ((area, ms) ∷ rest) h = elim (Bool-cases (m.area == area)) [
  | inl here ↦
      let same : m.area ≡ area = (==_iff m.area area).0 here in
      elim (Bool-cases (area == a)) [
        | inl mine ↦ rw (here, same, mine) refl
        | inr no_ ↦ rw (here, same, no_) (sym (append-nil (entry a rest)))
      ]
  | inr other ↦ elim (Bool-cases (ltb m.area area)) [
    | inl before ↦ elim (Bool-cases (m.area == a)) [
      | inl mine ↦
          let none_yet : entry a ((area, ms) ∷ rest) ≡ [] =
            entry-none a ((area, ms) ∷ rest)
              (ground arith, All-above a area rest (ground arith) h.0) in
          rw (other, before, mine, none_yet) refl
      | inr no_ ↦ rw (other, before, no_) (sym (append-nil (entry a ((area, ms) ∷ rest))))
    ]
    | inr behind ↦ elim (Bool-cases (area == a)) [
      | inl mine ↦
          let no_ : (m.area == a) ≡ false = ground arith in
          rw (other, behind, mine, no_) (sym (append-nil ms))
      | inr apart ↦ rw (other, behind, apart) (entry-push_entry a m rest h.1)
    ]
  ]
]

with_area-cons :
    (a : ℕ) (m : TagMapping) (ms : List TagMapping)
    → with_area a (m ∷ []) ++ with_area a ms ≡ with_area a (m ∷ ms)
unfolding with_area
with_area-cons a m ms = elim (Bool-cases (m.area == a)) [
  | inl mine ↦ rw mine refl
  | inr other ↦ rw other refl
]

by_area-entry :
    (a : ℕ) (ms : List TagMapping) (es : List (ℕ × List TagMapping))
    → IsAscending es
    → entry a (by_area ms es) ≡ entry a es ++ with_area a ms
unfolding by_area with_area
by_area-entry a [] es h = sym (append-nil (entry a es))
by_area-entry a (m ∷ ms) es h =
    by_area-entry a ms (push_entry m es) (push_entry-IsAscending m es h)
    ∙ ap (λ xs. xs ++ with_area a ms) (entry-push_entry a m es h)
    ∙ append_assoc (entry a es) (with_area a (m ∷ [])) (with_area a ms)
    ∙ ap (λ xs. entry a es ++ xs) (with_area-cons a m ms)

-- The entry of an area holds exactly its mappings, in the order of the configuration.
pub entry-by_area : (a : ℕ) (ms : List TagMapping) → entry a (by_area ms []) ≡ with_area a ms
entry-by_area a ms = by_area-entry a ms [] tt

pub All-with_area :
    (P : TagMapping → Type 0) (a : ℕ) (ms : List TagMapping) → All P ms → All P (with_area a ms)
unfolding with_area
All-with_area P a [] h = tt
All-with_area P a (m ∷ ms) h = elim (Bool-cases (m.area == a)) [
  | inl mine ↦ rw mine (h.0, All-with_area P a ms h.1)
  | inr other ↦ rw other (All-with_area P a ms h.1)
]

pub Any-with_area :
    (m : TagMapping) (ms : List TagMapping)
    → Any (λ x. x ≡ m) ms
    → Any (λ x. x ≡ m) (with_area m.area ms)
unfolding with_area
Any-with_area m [] h = absurd h
Any-with_area m (x ∷ ms) h = elim (Bool-cases (x.area == m.area)) [
  | inl mine ↦ rw mine (elim h [ inl e ↦ inl e | inr k ↦ inr (Any-with_area m ms k) ])
  | inr other ↦ rw other (elim h [
    | inl e ↦
        let same : (x.area == m.area) ≡ true = (==_iff x.area m.area).1 (ap (λ y. y.area) e) in cc
    | inr k ↦ Any-with_area m ms k
  ])
]

-- A property of all mappings holds in every entry.
abbrev pub EachEntry : (TagMapping → Type 0) → List (ℕ × List TagMapping) → Type 0
EachEntry P = All (λ (e : ℕ × List TagMapping). All P e.1)

All-append :
    (P : TagMapping → Type 0) (xs : List TagMapping) (m : TagMapping)
    → All P xs
    → P m
    → All P (xs ++ (m ∷ []))
All-append P [] m h p = (p, tt)
All-append P (x ∷ xs) m h p = (h.0, All-append P xs m h.1 p)

push_entry-EachEntry :
    (P : TagMapping → Type 0) (m : TagMapping) (es : List (ℕ × List TagMapping))
    → P m
    → EachEntry P es
    → EachEntry P (push_entry m es)
unfolding push_entry
push_entry-EachEntry P m [] p h = ((p, tt), tt)
push_entry-EachEntry P m ((area, ms) ∷ rest) p h = elim (Bool-cases (m.area == area)) [
  | inl here ↦ rw here (All-append P ms m h.0 p, h.1)
  | inr other ↦ elim (Bool-cases (ltb m.area area)) [
    | inl before ↦ rw (other, before) ((p, tt), h)
    | inr behind ↦ rw (other, behind) (h.0, push_entry-EachEntry P m rest p h.1)
  ]
]

pub by_area-EachEntry :
    (P : TagMapping → Type 0) (ms : List TagMapping) (es : List (ℕ × List TagMapping))
    → All P ms
    → EachEntry P es
    → EachEntry P (by_area ms es)
unfolding by_area
by_area-EachEntry P [] es h k = k
by_area-EachEntry P (m ∷ ms) es h k =
    by_area-EachEntry P ms (push_entry m es) h.1 (push_entry-EachEntry P m es h.0 k)
