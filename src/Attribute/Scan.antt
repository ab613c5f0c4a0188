-- ===== src/Attribute/Scan.antt =====
-- The loop `for (idx = 0; idx < size; ++idx) { if (test (array.at (idx))) hit; } miss` of
-- CategoricalAttributeLite.hpp and ContinuousAttributeLite.hpp.
use trademgen.Prelude.{
  ℕ, zero, suc, ◌+◌, ◌<◌, ◌≡◌, refl, ap, ◌∙◌, subst, inl, inr, Bool, true, false, Option, none,
  some, List, [], ◌∷◌, map, arith, if◌then◌else◌, Bool-cases, length, get_elem?, All, length-map,
  out_of_range, Result, ◌>>=◌, or_fault,
}

-- `vector::at`.
abbrev pub at {ℓ} : {A : Type ℓ} → List A → ℕ → Result A
at xs i = or_fault out_of_range (get_elem? xs i)

module _ {ℓ κ} {A : Type ℓ} {B : Type κ} (test : A → Bool) (hit miss : ℕ → Result B) where
  -- The rounds left and the index.
  unfoldable pub scan : List A → ℕ → ℕ → Result B
  scan xs zero i = miss i
  scan xs (suc r) i = at xs i >>= λ a. elim (test a) [ true ↦ hit i | false ↦ scan xs r (suc i) ]

-- The first place where the test holds.
abbrev pub shift_option : Option ℕ → Option ℕ
shift_option none = none
shift_option (some i) = some (suc i)

abbrev pub position {ℓ} : {A : Type ℓ} → (A → Bool) → List A → Option ℕ
position test [] = none
position test (x ∷ xs) = if test x then some 0 else shift_option (position test xs)

abbrev pub found {ℓ} : {B : Type ℓ} → (ℕ → Result B) → (ℕ → Result B) → ℕ → ℕ → Option ℕ → Result B
found hit miss size i none = miss (i + size)
found hit miss size i (some j) = hit (i + j)

module _ {κ} {B : Type κ} (hit miss : ℕ → Result B) where
  pub found-shift_option :
      (n i : ℕ) (o : Option ℕ)
      → found hit miss n (suc i) o ≡ found hit miss (suc n) i (shift_option o)
  found-shift_option n i none = ap miss (omega arith)
  found-shift_option n i (some j) = ap hit (omega arith)

module _ {ℓ κ} {A : Type ℓ} {B : Type κ} (test : A → Bool) (hit miss : ℕ → Result B) where
  scan_from-position :
      (arr xs : List A) (i : ℕ)
      → ((j : ℕ) → get_elem? arr (i + j) ≡ get_elem? xs j)
      → scan test hit miss arr (length xs) i ≡ found hit miss (length xs) i (position test xs)
  unfolding scan
  scan_from-position arr [] i h = ap miss (omega arith)
  scan_from-position arr (x ∷ xs) i h =
      let e : get_elem? arr i ≡ some x = ap (get_elem? arr) (omega arith) ∙ h 0 in
      rw e (elim (Bool-cases (test x)) [
        | inl t ↦ rw t (ap hit (omega arith))
        | inr f ↦ rw f (
            scan_from-position arr xs (suc i) (λ j. ap (get_elem? arr) (omega arith) ∙ h (suc j))
            ∙ found-shift_option hit miss (length xs) i (position test xs))
      ])

  -- The whole loop finds the first place where the test holds.
  pub scan-position :
      (xs : List A)
      → scan test hit miss xs (length xs) 0 ≡ found hit miss (length xs) 0 (position test xs)
  scan-position xs = scan_from-position xs xs 0 (λ j. ap (get_elem? xs) (omega arith))

-- At the first place the test holds.
pub position-some {ℓ} :
    {A : Type ℓ} (test : A → Bool) (xs : List A) (i : ℕ)
    → position test xs ≡ some i
    → (a : A) × (get_elem? xs i ≡ some a) × (test a ≡ true)
position-some test [] i h = cc
position-some test (x ∷ xs) zero h = (x, refl, ground arith)
position-some test (x ∷ xs) (suc i) h = position-some test xs i (ground arith)

-- It fails at every place before.
pub position_before {ℓ} :
    {A : Type ℓ} (test : A → Bool) (xs : List A) (i j : ℕ)
    → position test xs ≡ some j
    → i < j
    → (a : A) × (get_elem? xs i ≡ some a) × (test a ≡ false)
position_before test [] i j h l = cc
position_before test (x ∷ xs) zero j h l = elim (Bool-cases (test x)) [
  | inl t ↦ absurd (ground arith)
  | inr f ↦ (x, refl, f)
]
position_before test (x ∷ xs) (suc i) zero h l = elim l [ ]
position_before test (x ∷ xs) (suc i) (suc j) h l =
    position_before test xs i j (ground arith) (omega arith)

-- If there is none, the test fails everywhere.
pub position-none {ℓ} :
    {A : Type ℓ} (test : A → Bool) (xs : List A)
    → position test xs ≡ none
    → All (λ a. test a ≡ false) xs
position-none test [] h = tt
position-none test (x ∷ xs) h = (ground arith, position-none test xs (ground arith))

-- The loop over an array with as many elements as a list.
pub scan-map {ℓ κ μ} :
    {C : Type μ} {A : Type ℓ} {B : Type κ} (test : A → Bool) (hit miss : ℕ → Result B) (f : C → A)
    (ys : List C)
    → scan test hit miss (map f ys) (length ys) 0
      ≡ found hit miss (length ys) 0 (position test (map f ys))
scan-map test hit miss f ys =
    subst (λ n. scan test hit miss (map f ys) n 0 ≡ found hit miss n 0 (position test (map f ys)))
      (length-map f ys) (scan-position test hit miss (map f ys))
