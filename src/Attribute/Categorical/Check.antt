-- ===== src/Attribute/Categorical/Check.antt =====
-- `checkValue` of CategoricalAttributeLite.hpp.
use trademgen.Prelude.{
  ℕ, ◌≡◌, refl, ◌∙◌, ◌↔◌, inl, inr, Bool, true, false, ◌||◌, Option, none, some, List, [], ◌∷◌,
  arith, Bool-cases, length, ok,
}
use trademgen.Platform.{Platform}
use trademgen.Attribute.Scan.{scan-position, position, shift_option, found}
use trademgen.Attribute.Categorical.{ProbabilityMassFunction, init, check_value}
use trademgen.Attribute.Categorical.Draw.{zero_mass, kept, HasMass, fill-values}

module _ ⦃p : Platform⦄ where
  open p use {lt}

  -- One of the elements passes the test.
  abbrev has : {T : Type 0} → (T → Bool) → List T → Bool
  has test [] = false
  has test (x ∷ xs) = test x || has test xs

  module _ {T : Type 0} where
    found-has :
        (test : T → Bool) (xs : List T) (n i : ℕ)
        → found (λ _. ok true) (λ _. ok false) n i (position test xs) ≡ ok (has test xs)
    found-has test [] n i = refl
    found-has test (x ∷ xs) n i = elim (Bool-cases (test x)) [
      | inl t ↦ rw t
      | inr f ↦ rw f (shifted (position test xs) ∙ found-has test xs n i)
    ]
      where
        shifted :
            (o : Option ℕ)
            → found (λ _. ok true) (λ _. ok false) n i (shift_option o)
              ≡ found (λ _. ok true) (λ _. ok false) n i o
        shifted none = refl
        shifted (some j) = refl

  module _ {T : Type 0} (same : T → T → Bool)
      (same_iff : (a b : T) → (same a b ≡ true) ↔ (a ≡ b)) where
    has-HasMass :
        (m : ProbabilityMassFunction T) (v : T)
        → (has (λ w. same w v) (kept m) ≡ true) ↔ HasMass v m
    has-HasMass [] v = (λ e. cc, λ h. absurd h)
    has-HasMass ((w, m) ∷ es) v = (
      λ e. ground (arith, same_iff w v, has-HasMass es v),
      λ h. ground (arith, same_iff w v, has-HasMass es v),
    )

    check_value-init :
        (m : ProbabilityMassFunction T) (v : T)
        → check_value same (init m) v ≡ ok (has (λ w. same w v) (kept m))
    unfolding check_value init
    check_value-init m v =
        rw (fill-values (record { so_far = zero_mass; cumulative = []; values = [] }) m) (
          scan-position (λ w. same w v) (λ _. ok true) (λ _. ok false) (kept m)
          ∙ found-has (λ w. same w v) (kept m) (length (kept m)) 0)

    -- Where the test of two values agrees with their equality, `checkValue` answers true exactly
    -- for the values with a positive mass in the map, and false exactly for the others.
    pub check_value_iff :
        (m : ProbabilityMassFunction T) (v : T)
        → ((check_value same (init m) v ≡ ok true) ↔ HasMass v m)
          × ((check_value same (init m) v ≡ ok false) ↔ (¬ HasMass v m))
    check_value_iff m v = (
      (
        λ e. ground (arith, check_value-init m v, has-HasMass m v),
        λ h. ground (arith, check_value-init m v, has-HasMass m v),
      ),
      (
        λ e h. ground (arith, check_value-init m v, (has-HasMass m v).1 h),
        λ n. ground (arith, check_value-init m v, has-HasMass m v),
      ),
    )
