-- ===== src/Attribute/Categorical/Draw.antt =====
-- What `getValue` and `checkValue` of CategoricalAttributeLite.hpp answer, in terms of the map that
-- the attribute was built from.
use mathlib.Core.List.{append-nil, append_assoc}
use trademgen.Prelude.{
  ℕ, suc, ◌<◌, ◌≡◌, refl, sym, ap, ◌∙◌, ◌↔◌, ◌⊎◌, inl, inr, true, false, ◌&&◌, Option, none, some,
  List, [], ◌∷◌, ◌++◌, arith, if◌then◌else◌, Bool-cases, length, index_out_of_range, ok, err,
  or_fault,
}
use trademgen.Prelude.Int.{pos}
use trademgen.Platform.{Platform, IsOrdered}
use trademgen.Attribute.Scan.{scan-position, at, position, shift_option, found}
use trademgen.Attribute.Categorical.{
  ProbabilityMassFunction, Filling, init, get_value, add_entry, fill,
}

module _ ⦃p : Platform⦄ where
  open p use {Real, add, le, lt, decimal}

  abbrev pub zero_mass : Real
  zero_mass = decimal (pos 0) 0

  -- The values with a positive mass, and the sums of those masses up to each of them.
  abbrev pub kept : {T : Type 0} → ProbabilityMassFunction T → List T
  kept [] = []
  kept ((v, m) ∷ es) = if lt zero_mass m then v ∷ kept es else kept es

  abbrev pub sums : {T : Type 0} → Real → ProbabilityMassFunction T → List Real
  sums acc [] = []
  sums acc ((v, m) ∷ es) =
      let rest = sums (if lt zero_mass m then add acc m else acc) es in
      if lt zero_mass m then add acc m ∷ rest else rest

  -- The sum of the positive masses.
  abbrev pub total : {T : Type 0} → Real → ProbabilityMassFunction T → Real
  total acc [] = acc
  total acc ((v, m) ∷ es) = total (if lt zero_mass m then add acc m else acc) es

  -- The first value at which the sum of the positive masses so far reaches the variate.
  abbrev pub pick : {T : Type 0} → Real → Real → ProbabilityMassFunction T → Option T
  pick u acc [] = none
  pick u acc ((v, m) ∷ es) =
      let rest = pick u (if lt zero_mass m then add acc m else acc) es in
      if lt zero_mass m && le u (add acc m) then some v else rest

  -- The map gives the value a positive mass.
  abbrev pub HasMass : {T : Type 0} → T → ProbabilityMassFunction T → Type 0
  HasMass v [] = ⊥
  HasMass v ((w, m) ∷ es) = ((w ≡ v) × (lt zero_mass m ≡ true)) ⊎ HasMass v es

  -- Adding a positive mass does not lower a sum.
  abbrev pub Grows : Type 0
  Grows = (a m : Real) → lt zero_mass m ≡ true → lt (add a m) a ≡ false

  module _ {T : Type 0} where
    pub fill-values :
        (s : Filling T) (m : ProbabilityMassFunction T) → (fill s m).values ≡ s.values ++ kept m
    unfolding fill
    fill-values s [] = sym (append-nil s.values)
    fill-values s ((v, m) ∷ es) =
        fill-values (add_entry s (v, m)) es
        ∙ ground (arith, append_assoc s.values (v ∷ []) (kept es))

    pub fill-cumulative :
        (s : Filling T) (m : ProbabilityMassFunction T)
        → (fill s m).cumulative ≡ s.cumulative ++ sums s.so_far m
    unfolding fill
    fill-cumulative s [] = sym (append-nil s.cumulative)
    fill-cumulative s ((v, m) ∷ es) =
        fill-cumulative (add_entry s (v, m)) es
        ∙ ground (arith, append_assoc s.cumulative (add s.so_far m ∷ []) (sums (add s.so_far m) es))

    pub length-sums :
        (acc : Real) (m : ProbabilityMassFunction T) → length (sums acc m) ≡ length (kept m)
    length-sums acc [] = refl
    length-sums acc ((v, m) ∷ es) = elim (Bool-cases (lt zero_mass m)) [
      | inl t ↦ rw t (ap suc (length-sums (add acc m) es))
      | inr f ↦ rw f (length-sums acc es)
    ]

    found_shift :
        (v : T) (vs : List T) (n : ℕ) (o : Option ℕ)
        → found (at (v ∷ vs)) (λ _. err index_out_of_range) n 0 (shift_option o)
          ≡ found (at vs) (λ _. err index_out_of_range) n 0 o
    found_shift v vs n none = refl
    found_shift v vs n (some j) = ground arith

    pick-position :
        (u acc : Real) (m : ProbabilityMassFunction T) (n : ℕ)
        → found
            (at (kept m))
            (λ _. err index_out_of_range)
            n
            0
            (position (λ c. le u c) (sums acc m))
          ≡ or_fault index_out_of_range (pick u acc m)
    pick-position u acc [] n = refl
    pick-position u acc ((v, m) ∷ es) n = elim (Bool-cases (lt zero_mass m)) [
      | inl t ↦ rw t (elim (Bool-cases (le u (add acc m))) [
        | inl reached ↦ rw reached
        | inr below ↦ rw below (
            found_shift v (kept es) n (position (λ c. le u c) (sums (add acc m) es))
            ∙ pick-position u (add acc m) es n)
      ])
      | inr f ↦ rw f (pick-position u acc es n)
    ]

    pub size-init : (m : ProbabilityMassFunction T) → (init m).size ≡ length (kept m)
    unfolding init
    size-init m =
        ap length (fill-values (record { so_far = zero_mass; cumulative = []; values = [] }) m)

    -- `getValue` on the arrays that `init` fills answers the first value of the map at which the
    -- sum of the positive masses so far reaches the variate, and throws where there is none.
    pub get_value-init :
        (m : ProbabilityMassFunction T) (u : Real)
        → get_value (init m) u ≡ or_fault index_out_of_range (pick u zero_mass m)
    unfolding get_value init
    get_value-init m u =
        let start : Filling T = record { so_far = zero_mass; cumulative = []; values = [] } in
        rw (fill-values start m, fill-cumulative start m, ← length-sums zero_mass m)
          (scan-position (λ c. le u c) (at (kept m)) (λ _. err index_out_of_range)
              (sums zero_mass m)
            ∙ pick-position u zero_mass m (length (sums zero_mass m)))

    pick-HasMass :
        (u acc : Real) (m : ProbabilityMassFunction T) (v : T) → pick u acc m ≡ some v → HasMass v m
    pick-HasMass u acc [] v h = cc
    pick-HasMass u acc ((w, m) ∷ es) v h = elim (Bool-cases (lt zero_mass m && le u (add acc m))) [
      | inl t ↦ inl (ground arith, ground arith)
      | inr f ↦ inr (pick-HasMass u (if lt zero_mass m then add acc m else acc) es v (rw f at h))
    ]

    -- A value that `getValue` answers has a positive mass in the map that the attribute was built
    -- from.
    pub get_value-HasMass :
        (m : ProbabilityMassFunction T) (u : Real) (v : T)
        → get_value (init m) u ≡ ok v
        → HasMass v m
    get_value-HasMass m u v h = pick-HasMass u zero_mass m v (ground (arith, get_value-init m u))

    pick-none-total :
        (u acc : Real) (m : ProbabilityMassFunction T)
        → pick u acc m ≡ none
        → le u acc ≡ false
        → le u (total acc m) ≡ false
    pick-none-total u acc [] h below = below
    pick-none-total u acc ((w, m) ∷ es) h below =
        pick-none-total u (if lt zero_mass m then add acc m else acc) es (ground arith)
          (ground arith)

    pick-none-kept :
        (u acc : Real) (m : ProbabilityMassFunction T)
        → pick u acc m ≡ none
        → 0 < length (kept m)
        → le u (total acc m) ≡ false
    pick-none-kept u acc [] h n = absurd (omega arith)
    pick-none-kept u acc ((w, m) ∷ es) h n = elim (Bool-cases (lt zero_mass m)) [
      | inl t ↦ rw t (pick-none-total u (add acc m) es (ground arith) (ground arith))
      | inr f ↦ rw f (pick-none-kept u acc es (ground arith) (ground arith))
    ]

    module _ (laws : IsOrdered) (grows : Grows) where
      open laws use {le-eq-not-lt, lt_cotrans}

      le-total :
          (u acc : Real) (m : ProbabilityMassFunction T)
          → le u acc ≡ true
          → le u (total acc m) ≡ true
      le-total u acc [] h = h
      le-total u acc ((w, m) ∷ es) h = le-total u (if lt zero_mass m then add acc m else acc) es (
          ground (
            arith,
            grows acc m,
            le-eq-not-lt u acc,
            le-eq-not-lt u (add acc m),
            lt_cotrans (add acc m) acc u,
          ))

      total-lt-pick :
          (u acc : Real) (m : ProbabilityMassFunction T)
          → le u (total acc m) ≡ false
          → pick u acc m ≡ none
      total-lt-pick u acc [] h = refl
      total-lt-pick u acc ((w, m) ∷ es) h =
          ground (
            arith,
            le-total u (add acc m) es,
            total-lt-pick u (add acc m) es,
            total-lt-pick u acc es,
          )

      -- Let the doubles be ordered and adding a positive mass never lower a sum. If some mass of
      -- the map is positive, `getValue` throws exactly when the variate lies above the sum of the
      -- positive masses.
      pub get_value-fails_iff :
          (m : ProbabilityMassFunction T) (u : Real)
          → 0 < (init m).size
          → (get_value (init m) u ≡ err index_out_of_range) ↔ (lt (total zero_mass m) u ≡ true)
      get_value-fails_iff m u n = (
        λ e. ground (
          arith,
          get_value-init m u,
          le-eq-not-lt u (total zero_mass m),
          pick-none-kept u zero_mass m,
          size-init m,
        ),
        λ above. ground (
          arith,
          get_value-init m u,
          le-eq-not-lt u (total zero_mass m),
          total-lt-pick u zero_mass m,
        ),
      )
