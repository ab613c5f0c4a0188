-- ===== src/Attribute/Multimap/Agreement.antt =====
-- `getValue` of trademgen/basic/ContinuousAttribute.hpp and of
-- trademgen/basic/ContinuousAttributeLite.hpp on the same map.
use trademgen.Prelude.{
  ◌≡◌, refl, sym, ap, ◌∙◌, ◌⊎◌, inl, inr, true, false, none, some, List, [], ◌∷◌, ◌++◌, map, arith,
  if◌then◌else◌, Bool-cases, All, ok, ◌>>=◌,
}
use trademgen.Platform.{Platform, IsOrdered}
use trademgen.Attribute.Dictionary.{value_to_key, key_to_value}
use trademgen.Attribute.Continuous
use trademgen.Attribute.Continuous.{ContinuousDistribution, Scalar}
use trademgen.Attribute.Continuous.Draw.{get_value-inverse, between}
use trademgen.Attribute.Multimap.{
  InverseDistribution, insert_entry, determine_inverse, construct_from_distribution, lower_bound,
  on_points, get_value,
}

append_assoc : {A : Type 0} (xs ys zs : List A) → (xs ++ ys) ++ zs ≡ xs ++ (ys ++ zs)
append_assoc [] ys zs = refl
append_assoc (x ∷ xs) ys zs = ap (λ r. x ∷ r) (append_assoc xs ys zs)

append-none : {A : Type 0} (xs : List A) → xs ++ [] ≡ xs
append-none [] = refl
append-none (x ∷ xs) = ap (λ r. x ∷ r) (append-none xs)

All-snoc :
    {A : Type 0} (P : A → Type 0) (xs : List A) (a : A) → All P xs → P a → All P (xs ++ (a ∷ []))
All-snoc P [] a h k = (k, tt)
All-snoc P (x ∷ xs) a (q, h) k = (q, All-snoc P xs a h k)

module _ ⦃p : Platform⦄ (laws : IsOrdered) where
  open p use {Real, lt, eq}
  open laws use {lt_irrefl, lt_trans, eq-def}

  lt_asym : (a b : Real) → lt a b ≡ true → lt b a ≡ false
  lt_asym a b h = ground (arith, lt_irrefl a, lt_trans a b a)

  apart : (u c : Real) → eq u c ≡ false → lt c u ≡ false → lt u c ≡ true
  apart u c h k = ground (arith, eq-def u c)

  not_equal : (u c d : Real) → lt c u ≡ true → lt u d ≡ true → eq d c ≡ false
  not_equal u c d h k = ground (arith, eq-def d c, lt_trans c u d h k)

module _ ⦃p : Platform⦄ {T : Type 0} where
  open p use {Real, lt, eq}

  abbrev swapped : ContinuousDistribution T → InverseDistribution T
  swapped m = map (λ e. (e.1, e.0)) m

  -- No share is below one that stands before it.
  abbrev pub Rising : ContinuousDistribution T → Type 0
  Rising [] = Unit
  Rising ((v, c) ∷ m) = All (λ e. lt e.1 c ≡ false) m × Rising m

  -- Some share lies above the variate.
  abbrev pub HasAbove : Real → ContinuousDistribution T → Type 0
  HasAbove u [] = ⊥
  HasAbove u ((v, c) ∷ m) = (lt u c ≡ true) ⊎ HasAbove u m

  -- What is not below any entry is inserted at the end.
  insert_entry-end :
      (c : Real) (v : T) (m : InverseDistribution T)
      → All (λ a. lt c a.0 ≡ false) m
      → insert_entry c v m ≡ m ++ ((c, v) ∷ [])
  unfolding insert_entry
  insert_entry-end c v [] h = refl
  insert_entry-end c v ((d, w) ∷ m) (f, h) = rw (f, insert_entry-end c v m h) refl

  -- None of these shares is below a share of the inverse.
  abbrev After : InverseDistribution T → ContinuousDistribution T → Type 0
  After acc [] = Unit
  After acc ((v, c) ∷ m) = All (λ a. lt c a.0 ≡ false) acc × After acc m

  After-snoc :
      (acc : InverseDistribution T) (c : Real) (v : T) (m : ContinuousDistribution T)
      → All (λ e. lt e.1 c ≡ false) m
      → After acc m
      → After (acc ++ ((c, v) ∷ [])) m
  After-snoc acc c v [] h k = tt
  After-snoc acc c v ((w, d) ∷ m) (f, h) (a, k) =
      (All-snoc (λ b. lt d b.0 ≡ false) acc (c, v) a f, After-snoc acc c v m h k)

  After-none : (m : ContinuousDistribution T) → After [] m
  After-none [] = tt
  After-none (e ∷ m) = (tt, After-none m)

  determine_inverse-swapped :
      (m : ContinuousDistribution T) (acc : InverseDistribution T)
      → Rising m
      → After acc m
      → determine_inverse m acc ≡ acc ++ swapped m
  unfolding determine_inverse
  determine_inverse-swapped [] acc r h = sym (append-none acc)
  determine_inverse-swapped ((v, c) ∷ m) acc (up, r) (a, h) =
      ap (determine_inverse m) (insert_entry-end c v acc a)
      ∙ determine_inverse-swapped m (acc ++ ((c, v) ∷ [])) r (After-snoc acc c v m up h)
      ∙ append_assoc acc ((c, v) ∷ []) (swapped m)

  module _ ⦃s : Scalar T⦄ (laws : IsOrdered) where
    lower_bound-between :
        (u : Real) (v : T) (c : Real) (m : ContinuousDistribution T)
        → lt c u ≡ true
        → All (λ e. eq u e.1 ≡ false) m
        → HasAbove u m
        → (lower_bound u (some (c, v)) (swapped m) >>= λ points. ok (on_points u points))
          ≡ ok (between u v c m)
    unfolding lower_bound on_points key_to_value
    lower_bound-between u v c [] low h above = absurd above
    lower_bound-between u v c ((w, d) ∷ m) low (ne, h) above = elim (Bool-cases (lt d u)) [
      | inl t ↦
          let g = lt_asym laws d u t in
          let later : HasAbove u m = elim above [ inl q ↦ absurd (ground arith) | inr k ↦ k ] in
          rw (t, g) (lower_bound-between u w d m t h later)
      | inr f ↦ let up = apart laws u d ne f in rw (f, up, not_equal laws u c d low up) refl
    ]

    lower_bound-first :
        (u : Real) (v : T) (c : Real) (m : ContinuousDistribution T)
        → All (λ e. eq u e.1 ≡ false) ((v, c) ∷ m)
        → HasAbove u ((v, c) ∷ m)
        → (lower_bound u none (swapped ((v, c) ∷ m)) >>= λ points. ok (on_points u points))
          ≡ ok (if lt u c then v else between u v c m)
    unfolding lower_bound on_points
    lower_bound-first u v c m (ne, h) above = elim (Bool-cases (lt c u)) [
      | inl t ↦
          let g = lt_asym laws c u t in
          let later : HasAbove u m = elim above [ inl q ↦ absurd (ground arith) | inr k ↦ k ] in
          rw (t, g) (lower_bound-between u v c m t h later)
      | inr f ↦ rw (f, apart laws u c ne f) refl
    ]

    -- Let the doubles be ordered, the shares of a map not fall, and a variate lie below one of them
    -- and equal none. Then the attribute with a multimap and the one with two arrays, made from the
    -- map, give the same value.
    pub get_value-agrees :
        (m : ContinuousDistribution T) (u : Real)
        → Rising m
        → All (λ e. eq u e.1 ≡ false) m
        → HasAbove u m
        → get_value (construct_from_distribution m) u ≡ Continuous.get_value (Continuous.init m) u
    unfolding get_value construct_from_distribution lower_bound on_points value_to_key
    get_value-agrees [] u r ne above = absurd above
    get_value-agrees ((v, c) ∷ m) u r ne above =
        let swaps = determine_inverse-swapped ((v, c) ∷ m) [] r (After-none ((v, c) ∷ m)) in
        ap (λ l. lower_bound u none l >>= λ points. ok (on_points u points)) swaps
        ∙ lower_bound-first u v c m ne above
        ∙ sym (get_value-inverse laws ((v, c) ∷ m) u)
