-- ===== src/Display/Attributes.antt =====
-- What the two attributes write of themselves, in terms of the maps that they were built from
-- (trademgen/basic/CategoricalAttributeLite.hpp and ContinuousAttributeLite.hpp).
use Prim.Native.String.{String, ◌++◌ as str_append}
use text.Mathlib.TextLemmas.{nil-append as str_nil-append}
use trademgen.Prelude.{
  ℕ, suc, ◌+◌, ◌≡◌, refl, sym, ap, ◌∙◌, inl, inr, false, some, List, [], ◌∷◌, map, arith, ◌==◌,
  if◌then◌else◌, Bool-cases, length, get_elem?, length-map, Fault, out_of_range,
  undefined_behaviour, ok,
}
use trademgen.Platform.{Platform}
use trademgen.Attribute.Categorical
use trademgen.Attribute.Categorical.{ProbabilityMassFunction, Filling, fill}
use trademgen.Attribute.Categorical.Draw.{zero_mass, kept, sums, fill-values, fill-cumulative}
use trademgen.Attribute.Continuous
use trademgen.Attribute.Dictionary.{value_to_key, key_to_value}
use trademgen.Attribute.Continuous.{ContinuousDistribution}
use trademgen.Display.{
  Printer, entry_text, entries_from, display_probability_mass, display_cumulative_distribution,
}

module _ ⦃p : Platform⦄ where
  open p use {Real, add, lt}

  -- The entries that follow another one, and all entries.
  abbrev pub tail_text : Printer → {T : Type 0} → (T → String) → List (T × Real) → String
  tail_text out show [] = ""
  tail_text out show ((v, c) ∷ es) =
      str_append ", " (str_append (entry_text out show v c) (tail_text out show es))

  abbrev pub entries_text : Printer → {T : Type 0} → (T → String) → List (T × Real) → String
  entries_text out show [] = ""
  entries_text out show ((v, c) ∷ es) = str_append (entry_text out show v c) (tail_text out show es)

  -- The values with a positive mass, each with the sum of those masses up to it.
  abbrev pub cumulated : {T : Type 0} → Real → ProbabilityMassFunction T → List (T × Real)
  cumulated acc [] = []
  cumulated acc ((v, m) ∷ es) =
      let rest = cumulated (if lt zero_mass m then add acc m else acc) es in
      if lt zero_mass m then (v, add acc m) ∷ rest else rest

  module _ (out : Printer) {T : Type 0} (show : T → String) (beyond : Fault) (values : List T)
      (probabilities : List Real) where
    entries_from-tail :
        (es : List (T × Real)) (i : ℕ)
        → ((j : ℕ) → get_elem? values (suc i + j) ≡ get_elem? (map (λ e. e.0) es) j)
        → ((j : ℕ) → get_elem? probabilities (suc i + j) ≡ get_elem? (map (λ e. e.1) es) j)
        → entries_from out show beyond values probabilities (length es) (suc i)
          ≡ ok (tail_text out show es)
    unfolding entries_from key_to_value
    entries_from-tail [] i hv hc = refl
    entries_from-tail ((v, c) ∷ es) i hv hc =
        let here : suc i + 0 ≡ suc i = omega arith in
        let value : get_elem? values (suc i) ≡ some v = ap (get_elem? values) (sym here) ∙ hv 0 in
        let probability : get_elem? probabilities (suc i) ≡ some c =
          ap (get_elem? probabilities) (sym here) ∙ hc 0 in
        let rest =
          entries_from-tail es (suc i) (λ j. ap (get_elem? values) (omega arith) ∙ hv (suc j))
            (λ j. ap (get_elem? probabilities) (omega arith) ∙ hc (suc j)) in
        let apart : (suc i == 0) ≡ false = ground arith in rw (value, probability, rest, apart) refl

    entries_from-text :
        (es : List (T × Real))
        → values ≡ map (λ e. e.0) es
        → probabilities ≡ map (λ e. e.1) es
        → entries_from out show beyond values probabilities (length es) 0
          ≡ ok (entries_text out show es)
    unfolding entries_from key_to_value
    entries_from-text [] hv hc = refl
    entries_from-text ((v, c) ∷ es) hv hc =
        let value : get_elem? values 0 ≡ some v = ap (λ xs. get_elem? xs 0) hv in
        let probability : get_elem? probabilities 0 ≡ some c = ap (λ xs. get_elem? xs 0) hc in
        let next : (j : ℕ) → 1 + j ≡ suc j = λ j. omega arith in
        let rest =
          entries_from-tail es 0
            (λ j. ap (get_elem? values) (next j) ∙ ap (λ xs. get_elem? xs (suc j)) hv)
            (λ j. ap (get_elem? probabilities) (next j) ∙ ap (λ xs. get_elem? xs (suc j)) hc) in
        rw (value, probability, rest) (ap ok (str_nil-append _))

  module _ {T : Type 0} where
    cumulated-values :
        (acc : Real) (m : ProbabilityMassFunction T) → map (λ e. e.0) (cumulated acc m) ≡ kept m
    cumulated-values acc [] = refl
    cumulated-values acc ((v, m) ∷ es) = elim (Bool-cases (lt zero_mass m)) [
      | inl t ↦ rw t (ap (λ vs. v ∷ vs) (cumulated-values (add acc m) es))
      | inr f ↦ rw f (cumulated-values acc es)
    ]

    cumulated-sums :
        (acc : Real) (m : ProbabilityMassFunction T) → map (λ e. e.1) (cumulated acc m) ≡ sums acc m
    cumulated-sums acc [] = refl
    cumulated-sums acc ((v, m) ∷ es) = elim (Bool-cases (lt zero_mass m)) [
      | inl t ↦ rw t (ap (λ cs. add acc m ∷ cs) (cumulated-sums (add acc m) es))
      | inr f ↦ rw f (cumulated-sums acc es)
    ]

    module _ (out : Printer) (show : T → String) where
      -- `displayProbabilityMass` of an attribute built from a map never throws, and writes each
      -- value with a positive mass, in the order of the map, with the sum of the positive masses
      -- up to it in place of its own.
      pub display_probability_mass-init :
          (m : ProbabilityMassFunction T)
          → display_probability_mass out show (Categorical.init m)
            ≡ ok (entries_text out show (cumulated zero_mass m))
      unfolding display_probability_mass Categorical.init
      display_probability_mass-init m =
          let s : Filling T =
            fill (record { so_far = zero_mass; cumulative = []; values = [] }) m in
          let values : s.values ≡ map (λ e. e.0) (cumulated zero_mass m) =
            fill-values _ m ∙ sym (cumulated-values zero_mass m) in
          let sums_so_far : s.cumulative ≡ map (λ e. e.1) (cumulated zero_mass m) =
            fill-cumulative _ m ∙ sym (cumulated-sums zero_mass m) in
          let size : length s.values ≡ length (cumulated zero_mass m) =
            ap length values ∙ length-map (λ e. e.0) (cumulated zero_mass m) in
          rw size (
            entries_from-text out show undefined_behaviour s.values s.cumulative
              (cumulated zero_mass m) values sums_so_far)

      -- The cumulative distribution of an attribute built from a map is that of the map.
      pub display_cumulative_distribution-init :
          (m : ContinuousDistribution T)
          → display_cumulative_distribution out show (Continuous.init m)
            ≡ ok (entries_text out show m)
      unfolding display_cumulative_distribution Continuous.init value_to_key
      display_cumulative_distribution-init m =
          entries_from-text out show out_of_range (map (λ e. e.0) m) (map (λ e. e.1) m) m refl refl
