-- ===== src/Attribute/Categorical.antt =====
-- CategoricalAttributeLite (trademgen/basic/CategoricalAttributeLite.hpp): a value drawn by its
-- probability mass. A `std::map` is the list of its entries in the order of their keys; an `_size`
-- is a number of array elements, so it fits its machine word.
pub mod Draw
pub mod Check
use trademgen.Prelude.{
  ℕ, Bool, true, false, List, [], ◌∷◌, ◌++◌, if◌then◌else◌, length, index_out_of_range, Result, ok,
  err,
}
use trademgen.Prelude.Int.{pos}
use trademgen.Platform.{Platform}
use trademgen.Attribute.Scan.{at, scan}
use trademgen.Attribute.Dictionary.{value_to_key}

module _ ⦃p : Platform⦄ where
  open p use {Real, add, le, lt, decimal}

  -- `ProbabilityMassFunction_T`.
  abbrev pub ProbabilityMassFunction : Type 0 → Type 0
  ProbabilityMassFunction T = List (T × Real)

  pub record CategoricalAttributeLite (T : Type 0) : Type 0 where
    pub size : ℕ
    pub cumulative_distribution : List Real
    pub value_array : List T

  -- The two arrays and `cumulative_probability_so_far` during `init`.
  pub record Filling (T : Type 0) : Type 0 where
    pub so_far : Real
    pub cumulative : List Real
    pub values : List T

  -- One round of the loop of `init`.
  pub add_entry : {T : Type 0} → Filling T → T × Real → Filling T
  unfolding value_to_key
  add_entry s (value, mass) =
      if lt (decimal (pos 0) 0) mass
      then record {
        so_far = add s.so_far mass;
        cumulative = s.cumulative ++ (value_to_key (add s.so_far mass) ∷ []);
        values = s.values ++ (value ∷ []);
      }
      else s

  pub fill : {T : Type 0} → Filling T → ProbabilityMassFunction T → Filling T
  unfolding add_entry
  fill s [] = s
  fill s (e ∷ es) = fill (add_entry s e) es

  -- The constructor from a map, with its `init`.
  unfoldable pub init : {T : Type 0} → ProbabilityMassFunction T → CategoricalAttributeLite T
  unfolding fill
  init m =
      let s = fill (record { so_far = decimal (pos 0) 0; cumulative = []; values = [] }) m in
      record {
        size = length s.values;
        cumulative_distribution = s.cumulative;
        value_array = s.values;
      }

  -- The default constructor.
  unfoldable pub default_attribute : {T : Type 0} → CategoricalAttributeLite T
  default_attribute = record { size = 1; cumulative_distribution = []; value_array = [] }

  unfoldable pub get_value : {T : Type 0} → CategoricalAttributeLite T → Real → Result T
  unfolding scan value_to_key
  get_value a cumulative_probability =
      scan (λ c. le (value_to_key cumulative_probability) c) (at a.value_array)
        (λ _. err index_out_of_range) a.cumulative_distribution a.size 0

  -- The test `==` of the values is an argument.
  unfoldable pub check_value :
      {T : Type 0} → (T → T → Bool) → CategoricalAttributeLite T → T → Result Bool
  unfolding scan
  check_value same a value =
      scan (λ v. same v value) (λ _. ok true) (λ _. ok false) a.value_array a.size 0
