-- ===== src/Demand.antt =====
-- What a demand stream is described by: DemandCharacteristics, DemandDistribution,
-- RandomGenerationContext, BasConst (trademgen/basic) and DemandStreamKey (trademgen/bom).
use Prim.Native.String.{String, ◌++◌ as str_append}
use text.Mathlib.Text.{◌==◌ as str_eq}
use trademgen.Prelude.{ℕ, Bool, suc, [], ◌∷◌, Result}
use trademgen.Prelude.Int.{ℤ, pos, negsuc}
use trademgen.Platform.{Platform}
use trademgen.Attribute.Categorical
use trademgen.Attribute.Categorical.{CategoricalAttributeLite, ProbabilityMassFunction}
use trademgen.Attribute.Continuous
use trademgen.Attribute.Continuous.{ContinuousAttributeLite, ContinuousDistribution}

module _ ⦃p : Platform⦄ where
  open p use {Real, Date, decimal, of_int, date_string}

  -- `DEFAULT_POS_PROBALILITY_MASS`.
  unfoldable pub create_pos_prob_mass : ProbabilityMassFunction String
  create_pos_prob_mass = ("row", decimal (pos 1) 0) ∷ []

  -- `DEFAULT_LAST_LOWER_BOUND_ARRIVAL_PATTERN`: the integer -1 as a `double`.
  abbrev pub default_last_lower_bound_arrival_pattern : Real
  default_last_lower_bound_arrival_pattern = of_int (negsuc 0)

  -- `DEFAULT_FRAT5_PATTERN`, in the order of its keys.
  unfoldable pub create_frat5_pattern : ContinuousDistribution Real
  create_frat5_pattern =
      (decimal (pos 110) 2, of_int (negsuc 364))
      ∷ (decimal (pos 120) 2, of_int (negsuc 62))
      ∷ (decimal (pos 130) 2, of_int (negsuc 48))
      ∷ (decimal (pos 140) 2, of_int (negsuc 34))
      ∷ (decimal (pos 170) 2, of_int (negsuc 22))
      ∷ (decimal (pos 200) 2, of_int (negsuc 15))
      ∷ (decimal (pos 230) 2, of_int (negsuc 9))
      ∷ (decimal (pos 244) 2, of_int (negsuc 4))
      ∷ (decimal (pos 250) 2, of_int (negsuc 0))
      ∷ (decimal (pos 2_500_000_001) 9, of_int (pos 0))
      ∷ []

  -- The values that a DemandCharacteristics is built from.
  pub record CharacteristicsInput : Type 0 where
    pub arrival_pattern : ContinuousDistribution Real
    pub pos_prob_mass : ProbabilityMassFunction String
    pub channel_prob_mass : ProbabilityMassFunction String
    pub trip_type_prob_mass : ProbabilityMassFunction String
    pub stay_duration_prob_mass : ProbabilityMassFunction ℤ
    pub frequent_flyer_prob_mass : ProbabilityMassFunction String
    pub change_fee_prob : Real
    pub change_fee_disutility : Real
    pub non_refundable_prob : Real
    pub non_refundable_disutility : Real
    pub preferred_departure_time : ContinuousDistribution ℤ
    pub min_wtp : Real
    pub value_of_time : ContinuousDistribution Real

  pub record DemandCharacteristics : Type 0 where
    pub arrival_pattern : ContinuousAttributeLite Real
    pub pos_probability_mass : CategoricalAttributeLite String
    pub channel_probability_mass : CategoricalAttributeLite String
    pub trip_type_probability_mass : CategoricalAttributeLite String
    pub stay_duration_probability_mass : CategoricalAttributeLite ℤ
    pub frequent_flyer_probability_mass : CategoricalAttributeLite String
    pub change_fee_prob : Real
    pub change_fee_disutility : Real
    pub non_refundable_prob : Real
    pub non_refundable_disutility : Real
    pub preferred_departure_time : ContinuousAttributeLite ℤ
    pub min_wtp : Real
    pub frat5_pattern : ContinuousAttributeLite Real
    pub value_of_time : ContinuousAttributeLite Real

  -- The main constructor.
  unfoldable pub characteristics : CharacteristicsInput → DemandCharacteristics
  characteristics i = record {
    arrival_pattern = Continuous.init i.arrival_pattern;
    pos_probability_mass = Categorical.init i.pos_prob_mass;
    channel_probability_mass = Categorical.init i.channel_prob_mass;
    trip_type_probability_mass = Categorical.init i.trip_type_prob_mass;
    stay_duration_probability_mass = Categorical.init i.stay_duration_prob_mass;
    frequent_flyer_probability_mass = Categorical.init i.frequent_flyer_prob_mass;
    change_fee_prob = i.change_fee_prob;
    change_fee_disutility = i.change_fee_disutility;
    non_refundable_prob = i.non_refundable_prob;
    non_refundable_disutility = i.non_refundable_disutility;
    preferred_departure_time = Continuous.init i.preferred_departure_time;
    min_wtp = i.min_wtp;
    frat5_pattern = Continuous.init create_frat5_pattern;
    value_of_time = Continuous.init i.value_of_time;
  }

  -- The default constructor: empty maps, and fees at one half.
  unfoldable default_characteristics : DemandCharacteristics
  default_characteristics = record {
    arrival_pattern = Continuous.init [];
    pos_probability_mass = Categorical.init [];
    channel_probability_mass = Categorical.init [];
    trip_type_probability_mass = Categorical.init [];
    stay_duration_probability_mass = Categorical.init [];
    frequent_flyer_probability_mass = Categorical.init [];
    change_fee_prob = decimal (pos 5) 1;
    change_fee_disutility = decimal (pos 0) 0;
    non_refundable_prob = decimal (pos 5) 1;
    non_refundable_disutility = decimal (pos 0) 0;
    preferred_departure_time = Continuous.init [];
    min_wtp = decimal (pos 0) 0;
    frat5_pattern = Continuous.init create_frat5_pattern;
    value_of_time = Continuous.init [];
  }

  unfoldable pub get_pos_value : DemandCharacteristics → Real → Result String
  get_pos_value c u = Categorical.get_value c.pos_probability_mass u

  -- `checkPOSValue`.
  unfoldable pub check_pos_value : DemandCharacteristics → String → Result Bool
  check_pos_value c point = Categorical.check_value str_eq c.pos_probability_mass point

  pub record DemandDistribution : Type 0 where
    pub mean_number_of_requests : Real
    pub std_dev_number_of_requests : Real

  pub record RandomGenerationContext : Type 0 where
    pub number_of_requests_generated_so_far : ℕ
    pub cumulative_probability_so_far : Real

  -- The default constructor.
  unfoldable pub new_context : RandomGenerationContext
  new_context = record {
    number_of_requests_generated_so_far = 0;
    cumulative_probability_so_far = decimal (pos 0) 0;
  }

  unfoldable pub increment_generated_requests_counter :
      RandomGenerationContext → RandomGenerationContext
  increment_generated_requests_counter c = record c {
    number_of_requests_generated_so_far = suc c.number_of_requests_generated_so_far;
  }

  -- `RandomGenerationContext::reset`.
  unfoldable pub reset_context : RandomGenerationContext → RandomGenerationContext
  reset_context c = record c {
    cumulative_probability_so_far = decimal (pos 0) 0;
    number_of_requests_generated_so_far = 0;
  }

  pub record DemandStreamKey : Type 0 where
    pub origin : String
    pub destination : String
    pub preferred_departure_date : Date
    pub preferred_cabin : String

  -- `DemandStreamKey::toString`.
  unfoldable pub key_string : DemandStreamKey → String
  key_string k = str_append k.origin (
      str_append "-" (
        str_append k.destination (
          str_append " " (
            str_append (date_string k.preferred_departure_date)
              (str_append " " k.preferred_cabin)))))
