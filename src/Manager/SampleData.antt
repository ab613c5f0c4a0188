-- ===== src/Manager/SampleData.antt =====
-- The distributions of the sample demand: `buildSampleBomStd` and `buildSampleBom`
-- (trademgen/command/DemandManager.cpp).
use Prim.Native.String.{String}
use trademgen.Prelude.{ℕ, Bool, List, [], ◌∷◌}
use trademgen.Prelude.Int.{ℤ, pos, negsuc, lt_ℤ, ◌*ℤ◌}
use trademgen.Platform.{Platform}
use trademgen.Attribute.Categorical.{ProbabilityMassFunction}
use trademgen.Attribute.Continuous.{ContinuousDistribution}
use trademgen.Demand.{CharacteristicsInput}
use trademgen.Parser.Maps.{insert}

-- `std::map::insert` of one entry after the other.
unfoldable pub insert_all :
    {K V : Type 0} → (K → K → Bool) → List (K × V) → List (K × V) → List (K × V)
unfolding insert
insert_all below [] m = m
insert_all below ((k, v) ∷ entries) m = insert_all below entries (insert below k v m).0

module _ ⦃p : Platform⦄ where
  open p use {Real, decimal, of_int, lt, hour_converted_in_seconds}

  -- m / 10 ^ k.
  abbrev pub literal : ℕ → ℕ → Real
  literal m k = decimal (pos m) k

  abbrev pub hour : ℕ → ℤ
  hour n = pos n *ℤ hour_converted_in_seconds

  -- The distributions over numbers. Those with `std` are of `buildSampleBomStd`; both samples have the
  -- same stays and values of time.
  unfoldable pub std_arrival_pattern : ContinuousDistribution Real
  unfolding insert_all
  std_arrival_pattern =
      insert_all lt
        ((of_int (negsuc 329), literal 0 0)
          ∷ (of_int (negsuc 39), literal 2 1)
          ∷ (of_int (negsuc 19), literal 6 1)
          ∷ (of_int (negsuc 0), literal 1 0)
          ∷ [])
        []

  unfoldable pub stay_duration : ProbabilityMassFunction ℤ
  unfolding insert_all
  stay_duration =
      insert_all lt_ℤ
        ((pos 0, literal 1 1)
          ∷ (pos 1, literal 1 1)
          ∷ (pos 2, literal 15 2)
          ∷ (pos 3, literal 15 2)
          ∷ (pos 4, literal 15 2)
          ∷ (pos 5, literal 35 2)
          ∷ [])
        []

  unfoldable pub std_departure_time : ContinuousDistribution ℤ
  unfolding insert_all
  std_departure_time =
      insert_all lt_ℤ
        ((hour 6, literal 0 0)
          ∷ (hour 7, literal 1 1)
          ∷ (hour 9, literal 3 1)
          ∷ (hour 17, literal 4 1)
          ∷ (hour 19, literal 80 2)
          ∷ (hour 20, literal 95 2)
          ∷ (hour 22, literal 1 0)
          ∷ [])
        []

  unfoldable pub time_value : ContinuousDistribution Real
  unfolding insert_all
  time_value =
      insert_all lt ((of_int (pos 15), literal 0 0) ∷ (of_int (pos 60), literal 1 0) ∷ []) []

  unfoldable pub arrival_pattern : ContinuousDistribution Real
  unfolding insert_all
  arrival_pattern =
      insert_all lt
        ((of_int (negsuc 329), literal 0 0)
          ∷ (of_int (negsuc 149), literal 1 1)
          ∷ (of_int (negsuc 91), literal 2 1)
          ∷ (of_int (negsuc 54), literal 3 1)
          ∷ (of_int (negsuc 33), literal 4 1)
          ∷ (of_int (negsuc 20), literal 5 1)
          ∷ (of_int (negsuc 11), literal 6 1)
          ∷ (of_int (negsuc 5), literal 7 1)
          ∷ (of_int (negsuc 2), literal 8 1)
          ∷ (of_int (negsuc 0), literal 9 1)
          ∷ (of_int (pos 0), literal 10 1)
          ∷ [])
        []

  unfoldable pub sin_departure_time : ContinuousDistribution ℤ
  unfolding insert_all
  sin_departure_time =
      insert_all lt_ℤ
        ((hour 6, literal 0 0)
          ∷ (hour 8, literal 7 1)
          ∷ (hour 10, literal 8 1)
          ∷ (hour 12, literal 9 1)
          ∷ (hour 14, literal 10 1)
          ∷ [])
        []

  unfoldable pub bkk_departure_time : ContinuousDistribution ℤ
  unfolding insert_all
  bkk_departure_time =
      insert_all lt_ℤ
        ((hour 8, literal 0 0)
          ∷ (hour 10, literal 2 1)
          ∷ (hour 1, literal 6 1)
          ∷ (hour 14, literal 8 1)
          ∷ (hour 16, literal 10 1)
          ∷ [])
        []

  module _ (text_lt : String → String → Bool) where
    unfoldable pub std_pos : ProbabilityMassFunction String
    unfolding insert_all
    std_pos = insert_all text_lt (("BKK", literal 3 1) ∷ ("SIN", literal 7 1) ∷ []) []

    unfoldable pub std_channel : ProbabilityMassFunction String
    unfolding insert_all
    std_channel =
        insert_all text_lt
          (("DF", literal 1 1)
            ∷ ("DN", literal 3 1)
            ∷ ("IF", literal 4 1)
            ∷ ("IN", literal 2 1)
            ∷ [])
          []

    unfoldable pub std_trip_type : ProbabilityMassFunction String
    unfolding insert_all
    std_trip_type =
        insert_all text_lt (("RO", literal 6 1) ∷ ("RI", literal 2 1) ∷ ("OW", literal 2 1) ∷ []) []

    unfoldable pub std_frequent_flyer : ProbabilityMassFunction String
    unfolding insert_all
    std_frequent_flyer =
        insert_all text_lt
          (("P", literal 1 2)
            ∷ ("G", literal 5 2)
            ∷ ("S", literal 15 2)
            ∷ ("M", literal 3 1)
            ∷ ("N", literal 49 2)
            ∷ [])
          []

    unfoldable pub channel : ProbabilityMassFunction String
    unfolding insert_all
    channel =
        insert_all text_lt
          (("DF", literal 0 1)
            ∷ ("DN", literal 0 1)
            ∷ ("IF", literal 0 1)
            ∷ ("IN", literal 10 1)
            ∷ [])
          []

    unfoldable pub trip_type : ProbabilityMassFunction String
    unfolding insert_all
    trip_type =
        insert_all text_lt (("RO", literal 0 1) ∷ ("RI", literal 0 1) ∷ ("OW", literal 10 1) ∷ [])
          []

    unfoldable pub frequent_flyer : ProbabilityMassFunction String
    unfolding insert_all
    frequent_flyer =
        insert_all text_lt
          (("P", literal 1 1)
            ∷ ("G", literal 1 2)
            ∷ ("S", literal 9 2)
            ∷ ("M", literal 4 1)
            ∷ ("N", literal 4 1)
            ∷ [])
          []

    -- All the requests come from the first point of sale.
    unfoldable pub pos_of : String → String → ProbabilityMassFunction String
    unfolding insert_all
    pos_of home other = insert_all text_lt ((home, literal 10 1) ∷ (other, literal 0 1) ∷ []) []

    -- The arguments for the characteristics of the standard sample, and of a stream of the other.
    unfoldable pub std_input : CharacteristicsInput
    unfolding std_arrival_pattern std_pos std_channel std_trip_type stay_duration std_frequent_flyer
        std_departure_time time_value
    std_input = record {
      arrival_pattern = std_arrival_pattern;
      pos_prob_mass = std_pos;
      channel_prob_mass = std_channel;
      trip_type_prob_mass = std_trip_type;
      stay_duration_prob_mass = stay_duration;
      frequent_flyer_prob_mass = std_frequent_flyer;
      change_fee_prob = literal 5 1;
      change_fee_disutility = of_int (pos 50);
      non_refundable_prob = literal 5 1;
      non_refundable_disutility = of_int (pos 50);
      preferred_departure_time = std_departure_time;
      min_wtp = literal 10_000 1;
      value_of_time = time_value;
    }

    unfoldable pub sample_input :
        ProbabilityMassFunction String → ContinuousDistribution ℤ → Real → CharacteristicsInput
    unfolding arrival_pattern channel trip_type stay_duration frequent_flyer time_value
    sample_input pos_mass departure_time wtp = record {
      arrival_pattern = arrival_pattern;
      pos_prob_mass = pos_mass;
      channel_prob_mass = channel;
      trip_type_prob_mass = trip_type;
      stay_duration_prob_mass = stay_duration;
      frequent_flyer_prob_mass = frequent_flyer;
      change_fee_prob = literal 5 1;
      change_fee_disutility = of_int (pos 50);
      non_refundable_prob = literal 5 1;
      non_refundable_disutility = of_int (pos 50);
      preferred_departure_time = departure_time;
      min_wtp = wtp;
      value_of_time = time_value;
    }
