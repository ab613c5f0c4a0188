-- ===== src/Display.antt =====
-- The texts that the attributes and the demand write of themselves: `displayProbabilityMass` and
-- `displayCumulativeDistribution` (trademgen/basic/CategoricalAttributeLite.hpp and
-- ContinuousAttributeLite.hpp), and `describe` and `display` of the classes that hold them.
-- `Display.Csv` has BomDisplay, `Display.Struct` the description of a demand of the input file.

pub mod Attributes
pub mod Csv
pub mod Struct
use Prim.Native.String.{String, ◌++◌ as str_append}
use trademgen.Prelude.{
  ℕ, zero, suc, List, [], ◌∷◌, ◌==◌, if◌then◌else◌, get_elem?, Fault, out_of_range,
  undefined_behaviour, Result, ok, ◌>>=◌, or_fault,
}
use trademgen.Prelude.Int.{ℤ}
use trademgen.Platform.{Platform}
use trademgen.Attribute.Scan.{at}
use trademgen.Attribute.Dictionary.{key_to_value}
use trademgen.Attribute.Categorical.{CategoricalAttributeLite}
use trademgen.Attribute.Continuous.{ContinuousAttributeLite}
use trademgen.Demand.{
  DemandCharacteristics, DemandDistribution, RandomGenerationContext, key_string,
}
use trademgen.Stream.{DemandStream}

module _ ⦃p : Platform⦄ where
  open p use {Real, Generator, Date, DowStruct}

  -- What `operator<<` of the libraries writes.
  pub record Printer : Type 0 where
    pub real : Real → String
    pub integer : ℤ → String
    pub natural : ℕ → String
    pub generator : Generator → String
    -- A `date_period`, from its begin up to, not including, its end.
    pub date_period : Date → Date → String
    pub dow : DowStruct → String

  -- A value and its probability.
  abbrev pub entry_text : Printer → {T : Type 0} → (T → String) → T → Real → String
  entry_text out show v c = str_append (show v) (str_append ":" (out.real c))

  abbrev pub separator : ℕ → String
  separator i = if i == 0 then "" else ", "

  -- The loop over the arrays: the rounds left and the index. `operator[]` reads the probability of a
  -- categorical attribute, `at` that of a continuous one; they differ out of range.
  pub entries_from :
      Printer
      → {T : Type 0} → (T → String)
      → Fault
      → List T
      → List Real
      → (rounds idx : ℕ) → Result String
  unfolding key_to_value
  entries_from out show beyond values probabilities zero idx = ok ""
  entries_from out show beyond values probabilities (suc rounds) idx = do
    v ← at values idx
    c ← or_fault beyond (get_elem? probabilities idx)
    rest ← entries_from out show beyond values probabilities rounds (suc idx)
    ok (str_append (separator idx) (str_append (entry_text out show v (key_to_value c)) rest))

  unfoldable pub display_probability_mass :
      Printer → {T : Type 0} → (T → String) → CategoricalAttributeLite T → Result String
  unfolding entries_from
  display_probability_mass out show a =
      entries_from out show undefined_behaviour a.value_array a.cumulative_distribution a.size 0

  unfoldable pub display_cumulative_distribution :
      Printer → {T : Type 0} → (T → String) → ContinuousAttributeLite T → Result String
  unfolding entries_from
  display_cumulative_distribution out show a =
      entries_from out show out_of_range a.value_array a.cumulative_distribution a.size 0

  -- What is written piece by piece.
  abbrev pub concat : List String → String
  concat [] = ""
  concat (t ∷ ts) = str_append t (concat ts)

  abbrev pub line : String → String → String
  line label text = str_append label (str_append text "\n")

  abbrev pub text_of : String → String
  text_of s = s

  -- The lines of `DemandCharacteristics::describe`, from the texts of the distributions.
  unfoldable pub characteristics_text :
      Printer
      → DemandCharacteristics
      → (arrival pos channel trip stay flyer time value : String) → String
  characteristics_text out c arrival pos channel trip stay flyer time value = concat (
      "****************** Demand characteristics ******************\n"
      ∷ line "Arrival pattern (days from departure, proportion): " arrival
      ∷ line "POS probability mass (POS, propotion): " pos
      ∷ line "Channel probability mass (channel, propotion): " channel
      ∷ line "Trip type probability mass (trip type, propotion): " trip
      ∷ line "Stay duration probability mass (number of days, propotion): " stay
      ∷ line "Frequent flyer probability mass (frequent flyer, propotion): " flyer
      ∷ line "Change fee acceptation probability: " (out.real c.change_fee_prob)
      ∷ line "Change fee disutility: " (out.real c.change_fee_disutility)
      ∷ line "Non refundable acceptation probability: " (out.real c.non_refundable_prob)
      ∷ line "Non refundable disutility: " (out.real c.non_refundable_disutility)
      ∷ line "Preferred departure time cumulative distribution (time, proportion: " time
      ∷ line "min WTP: " (out.real c.min_wtp)
      ∷ line "Value of time cumulative distribution (value of time, proportion: " value
      ∷ [])

  -- `DemandCharacteristics::describe`.
  unfoldable pub describe_characteristics : Printer → DemandCharacteristics → Result String
  unfolding display_probability_mass display_cumulative_distribution characteristics_text
  describe_characteristics out c = do
    arrival ← display_cumulative_distribution out out.real c.arrival_pattern
    pos ← display_probability_mass out text_of c.pos_probability_mass
    channel ← display_probability_mass out text_of c.channel_probability_mass
    trip ← display_probability_mass out text_of c.trip_type_probability_mass
    stay ← display_probability_mass out out.integer c.stay_duration_probability_mass
    flyer ← display_probability_mass out text_of c.frequent_flyer_probability_mass
    time ← display_cumulative_distribution out out.integer c.preferred_departure_time
    value ← display_cumulative_distribution out out.real c.value_of_time
    ok (characteristics_text out c arrival pos channel trip stay flyer time value)

  -- `DemandDistribution::describe` and `display`.
  unfoldable pub describe_distribution : Printer → DemandDistribution → String
  describe_distribution out d = concat (
      "N ("
      ∷ out.real d.mean_number_of_requests
      ∷ ", "
      ∷ out.real d.std_dev_number_of_requests
      ∷ ")"
      ∷ [])

  unfoldable pub display_distribution : Printer → DemandDistribution → String
  unfolding describe_distribution
  display_distribution out d = str_append (describe_distribution out d) "\n"

  -- `RandomGenerationContext::describe`, which StdAir's `operator<<` of a structure writes.
  unfoldable pub describe_context : Printer → RandomGenerationContext → String
  describe_context out c = concat (
      out.natural c.number_of_requests_generated_so_far
      ∷ " => "
      ∷ out.real c.cumulative_probability_so_far
      ∷ [])

  -- The lines of `DemandStream::display`, from the texts of the two attributes.
  unfoldable pub stream_text : Printer → DemandStream → (characteristics pos : String) → String
  unfolding describe_distribution describe_context
  stream_text out s characteristics pos = concat (
      line "Demand stream key: " (key_string s.key)
      ∷ characteristics
      ∷ describe_distribution out s.demand_distribution
      ∷ " => "
      ∷ out.integer s.total_number_of_requests_to_be_generated
      ∷ " to be generated\n"
      ∷ line "Random generation context: " (describe_context out s.random_generation_context)
      ∷ line "Random generator for date-time: " (out.generator s.request_date_time_random_generator)
      ∷ line "Random generator for demand characteristics: "
          (out.generator s.demand_characteristics_random_generator)
      ∷ line "" pos
      ∷ [])

  -- `DemandStream::display`.
  unfoldable pub display_stream : Printer → DemandStream → Result String
  unfolding describe_characteristics stream_text display_probability_mass
  display_stream out s = do
    characteristics ← describe_characteristics out s.demand_characteristics
    pos ← display_probability_mass out text_of s.pos_pro_mass
    ok (stream_text out s characteristics pos)
