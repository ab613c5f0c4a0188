-- ===== src/Manager/Created.antt =====
-- The streams that `createDemandCharacteristics` (trademgen/command/DemandManager.cpp) creates for a
-- demand of the input file.
use Prim.Native.String.{String}
use trademgen.Prelude.{◌≡◌, ◌⊎◌, Bool, true, false, List, [], ◌∷◌}
use trademgen.Platform.{Platform}
use trademgen.Attribute.Categorical
use trademgen.Attribute.Continuous
use trademgen.Attribute.Categorical.{CategoricalAttributeLite}
use trademgen.Demand.{DemandCharacteristics, new_context}
use trademgen.DemandStruct.{DemandStruct}
use trademgen.Stream.{DemandStream, init}
use trademgen.Events.{EventService, AppendsStreams}
use trademgen.Manager.Creation.{
  characteristics_input, stream_key, generate_seed, create_demand_stream,
}

module _ ⦃p : Platform⦄ where
  open p use {Generator, Date, day_of_week, days_from, standard_day_of_week}

  -- The demand travels on the day.
  abbrev is_active : DemandStruct → Date → Bool
  is_active d day = standard_day_of_week d.dow (day_of_week day)

  -- The characteristics are those that the demand says.
  pub record HasCharacteristics (d : DemandStruct) (c : DemandCharacteristics) : Type 0 where
    pub arrival_pattern : c.arrival_pattern ≡ Continuous.init d.dtd_prob_dist
    pub pos : c.pos_probability_mass ≡ Categorical.init d.pos_prob_dist
    pub channel : c.channel_probability_mass ≡ Categorical.init d.channel_prob_dist
    pub trip_type : c.trip_type_probability_mass ≡ Categorical.init d.trip_prob_dist
    pub stay_duration : c.stay_duration_probability_mass ≡ Categorical.init d.stay_prob_dist
    pub frequent_flyer : c.frequent_flyer_probability_mass ≡ Categorical.init d.ff_prob_dist
    pub change_fee :
        (c.change_fee_prob ≡ d.change_fee_prob)
        × (c.change_fee_disutility ≡ d.change_fee_disutility)
    pub non_refundable :
        (c.non_refundable_prob ≡ d.non_refundable_prob)
        × (c.non_refundable_disutility ≡ d.non_refundable_disutility)
    pub departure_time : c.preferred_departure_time ≡ Continuous.init d.pref_dep_time_prob_dist
    pub min_wtp : c.min_wtp ≡ d.min_wtp
    pub value_of_time : c.value_of_time ≡ Continuous.init d.time_value_prob_dist

  -- A new stream of the demand for the day, that generates as the demand says.
  pub record IsStreamFor (d : DemandStruct) (day : Date) (s : DemandStream) : Type 0 where
    pub places : (s.key.origin ≡ d.origin) × (s.key.destination ≡ d.destination)
    pub date : s.key.preferred_departure_date ≡ day
    pub cabin : s.key.preferred_cabin ≡ d.pref_cabin
    pub characteristics_as : HasCharacteristics d s.demand_characteristics
    pub mean : s.demand_distribution.mean_number_of_requests ≡ d.demand_mean
    pub std_dev : s.demand_distribution.std_dev_number_of_requests ≡ d.demand_std_dev
    pub context : s.random_generation_context ≡ new_context
    pub still_having : s.still_having_requests_to_be_generated ≡ true
    pub first : s.first_date_time_request ≡ true

  -- One stream for each active day, in the order of the days.
  abbrev pub Streams : DemandStruct → List Date → List DemandStream → Type 0
  Streams d [] [] = Unit
  Streams d [] (s ∷ ss) = ⊥
  Streams d (day ∷ days) ss =
      ((is_active d day ≡ false) × Streams d days ss)
      ⊎ ((is_active d day ≡ true)
          × ((s : DemandStream) × (rest : List DemandStream) × (ss ≡ s ∷ rest)
              × IsStreamFor d day s
              × Streams d days rest))

  module _ (w : EventService) (laws : AppendsStreams w)
      (default_pos : CategoricalAttributeLite String) where
    open w use {World, add_status}
    open laws use {contents-add_event_generator, contents-add_status}

    -- The stream of a day.
    abbrev new_stream : DemandStruct → Date → World → Generator → DemandStream
    new_stream d day x g =
        let request_seed = generate_seed g in
        let characteristics_seed = generate_seed request_seed.1 in
        (create_demand_stream w x (stream_key d day) (characteristics_input d)
          (record {
            mean_number_of_requests = d.demand_mean;
            std_dev_number_of_requests = d.demand_std_dev;
          })
          characteristics_seed.1 request_seed.0 characteristics_seed.0 default_pos).0
