-- ===== src/Manager/Creation.antt =====
-- The creation of demand streams: `generateSeed`, `createDemandStream` and
-- `createDemandCharacteristics` (trademgen/command/DemandManager.cpp).
use Prim.Native.String.{String}
use trademgen.Prelude.{List, [], ◌∷◌, if◌then◌else◌}
use trademgen.Prelude.Int.{ℤ, pos}
use trademgen.Platform.{Platform}
use trademgen.Attribute.Categorical.{CategoricalAttributeLite}
use trademgen.Demand.{CharacteristicsInput, DemandDistribution, DemandStreamKey, new_context}
use trademgen.DemandStruct.{DemandStruct}
use trademgen.Stream.{DemandStream, set_all}
use trademgen.Events.{EventService, bkg_req}

module _ ⦃p : Platform⦄ where
  open p use {
    Generator, Date, decimal, mul, trunc, uniform, day_of_week, days_from, standard_day_of_week,
  }

  unfoldable pub generate_seed : Generator → ℤ × Generator
  generate_seed shared =
      let drawn = uniform shared in (trunc (mul drawn.0 (decimal (pos 1_000_000_000) 0)), drawn.1)

  -- The arguments that the characteristics of a demand are made from.
  abbrev pub characteristics_input : DemandStruct → CharacteristicsInput
  characteristics_input d = record {
    arrival_pattern = d.dtd_prob_dist;
    pos_prob_mass = d.pos_prob_dist;
    channel_prob_mass = d.channel_prob_dist;
    trip_type_prob_mass = d.trip_prob_dist;
    stay_duration_prob_mass = d.stay_prob_dist;
    frequent_flyer_prob_mass = d.ff_prob_dist;
    change_fee_prob = d.change_fee_prob;
    change_fee_disutility = d.change_fee_disutility;
    non_refundable_prob = d.non_refundable_prob;
    non_refundable_disutility = d.non_refundable_disutility;
    preferred_departure_time = d.pref_dep_time_prob_dist;
    min_wtp = d.min_wtp;
    value_of_time = d.time_value_prob_dist;
  }

  abbrev pub stream_key : DemandStruct → Date → DemandStreamKey
  stream_key d current = record {
    origin = d.origin;
    destination = d.destination;
    preferred_departure_date = current;
    preferred_cabin = d.pref_cabin;
  }

  module _ (w : EventService) where
    open w use {World, fresh, add_event_generator, add_status}

    -- `createDemandStream`; the seeds are drawn before.
    unfoldable pub create_demand_stream :
        World
        → DemandStreamKey
        → CharacteristicsInput
        → DemandDistribution
        → Generator
        → (request_date_time_seed demand_characteristics_seed : ℤ) → CategoricalAttributeLite String
        → DemandStream × World × Generator
    unfolding set_all
    create_demand_stream x key input distribution shared request_date_time_seed
          demand_characteristics_seed default_pos =
        let created = record (fresh x) { key = key; random_generation_context = new_context } in
        let set =
          set_all created input distribution shared request_date_time_seed
            demand_characteristics_seed default_pos in
        (set.0, add_event_generator set.0 x, set.1)

    -- The body of the loop of `createDemandCharacteristics`.
    unfoldable pub create_on_day :
        CategoricalAttributeLite String
        → DemandStruct
        → Date
        → World × Generator
        → World × Generator
    unfolding generate_seed create_demand_stream
    create_on_day default_pos demand current (x, shared) =
        if standard_day_of_week demand.dow (day_of_week current)
        then (let request_date_time_seed = generate_seed shared in
            let demand_characteristics_seed = generate_seed request_date_time_seed.1 in
            let (stream, x', shared') =
              create_demand_stream x (stream_key demand current) (characteristics_input demand)
                (record {
                  mean_number_of_requests = demand.demand_mean;
                  std_dev_number_of_requests = demand.demand_std_dev;
                })
                demand_characteristics_seed.1 request_date_time_seed.0 demand_characteristics_seed.0
                default_pos in
            (add_status bkg_req stream.demand_distribution.mean_number_of_requests x', shared'))
        else (x, shared)

    unfoldable pub create_on_days :
        CategoricalAttributeLite String
        → DemandStruct
        → List Date
        → World × Generator
        → World × Generator
    create_on_days default_pos demand [] state = state
    create_on_days default_pos demand (current ∷ days) state =
        create_on_days default_pos demand days (create_on_day default_pos demand current state)

    unfoldable pub create_demand_characteristics :
        World → Generator → CategoricalAttributeLite String → DemandStruct → World × Generator
    unfolding create_on_days
    create_demand_characteristics x shared default_pos demand =
        create_on_days default_pos demand (days_from demand.date_range.begin demand.date_range.end)
          (x, shared)
