-- ===== src/Parser.antt =====
-- The semantic actions of the demand parser (trademgen/command/DemandParserHelper.cpp): each
-- functor is a constructor of Action with the value that the grammar hands it, and `perform` is its
-- operator(); `assign` is Spirit's assign_a on a staging field. The grammar calls them on one staging
-- DemandStruct.
pub mod Maps
pub mod Demands
pub mod Generation
pub mod Line
pub mod Pairs
pub mod Reading
pub mod Meaning
pub mod Loading
pub mod Files
pub mod Created
use Prim.Native.String.{String}
use trademgen.Prelude.{
  ℕ, Bool, List, [], if◌then◌else◌, code_duplication, Result, ok, err, ◌>>=◌, ◌>>◌,
}
use trademgen.Prelude.Int.{ℤ, pos, negsuc, lt_ℤ, ◌-ℤ◌}
use trademgen.Platform.{Platform}
use trademgen.Attribute.Categorical.{CategoricalAttributeLite}
use trademgen.DemandStruct.{DemandStruct, get_date, get_time}
use trademgen.Events.{EventService}
use trademgen.Manager.Creation.{create_demand_characteristics}
use trademgen.Parser.Maps.{insert}

module _ ⦃p : Platform⦄ where
  open p use {trunc, Real, Generator, decimal, of_int, sub, lt, next_day, dow_struct, total_seconds}

  pub data Action : Type 0 where
    assign_year : ℕ → Action
    assign_month : ℕ → Action
    assign_day : ℕ → Action
    assign_hours : ℤ → Action
    assign_minutes : ℤ → Action
    assign_seconds : ℤ → Action
    store_pref_dep_date_range_start : Action
    store_pref_dep_date_range_end : Action
    store_dow : String → Action
    store_origin : String → Action
    store_destination : String → Action
    store_pref_cabin : String → Action
    store_demand_mean : Real → Action
    store_demand_std_dev : Real → Action
    store_demand_change_fee_prob : Real → Action
    store_demand_change_fee_disutility : Real → Action
    store_demand_non_refundable_prob : Real → Action
    store_demand_non_refundable_disutility : Real → Action
    store_pos_code : String → Action
    store_pos_prob_mass : Real → Action
    store_channel_code : String → Action
    store_channel_prob_mass : Real → Action
    store_trip_code : String → Action
    store_trip_prob_mass : Real → Action
    store_stay_code : ℕ → Action
    store_stay_prob_mass : Real → Action
    store_ff_code : String → Action
    store_ff_prob_mass : Real → Action
    store_pref_dep_time : Action
    store_pref_dep_time_prob_mass : Real → Action
    store_wtp : Real → Action
    store_time_value : Real → Action
    store_time_value_prob_mass : Real → Action
    store_dtd : Real → Action
    store_dtd_prob_mass : Real → Action

  -- An insertion that must be of a new key.
  unfoldable pub insert_new :
      {K : Type 0} → (K → K → Bool) → K → Real → List (K × Real) → Result (List (K × Real))
  insert_new below k mass m =
      let inserted = insert below k mass m in
      if inserted.1 then ok inserted.0 else err code_duplication

  -- The order of `std::string` is an argument.
  module _ (text_lt : String → String → Bool) where
    unfoldable pub perform : Action → DemandStruct → Result DemandStruct
    unfolding insert_new get_date get_time ◌-ℤ◌
    perform (assign_year n) d = ok (record d { it_year = n })
    perform (assign_month n) d = ok (record d { it_month = n })
    perform (assign_day n) d = ok (record d { it_day = n })
    perform (assign_hours n) d = ok (record d { it_hours = n })
    perform (assign_minutes n) d = ok (record d { it_minutes = n })
    perform (assign_seconds n) d = ok (record d { it_seconds = n })
    perform store_pref_dep_date_range_start d = do
      start ← get_date d
      ok (record d { pref_dep_date_start = start; it_seconds = pos 0 })
    perform store_pref_dep_date_range_end d = do
      last ← get_date d
      ok (record d {
        pref_dep_date_end = next_day last;
        date_range = record { begin = d.pref_dep_date_start; end = next_day last };
        it_seconds = pos 0;
      })
    perform (store_dow text) d = ok (record d { dow = dow_struct text })
    perform (store_origin text) d = ok (record d { origin = text })
    perform (store_destination text) d = ok (record d { destination = text })
    perform (store_pref_cabin text) d = ok (record d { pref_cabin = text })
    perform (store_demand_mean real) d = ok (record d { demand_mean = real })
    perform (store_demand_std_dev real) d = ok (record d { demand_std_dev = real })
    perform (store_demand_change_fee_prob real) d = ok (record d { change_fee_prob = real })
    perform (store_demand_change_fee_disutility real) d =
        ok (record d { change_fee_disutility = real })
    perform (store_demand_non_refundable_prob real) d = ok (record d { non_refundable_prob = real })
    perform (store_demand_non_refundable_disutility real) d =
        ok (record d { non_refundable_disutility = real })
    perform (store_pos_code text) d = ok (record d { it_pos_code = text })
    perform (store_pos_prob_mass real) d = do
      m ← insert_new text_lt d.it_pos_code real d.pos_prob_dist
      ok (record d { pos_prob_dist = m })
    perform (store_channel_code text) d = ok (record d { it_channel_code = text })
    perform (store_channel_prob_mass real) d = do
      m ← insert_new text_lt d.it_channel_code real d.channel_prob_dist
      ok (record d { channel_prob_dist = m })
    perform (store_trip_code text) d = ok (record d { it_trip_code = text })
    perform (store_trip_prob_mass real) d = do
      m ← insert_new text_lt d.it_trip_code real d.trip_prob_dist
      ok (record d { trip_prob_dist = m })
    perform (store_stay_code integer) d = ok (record d { it_stay_duration = pos integer })
    perform (store_stay_prob_mass real) d = do
      m ← insert_new lt_ℤ d.it_stay_duration real d.stay_prob_dist
      ok (record d { stay_prob_dist = m })
    perform (store_ff_code text) d = ok (record d { it_ff_code = text })
    perform (store_ff_prob_mass real) d = do
      m ← insert_new text_lt d.it_ff_code real d.ff_prob_dist
      ok (record d { ff_prob_dist = m })
    perform store_pref_dep_time d =
        ok (record d { it_pref_dep_time = get_time d; it_minutes = pos 0; it_seconds = pos 0 })
    perform (store_pref_dep_time_prob_mass real) d = ok (record d {
      pref_dep_time_prob_dist =
          (insert lt_ℤ (total_seconds d.it_pref_dep_time) real d.pref_dep_time_prob_dist).0;
    })
    perform (store_wtp real) d = ok (record d { min_wtp = real })
    perform (store_time_value real) d = ok (record d { it_time_value = real })
    perform (store_time_value_prob_mass real) d = ok (record d {
      time_value_prob_dist = (insert lt d.it_time_value real d.time_value_prob_dist).0;
    })
    -- The rule passes a `double`, without a sign, to a parameter of type `unsigned int`: what comes
    -- after the point is dropped. A number that the type cannot hold is not converted by C++.
    perform (store_dtd real) d = ok (record d { it_dtd = trunc real })
    perform (store_dtd_prob_mass real) d = ok (record d {
      dtd_prob_dist =
          (insert lt (sub (decimal (pos 0) 0) (of_int d.it_dtd)) real d.dtd_prob_dist).0;
    })

  -- `doEndDemand` clears the distributions once the streams are created.
  unfoldable pub clear_distributions : DemandStruct → DemandStruct
  clear_distributions d = record d {
    pos_prob_dist = [];
    channel_prob_dist = [];
    trip_prob_dist = [];
    stay_prob_dist = [];
    ff_prob_dist = [];
    pref_dep_time_prob_dist = [];
    time_value_prob_dist = [];
    dtd_prob_dist = [];
  }

  unfoldable pub do_end_demand :
      (w : EventService)
      → CategoricalAttributeLite String
      → DemandStruct
      → w.World × Generator
      → DemandStruct × (w.World × Generator)
  unfolding create_demand_characteristics clear_distributions
  do_end_demand w default_pos d (x, shared) =
      (clear_distributions d, create_demand_characteristics w x shared default_pos d)
