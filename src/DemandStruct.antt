-- ===== src/DemandStruct.antt =====
-- DemandStruct (trademgen/bom/DemandStruct.hpp and .cpp): a demand as the input file states it.
use Prim.Native.String.{String}
use trademgen.Prelude.{ℕ, Result, or_fault, bad_date}
use trademgen.Prelude.Int.{ℤ}
use trademgen.Platform.{Platform}
use trademgen.Attribute.Categorical.{ProbabilityMassFunction}
use trademgen.Attribute.Continuous.{ContinuousDistribution}

module _ ⦃p : Platform⦄ where
  open p use {Real, Date, Duration, DowStruct, hours, minutes, seconds, plus, calendar_date}

  -- `stdair::DatePeriod_T`: from `begin` up to, not including, `end`.
  pub record DatePeriod : Type 0 where
    pub begin : Date
    pub end : Date

  -- The attributes, and below them the staging fields of the parser.
  pub record DemandStruct : Type 0 where
    pub date_range : DatePeriod
    pub dow : DowStruct
    pub origin : String
    pub destination : String
    pub pref_cabin : String
    pub demand_mean : Real
    pub demand_std_dev : Real
    pub change_fee_prob : Real
    pub change_fee_disutility : Real
    pub non_refundable_prob : Real
    pub non_refundable_disutility : Real
    pub pos_prob_dist : ProbabilityMassFunction String
    pub channel_prob_dist : ProbabilityMassFunction String
    pub trip_prob_dist : ProbabilityMassFunction String
    pub stay_prob_dist : ProbabilityMassFunction ℤ
    pub ff_prob_dist : ProbabilityMassFunction String
    pub pref_dep_time_prob_dist : ContinuousDistribution ℤ
    pub min_wtp : Real
    pub time_value_prob_dist : ContinuousDistribution Real
    pub dtd_prob_dist : ContinuousDistribution Real
    pub pref_dep_date_start : Date
    pub pref_dep_date_end : Date
    pub it_year : ℕ
    pub it_month : ℕ
    pub it_day : ℕ
    pub it_hours : ℤ
    pub it_minutes : ℤ
    pub it_seconds : ℤ
    pub it_pos_code : String
    pub it_channel_code : String
    pub it_trip_code : String
    pub it_stay_duration : ℤ
    pub it_ff_code : String
    pub it_pref_dep_time : Duration
    pub it_time_value : Real
    pub it_dtd : ℤ

  -- `DemandStruct::getDate`.
  unfoldable pub get_date : DemandStruct → Result Date
  get_date d = or_fault bad_date (calendar_date d.it_year d.it_month d.it_day)

  -- `DemandStruct::getTime`.
  unfoldable pub get_time : DemandStruct → Duration
  get_time d = plus (plus (hours d.it_hours) (minutes d.it_minutes)) (seconds d.it_seconds)
