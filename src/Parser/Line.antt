-- ===== src/Parser/Line.antt =====
-- The grammar of the demand file (trademgen/command/DemandParserHelper.cpp): a line as its rules
-- read it, the semantic actions that they call for it, in their order, and the file as a sequence of
-- lines. How Boost Spirit finds the lines in the characters of the file is not modelled.
use Prim.Native.String.{String}
use trademgen.Prelude.{
  file_not_found, ℕ, Bool, true, not, Option, none, some, List, [], ◌∷◌, ◌++◌, if◌then◌else◌,
  Result, ok, err, ◌>>=◌,
}
use trademgen.Prelude.Int.{ℤ}
use trademgen.Platform.{Platform}
use trademgen.Attribute.Categorical.{CategoricalAttributeLite}
use trademgen.DemandStruct.{DemandStruct}
use trademgen.Events.{EventService}
use trademgen.Parser.{Action, do_end_demand}
use trademgen.Parser.Demands.{perform_all}

-- The rules `date` and `time`. The minutes and the seconds of a time may be missing.
pub record CalendarDay : Type 0 where
  pub year : ℕ
  pub month : ℕ
  pub day : ℕ

pub record ClockTime : Type 0 where
  pub hour : ℤ
  pub minute : Option ℤ
  pub second : Option ℤ

module _ ⦃p : Platform⦄ where
  open p use {Real, Generator}

  -- `pair >> *(',' >> pair)`.
  pub record Pairs (K : Type 0) : Type 0 where
    pub first : K × Real
    pub others : List (K × Real)

  -- The rule `demand`.
  pub record DemandLine : Type 0 where
    pub start_date : CalendarDay
    pub end_date : CalendarDay
    pub dow_text : String
    pub origin_text : String
    pub destination_text : String
    pub cabin_text : String
    pub pos_pairs : Pairs String
    pub channel_pairs : Pairs String
    pub trip_pairs : Pairs String
    pub stay_pairs : Pairs ℕ
    pub ff_pairs : Pairs String
    pub change_fees : Real × Real
    pub non_refundable : Real × Real
    pub time_pairs : Pairs ClockTime
    pub wtp : Real
    pub time_value_pairs : Pairs Real
    pub dtd_pairs : Pairs Real
    pub mean : Real
    pub std_dev : Real

  abbrev pub date_actions : CalendarDay → List Action
  date_actions d =
      Action.assign_year d.year ∷ Action.assign_month d.month ∷ Action.assign_day d.day ∷ []

  abbrev pub optional : (ℤ → Action) → Option ℤ → List Action
  optional assign none = []
  optional assign (some n) = assign n ∷ []

  abbrev pub time_actions : ClockTime → List Action
  time_actions t =
      Action.assign_hours t.hour
      ∷ (optional Action.assign_minutes t.minute ++ optional Action.assign_seconds t.second)

  module _ {K : Type 0} (entry : K → Real → List Action) where
    abbrev pub actions_from : K × Real → List (K × Real) → List Action
    actions_from q [] = entry (q.0) (q.1)
    actions_from q (r ∷ rest) = entry (q.0) (q.1) ++ actions_from r rest

    abbrev pub pair_actions : Pairs K → List Action
    pair_actions ps = actions_from ps.first ps.others

  abbrev pub pos_entry : String → Real → List Action
  pos_entry k r = Action.store_pos_code k ∷ Action.store_pos_prob_mass r ∷ []

  abbrev pub channel_entry : String → Real → List Action
  channel_entry k r = Action.store_channel_code k ∷ Action.store_channel_prob_mass r ∷ []

  abbrev pub trip_entry : String → Real → List Action
  trip_entry k r = Action.store_trip_code k ∷ Action.store_trip_prob_mass r ∷ []

  abbrev pub stay_entry : ℕ → Real → List Action
  stay_entry k r = Action.store_stay_code k ∷ Action.store_stay_prob_mass r ∷ []

  abbrev pub ff_entry : String → Real → List Action
  ff_entry k r = Action.store_ff_code k ∷ Action.store_ff_prob_mass r ∷ []

  abbrev pub time_entry : ClockTime → Real → List Action
  time_entry k r =
      time_actions k ++ (Action.store_pref_dep_time ∷ Action.store_pref_dep_time_prob_mass r ∷ [])

  abbrev pub time_value_entry : Real → Real → List Action
  time_value_entry k r = Action.store_time_value k ∷ Action.store_time_value_prob_mass r ∷ []

  abbrev pub dtd_entry : Real → Real → List Action
  dtd_entry k r = Action.store_dtd k ∷ Action.store_dtd_prob_mass r ∷ []

  -- The rules up to `pref_cabin`, with the actions of the range of dates.
  abbrev pub head_actions : DemandLine → List Action
  head_actions l =
      date_actions l.start_date
      ++ (Action.store_pref_dep_date_range_start ∷ date_actions l.end_date)
      ++ (Action.store_pref_dep_date_range_end
          ∷ Action.store_dow l.dow_text
          ∷ Action.store_origin l.origin_text
          ∷ Action.store_destination l.destination_text
          ∷ Action.store_pref_cabin l.cabin_text
          ∷ [])

  -- The rules `change_fees` and `non_refundable`.
  abbrev pub fee_actions : DemandLine → List Action
  fee_actions l =
      Action.store_demand_change_fee_prob (l.change_fees.0)
      ∷ Action.store_demand_change_fee_disutility (l.change_fees.1)
      ∷ Action.store_demand_non_refundable_prob (l.non_refundable.0)
      ∷ Action.store_demand_non_refundable_disutility (l.non_refundable.1)
      ∷ []

  abbrev pub param_actions : DemandLine → List Action
  param_actions l = Action.store_demand_mean l.mean ∷ Action.store_demand_std_dev l.std_dev ∷ []

  -- The rule `demand`, up to `demand_end`.
  unfoldable pub line_actions : DemandLine → List Action
  line_actions l =
      head_actions l
      ++ (pair_actions pos_entry l.pos_pairs
          ++ (pair_actions channel_entry l.channel_pairs
              ++ (pair_actions trip_entry l.trip_pairs
                  ++ (pair_actions stay_entry l.stay_pairs
                      ++ (pair_actions ff_entry l.ff_pairs
                          ++ (fee_actions l
                              ++ (pair_actions time_entry l.time_pairs
                                  ++ ((Action.store_wtp l.wtp ∷ [])
                                      ++ (pair_actions time_value_entry l.time_value_pairs
                                          ++ (pair_actions dtd_entry l.dtd_pairs
                                              ++ param_actions l))))))))))

  -- What the rule `demand_list` reads: the demands, and the actions of the one, if any, where the
  -- text stops to fit the rule `demand`. Comments and empty lines call no action.
  pub record DemandFile : Type 0 where
    pub demands : List DemandLine
    pub unfinished : List Action

  module _ (text_lt : String → String → Bool) (w : EventService)
      (default_pos : CategoricalAttributeLite String) where
    -- A line, with `doEndDemand` at its end.
    unfoldable pub load_line :
        DemandLine
        → DemandStruct × (w.World × Generator)
        → Result (DemandStruct × (w.World × Generator))
    unfolding line_actions perform_all do_end_demand
    load_line l (d, state) = do
      e ← perform_all text_lt (line_actions l) d
      ok (do_end_demand w default_pos e state)

    unfoldable pub load_lines :
        List DemandLine
        → DemandStruct × (w.World × Generator)
        → Result (DemandStruct × (w.World × Generator))
    unfolding load_line
    load_lines [] state = ok state
    load_lines (l ∷ lines) state = load_line l state >>= load_lines lines

    -- `DemandFileParser::generateDemand`, on a file that could be opened. The rule `demand_list` fits
    -- any text, as it may be repeated no times: `info.hit`, which is answered, is true.
    unfoldable pub generate_demand :
        DemandFile
        → DemandStruct × (w.World × Generator)
        → Result (Bool × DemandStruct × (w.World × Generator))
    unfolding load_lines perform_all
    generate_demand f state = do
      (d, loaded) ← load_lines f.demands state
      e ← perform_all text_lt f.unfinished d
      ok (true, e, loaded)

    -- `DemandParser::generateDemand` and the constructor of the file parser: whether the file exists and is
    -- readable, and whether it can be opened.
    unfoldable pub parse_demand_file :
        (exists_and_is_readable can_be_opened : Bool)
        → DemandFile
        → DemandStruct × (w.World × Generator)
        → Result (DemandStruct × (w.World × Generator))
    unfolding generate_demand
    parse_demand_file exists_and_is_readable can_be_opened f state =
        if not exists_and_is_readable
        then err file_not_found
        else if not can_be_opened
        then err file_not_found
        else do (hit, e, loaded) ← generate_demand f state; ok (e, loaded)
