-- ===== src/Examples/Parsing.antt =====
-- The theorems on the semantic actions at a concrete demand, with the codes in an order of their
-- own.
use Prim.Native.String.{String}
use text.Mathlib.Text.{◌==◌ as str_eq}
use trademgen.Prelude.{
  refl, ℕ, ◌≡◌, ◌↔◌, Bool, true, List, [], ◌∷◌, arith, ltb, if◌then◌else◌, code_duplication, ok,
  err,
}
use trademgen.Prelude.Int.{pos, negsuc, lt_ℤ, ◌-ℤ◌}
use trademgen.DemandStruct.{DemandStruct}
use trademgen.Parser.{Action, perform, insert_new}
use trademgen.Parser.Maps.{HasKey, insert}
use trademgen.Parser.Demands.{IsSorted, perform_all, perform_duplicates}
use trademgen.Attribute.Continuous
use trademgen.Demand.{characteristics}
use trademgen.Manager.Creation.{characteristics_input}
use trademgen.Stream.{DemandStream}
use trademgen.Examples.Attributes.{arrivals}
use trademgen.Examples.Streams.{stream}
use trademgen.Examples.Setting.{plain, ordered, answer}

unfoldable pub rank : String → ℕ
rank code =
    if str_eq code "BKK"
    then 1
    else if str_eq code "SIN"
    then 2
    else if str_eq code "row"
    then 3
    else if str_eq code "OW"
    then 4
    else if str_eq code "RI"
    then 5
    else if str_eq code "RO"
    then 6
    else 0

abbrev pub text_lt : String → String → Bool
text_lt a b = ltb (rank a) (rank b)

text_trans : (a b c : String) → text_lt a b ≡ true → text_lt b c ≡ true → text_lt a c ≡ true
text_trans a b c h k = ground arith

abbrev pub demand : DemandStruct ⦃p = plain⦄
demand = record {
  date_range = record { begin = pos 0; end = pos 0 };
  dow = "1111111";
  origin = "SIN";
  destination = "BKK";
  pref_cabin = "Y";
  demand_mean = pos 1000;
  demand_std_dev = pos 100;
  change_fee_prob = pos 50;
  change_fee_disutility = pos 5000;
  non_refundable_prob = pos 50;
  non_refundable_disutility = pos 5000;
  pos_prob_dist = ("BKK", pos 30) ∷ ("row", pos 70) ∷ [];
  channel_prob_dist = [];
  trip_prob_dist = [];
  stay_prob_dist = (pos 0, pos 10) ∷ (pos 6, pos 90) ∷ [];
  ff_prob_dist = [];
  pref_dep_time_prob_dist = [];
  min_wtp = pos 20_000;
  time_value_prob_dist = [];
  dtd_prob_dist = (negsuc 4_999, pos 40) ∷ [];
  pref_dep_date_start = pos 0;
  pref_dep_date_end = pos 0;
  it_year = 2010;
  it_month = 2;
  it_day = 8;
  it_hours = pos 0;
  it_minutes = pos 0;
  it_seconds = pos 0;
  it_pos_code = "SIN";
  it_channel_code = "";
  it_trip_code = "";
  it_stay_duration = pos 6;
  it_ff_code = "";
  it_pref_dep_time = pos 0;
  it_time_value = pos 0;
  it_dtd = pos 330;
}

demand-IsSorted : IsSorted ⦃p = plain⦄ text_lt demand
unfolding rank
demand-IsSorted = record {
  pos_sorted = ((refl, tt), (tt, tt));
  channel_sorted = tt;
  trip_sorted = tt;
  stay_sorted = ((refl, tt), (tt, tt));
  ff_sorted = tt;
  pref_dep_time_sorted = tt;
  time_value_sorted = tt;
  dtd_sorted = (tt, tt);
}

abbrev actions : List (Action ⦃p = plain⦄)
actions =
    Action.store_pos_prob_mass (pos 0)
    ∷ Action.store_dtd (pos 33_000)
    ∷ Action.store_dtd_prob_mass (pos 0)
    ∷ Action.store_dtd (pos 100)
    ∷ Action.store_dtd_prob_mass (pos 100)
    ∷ []

run_answer :
    (d : DemandStruct ⦃p = plain⦄) × (perform_all ⦃p = plain⦄ text_lt actions demand ≡ ok d)
unfolding perform_all perform insert_new insert rank ◌-ℤ◌
run_answer = answer (perform_all ⦃p = plain⦄ text_lt actions demand) refl

perform_duplicates_example :
    ((perform ⦃p = plain⦄ text_lt (Action.store_pos_prob_mass (pos 5)) demand
        ≡ err code_duplication)
      ↔ HasKey text_lt "SIN" demand.pos_prob_dist)
    × ((perform ⦃p = plain⦄ text_lt (Action.store_channel_prob_mass (pos 5)) demand
          ≡ err code_duplication)
        ↔ HasKey text_lt "" demand.channel_prob_dist)
    × ((perform ⦃p = plain⦄ text_lt (Action.store_trip_prob_mass (pos 5)) demand
          ≡ err code_duplication)
        ↔ HasKey text_lt "" demand.trip_prob_dist)
    × ((perform ⦃p = plain⦄ text_lt (Action.store_stay_prob_mass (pos 5)) demand
          ≡ err code_duplication)
        ↔ HasKey lt_ℤ (pos 6) demand.stay_prob_dist)
    × ((perform ⦃p = plain⦄ text_lt (Action.store_ff_prob_mass (pos 5)) demand
          ≡ err code_duplication)
        ↔ HasKey text_lt "" demand.ff_prob_dist)
perform_duplicates_example =
    perform_duplicates ⦃p = plain⦄ text_lt ordered text_trans demand (pos 5) demand-IsSorted

-- The demand that the run leaves.
abbrev parsed : DemandStruct ⦃p = plain⦄
parsed = record demand {
  pos_prob_dist = ("BKK", pos 30) ∷ ("SIN", pos 0) ∷ ("row", pos 70) ∷ [];
  dtd_prob_dist = arrivals;
  it_dtd = pos 1;
}

abbrev parsed_stream : DemandStream ⦃p = plain⦄
parsed_stream = record stream {
  demand_characteristics = characteristics ⦃p = plain⦄ (characteristics_input ⦃p = plain⦄ parsed);
}
