-- ===== src/Parser/Meaning.antt =====
-- What a demand of the input file says of the staging structure
-- (trademgen/command/DemandParserHelper.cpp).
use Prim.Native.String.{String}
use trademgen.Prelude.{◌≡◌, ◌↔◌, inl, inr, Bool, some, List, []}
use trademgen.Platform.{Platform}
use trademgen.DemandStruct.{DemandStruct}
use trademgen.Parser.Line.{Pairs, DemandLine}
use trademgen.Parser.Pairs.{
  Distribution, entries, inserted, Distinct, IsEntry, All-nothing, inserted-IsEntry,
}
use trademgen.Parser.Reading.{
  pos_dist, channel_dist, trip_dist, stay_dist, ff_dist, time_dist, time_value_dist, dtd_dist,
}

module _ ⦃p : Platform⦄ (text_lt : String → String → Bool) where
  open p use {Real, Date, calendar_date, next_day, dow_struct}

  -- The map that the pairs stand for: a `std::map` into which they are inserted one after the other.
  abbrev pub map_of : {K J : Type 0} → Distribution text_lt K J → Pairs K → List (J × Real)
  map_of u ps = inserted u.below [] (entries text_lt u ps.first ps.others)

  abbrev NoTwice : {K J : Type 0} → Distribution text_lt K J → Pairs K → Type 0
  NoTwice u ps = Distinct u.below (entries text_lt u ps.first ps.others)

  -- No code stands twice in a distribution whose actions refuse that, whatever their order.
  pub record IsDistinct (l : DemandLine) : Type 0 where
    pub pos_once : NoTwice (pos_dist text_lt) l.pos_pairs
    pub channel_once : NoTwice (channel_dist text_lt) l.channel_pairs
    pub trip_once : NoTwice (trip_dist text_lt) l.trip_pairs
    pub stay_once : NoTwice (stay_dist text_lt) l.stay_pairs
    pub ff_once : NoTwice (ff_dist text_lt) l.ff_pairs

  -- Of pairs without a key twice, each is in the map, and nothing else is.
  pub map_of-pairs :
      {K J : Type 0} (u : Distribution text_lt K J) (ps : Pairs K) (e : J × Real)
      → NoTwice u ps
      → IsEntry u.below e (map_of u ps) ↔ IsEntry u.below e (entries text_lt u ps.first ps.others)
  map_of-pairs u ps e distinct =
      let es = entries text_lt u ps.first ps.others in
      let (there, back) = inserted-IsEntry u.below [] es e (All-nothing u.below es) distinct in
      (λ i. elim (there i) [ inl q ↦ absurd q | inr q ↦ q ], λ i. back (inr i))

  -- The demand says what the line says.
  pub record Reads (l : DemandLine) (d : DemandStruct) : Type 0 where
    pub begin :
        calendar_date l.start_date.year l.start_date.month l.start_date.day
        ≡ some d.date_range.begin
    pub end :
        (last : Date) × (calendar_date l.end_date.year l.end_date.month l.end_date.day ≡ some last)
        × (d.date_range.end ≡ next_day last)
    pub dow : d.dow ≡ dow_struct l.dow_text
    pub places : (d.origin ≡ l.origin_text) × (d.destination ≡ l.destination_text)
    pub cabin : d.pref_cabin ≡ l.cabin_text
    pub pos_map : d.pos_prob_dist ≡ map_of (pos_dist text_lt) l.pos_pairs
    pub channel_map : d.channel_prob_dist ≡ map_of (channel_dist text_lt) l.channel_pairs
    pub trip_map : d.trip_prob_dist ≡ map_of (trip_dist text_lt) l.trip_pairs
    pub stay_map : d.stay_prob_dist ≡ map_of (stay_dist text_lt) l.stay_pairs
    pub ff_map : d.ff_prob_dist ≡ map_of (ff_dist text_lt) l.ff_pairs
    pub fees :
        (d.change_fee_prob ≡ l.change_fees.0)
        × (d.change_fee_disutility ≡ l.change_fees.1)
        × (d.non_refundable_prob ≡ l.non_refundable.0)
        × (d.non_refundable_disutility ≡ l.non_refundable.1)
    pub time_map : d.pref_dep_time_prob_dist ≡ map_of (time_dist text_lt) l.time_pairs
    pub least_wtp : d.min_wtp ≡ l.wtp
    pub time_value_map :
        d.time_value_prob_dist ≡ map_of (time_value_dist text_lt) l.time_value_pairs
    pub dtd_map : d.dtd_prob_dist ≡ map_of (dtd_dist text_lt) l.dtd_pairs
    pub params : (d.demand_mean ≡ l.mean) × (d.demand_std_dev ≡ l.std_dev)
