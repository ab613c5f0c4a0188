-- ===== src/Stream/Request.antt =====
-- `DemandStream::generateNextRequest` (trademgen/bom/DemandStream.cpp).
use Prim.Native.String.{String}
use trademgen.Prelude.{ℕ, Bool, assertion_failed, Result, ok, err, ◌>>=◌}
use trademgen.Prelude.Int.{ℤ}
use trademgen.Platform.{Platform}
use trademgen.Demand.{key_string}
use trademgen.Stream.{DemandStream, DemandGenerationMethod, sta_ord, poi_pro, other_method}
use trademgen.Stream.Timing.{poisson_process, statistics_order}
use trademgen.Stream.Choice.{
  generate_pos, generate_channel, generate_trip_type, generate_stay_duration,
  generate_frequent_flyer, generate_change_fees, generate_non_refundable,
  generate_preferred_departure_time, generate_value_of_time, generate_wtp,
}

module _ ⦃p : Platform⦄ where
  open p use {Real, Generator, Date, DateTime, Duration, default_party_size}

  -- `stdair::BookingRequestStruct`, as the constructor call fills it.
  pub record BookingRequest : Type 0 where
    pub generator_key : String
    pub origin : String
    pub destination : String
    pub pos : String
    pub preferred_departure_date : Date
    pub request_date_time : DateTime
    pub preferred_cabin : String
    pub party_size : ℤ
    pub channel : String
    pub trip_type : String
    pub stay_duration : ℤ
    pub frequent_flyer : String
    pub preferred_departure_time : Duration
    pub wtp : Real
    pub value_of_time : Real
    pub change_fees : Bool
    pub change_fee_disutility : Real
    pub non_refundable : Bool
    pub non_refundable_disutility : Real

  -- The switch over the generation method.
  unfoldable pub generate_time :
      ℕ → DemandGenerationMethod → DemandStream → Result (DateTime × DemandStream)
  generate_time fuel poi_pro s = poisson_process fuel s
  generate_time fuel sta_ord s = statistics_order s
  generate_time fuel other_method s = err assertion_failed

  unfoldable pub generate_next_request :
      ℕ
      → DemandStream
      → Generator
      → DemandGenerationMethod
      → Result (BookingRequest × DemandStream × Generator)
  unfolding generate_time
  generate_next_request fuel s generator method = do
    pos ← generate_pos s
    time ← generate_time fuel method pos.1
    channel ← generate_channel time.1
    trip_type ← generate_trip_type channel.1
    stay_duration ← generate_stay_duration trip_type.1
    frequent_flyer ← generate_frequent_flyer stay_duration.1
    let change_fees = generate_change_fees frequent_flyer.1
    let non_refundable = generate_non_refundable change_fees.1
    departure_time ← generate_preferred_departure_time non_refundable.1
    value_of_time ← generate_value_of_time departure_time.1
    let s' = value_of_time.1
    wtp ← generate_wtp s' generator s.key.preferred_departure_date time.0 stay_duration.0
    ok (
      record {
        generator_key = key_string s.key;
        origin = s.key.origin;
        destination = s.key.destination;
        pos = pos.0;
        preferred_departure_date = s.key.preferred_departure_date;
        request_date_time = time.0;
        preferred_cabin = s.key.preferred_cabin;
        party_size = default_party_size;
        channel = channel.0;
        trip_type = trip_type.0;
        stay_duration = stay_duration.0;
        frequent_flyer = frequent_flyer.0;
        preferred_departure_time = departure_time.0;
        wtp = wtp.0;
        value_of_time = value_of_time.0;
        change_fees = change_fees.0;
        change_fee_disutility = s.demand_characteristics.change_fee_disutility;
        non_refundable = non_refundable.0;
        non_refundable_disutility = s.demand_characteristics.non_refundable_disutility;
      },
      s',
      wtp.1,
    )
