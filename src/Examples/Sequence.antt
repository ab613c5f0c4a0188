-- ===== src/Examples/Sequence.antt =====
-- The theorem on the requests of one stream, at the demand of the examples.
use trademgen.Prelude.{ℕ, ◌≤◌, ◌≡◌, refl, ◌⊎◌, false, List, arith, length, ok}
use trademgen.Prelude.Int.{pos, negsuc}
use trademgen.Stream.{DemandStream, poi_pro, still_having}
use trademgen.Stream.Request.{BookingRequest}
use trademgen.Stream.Arriving.{IsArriving}
use trademgen.Batch.Requests.{draw_requests, InOrder}
use trademgen.Batch.Sequence.{draw_requests_total}
use trademgen.Examples.Setting.{plain, ordered, sums_grow}
use trademgen.Examples.Streams.{input, stream, stream-IsUnderWay}
use trademgen.Examples.Requests.{input-IsUsable}
use trademgen.Examples.Order.{timed, points}

arrivals-IsArriving : IsArriving ⦃p = plain⦄ input.arrival_pattern (negsuc 32_999) (pos 0) points
arrivals-IsArriving = record {
  entries = refl;
  ascending = stream-IsUnderWay.ascending;
  stops = stream-IsUnderWay.stops;
  after_first = refl;
  before_bound = refl;
}

draw_requests_total_example :
    (requests : List (BookingRequest ⦃p = plain⦄)) × (t : DemandStream ⦃p = plain⦄) × (g' : ℕ)
    × (draw_requests ⦃p = plain⦄ 4 3 stream 0 ≡ ok (requests, t, g'))
    × InOrder ⦃p = plain⦄ requests
    × ((length requests ≡ 4)
        ⊎ ((still_having ⦃p = plain⦄ t poi_pro ≡ false) × (length requests ≤ 4)))
draw_requests_total_example =
    draw_requests_total ⦃p = plain⦄ ordered timed sums_grow input (negsuc 32_999) (pos 0) points
      input-IsUsable arrivals-IsArriving (refl, (refl, tt)) 3 (omega arith) 4 stream 0 refl refl
      refl
