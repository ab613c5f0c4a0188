-- ===== src/Platform.antt =====
-- What the program takes from other libraries: the floating-point numbers of C++, and StdAir's
-- random generators and Boost's dates (`stdair::RandomGeneration`, `boost::gregorian`,
-- `boost::posix_time`). None of it is implemented here; each definition of the model takes it as an
-- instance argument, and what a theorem needs of it is a named hypothesis.
pub mod Order
use Prim.Native.String.{String}
use trademgen.Prelude.{Bool, true, false, not, ◌&&◌, List, Option, ℕ, ◌≡◌, ◌⊎◌}
use trademgen.Prelude.Int.{ℤ}

pub record Platform : Type 1 where
  -- `double`, NaN left out.
  pub Real : Type 0
  -- The literal m / 10 ^ k.
  pub decimal : ℤ → ℕ → Real
  -- An integer converted to `double`.
  pub of_int : ℤ → Real
  pub add : Real → Real → Real
  pub sub : Real → Real → Real
  pub mul : Real → Real → Real
  pub div : Real → Real → Real
  pub pow : Real → Real → Real
  pub neg : Real → Real
  pub log : Real → Real
  pub lt : Real → Real → Bool
  pub le : Real → Real → Bool
  pub eq : Real → Real → Bool
  -- `std::floor`, converted to an integer.
  pub floor : Real → ℤ
  -- `static_cast` to an integer type.
  pub trunc : Real → ℤ
  -- The state of a `stdair::RandomGeneration`, its base generator included.
  pub Generator : Type 0
  -- `init (seed)`.
  pub seeded : ℤ → Generator
  -- `operator()`: a variate between 0 and 1.
  pub uniform : Generator → Real × Generator
  -- `generateExponential (lambda)`.
  pub exponential : Real → Generator → Real × Generator
  -- A `stdair::NormalGenerator_T` of that mean and deviation on the base generator, called once.
  pub normal : Real → Real → Generator → Real × Generator
  -- `stdair::SECONDS_IN_ONE_DAY` and `stdair::MILLISECONDS_IN_ONE_SECOND`.
  pub seconds_in_one_day : Real
  pub milliseconds_in_one_second : Real
  -- `stdair::HOUR_CONVERTED_IN_SECONDS`.
  pub hour_converted_in_seconds : ℤ
  -- `stdair::DEFAULT_PARTY_SIZE`.
  pub default_party_size : ℤ
  pub Date : Type 0
  pub DateTime : Type 0
  pub Duration : Type 0
  pub hours : ℤ → Duration
  pub minutes : ℤ → Duration
  pub seconds : ℤ → Duration
  pub millisec : ℤ → Duration
  -- `time_duration (hours, minutes, seconds)`.
  pub time_duration : ℤ → ℤ → ℤ → Duration
  pub plus : Duration → Duration → Duration
  pub total_seconds : Duration → ℤ
  pub total_milliseconds : Duration → ℤ
  pub is_negative : Duration → Bool
  pub duration_lt : Duration → Duration → Bool
  -- `ptime (date, time)`, and its parts.
  pub ptime : Date → Duration → DateTime
  pub date : DateTime → Date
  pub time_of_day : DateTime → Duration
  -- `t + d`, `t - d` and `t - u`.
  pub later : DateTime → Duration → DateTime
  pub earlier : DateTime → Duration → DateTime
  pub elapsed : DateTime → DateTime → Duration
  pub date_lt : Date → Date → Bool
  pub date_eq : Date → Date → Bool
  -- `(d - e).days()`.
  pub days_between : Date → Date → ℤ
  -- `date (year, month, day)`, which throws where there is no such day.
  pub calendar_date : ℕ → ℕ → ℕ → Option Date
  -- `d + date_duration (1)`.
  pub next_day : Date → Date
  pub day_of_week : Date → ℕ
  -- A date written to a stream.
  pub date_string : Date → String
  -- The days that a `day_iterator` visits from the first date up to, not including, the second.
  pub days_from : Date → Date → List Date
  -- `stdair::DoWStruct`, made from a string, and its `getStandardDayOfWeek`.
  pub DowStruct : Type 0
  pub dow_struct : String → DowStruct
  pub standard_day_of_week : DowStruct → ℕ → Bool
  -- The identifiers of booking classes and the path of segments of a travel solution.
  pub BookingClassId : Type 0
  pub SegmentPath : Type 0

-- The comparisons of doubles other than NaN. -0.0 and 0.0 are two values that are not told apart.
pub record IsOrdered ⦃p : Platform⦄ : Type 0 where
  pub lt_irrefl : (a : p.Real) → p.lt a a ≡ false
  pub lt_trans : (a b c : p.Real) → p.lt a b ≡ true → p.lt b c ≡ true → p.lt a c ≡ true
  -- What is below `c` is so beside any `b`.
  pub lt_cotrans : (a b c : p.Real) → p.lt a c ≡ true → (p.lt a b ≡ true) ⊎ (p.lt b c ≡ true)
  pub le-eq-not-lt : (a b : p.Real) → p.le a b ≡ not (p.lt b a)
  pub eq-def : (a b : p.Real) → p.eq a b ≡ (not (p.lt a b) && not (p.lt b a))
