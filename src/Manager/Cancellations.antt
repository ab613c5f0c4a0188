-- ===== src/Manager/Cancellations.antt =====
-- `DemandManager::generateCancellation` (trademgen/command/DemandManager.cpp).
use Prim.Native.String.{String}
use trademgen.Prelude.{
  ◌≡◌, refl, inl, inr, Bool, false, Option, none, some, List, [], ◌∷◌, arith, if◌then◌else◌,
  assertion_failed, undefined_behaviour, Result, ok, err, ◌>>=◌, or_fault, Result-cases,
}
use trademgen.Prelude.Int.{ℤ, pos}
use trademgen.Platform.{Platform}
use trademgen.Events.{Cancellation, Event, cancellation}

module _ ⦃p : Platform⦄ where
  open p use {
    Real, Generator, Date, DateTime, SegmentPath, BookingClassId, decimal, of_int, mul, div, le,
    trunc, uniform, hours, ptime, elapsed, earlier, total_seconds, time_duration, is_negative,
  }

  -- What is read of a `stdair::TravelSolutionStruct`: per segment, a map from class codes to
  -- booking classes; the class path of the chosen fare option, each text as the list of its
  -- characters; and the segments.
  pub record TravelSolution : Type 0 where
    pub class_object_id_map_holder : List (List (String × BookingClassId))
    pub class_path : List (List String)
    pub segment_path : SegmentPath

  -- The comparison of class codes is an argument: `std::map::find`.
  pub find_class :
      (String → String → Bool) → String → List (String × BookingClassId) → Option BookingClassId
  find_class same code [] = none
  find_class same code ((key, id) ∷ rest) =
      let others = find_class same code rest in if same key code then some id else others

  -- One round of the loop over the segments.
  unfoldable pub class_id :
      (String → String → Bool)
      → List (String × BookingClassId)
      → List String
      → Result BookingClassId
  unfolding find_class
  class_id same ids [] = err assertion_failed
  class_id same ids (code ∷ codes) = or_fault assertion_failed (find_class same code ids)

  -- The loop: the second iterator advances with the first and is not tested.
  pub class_ids :
      (String → String → Bool)
      → List (List (String × BookingClassId))
      → List (List String)
      → Result (List BookingClassId)
  unfolding class_id
  class_ids same [] path = ok []
  class_ids same (ids ∷ holder) [] = err undefined_behaviour
  class_ids same (ids ∷ holder) (classes ∷ path) = do
    id ← class_id same ids classes
    rest ← class_ids same holder path
    ok (id ∷ rest)

  -- The date-time of a cancellation: the share of the time from the request to the departure that
  -- is left at the cancellation is the variate divided by the probability of a cancellation.
  unfoldable pub cancellation_time : Real → DateTime → Date → DateTime
  cancellation_time random_number request_time departure_date =
      let departure_date_time = ptime departure_date (hours (pos 0)) in
      let time_to_departure = elapsed departure_date_time request_time in
      let seconds_left =
        trunc (
          mul (of_int (total_seconds time_to_departure)) (div random_number (decimal (pos 5) 2))) in
      earlier departure_date_time (time_duration (pos 0) (pos 0) seconds_left)

  unfoldable pub generate_cancellation :
      (String → String → Bool)
      → Generator
      → TravelSolution
      → (party_size : ℤ) → (request_time : DateTime) → (departure_date : Date)
      → Result (Option Event × Generator)
  unfolding class_ids cancellation_time
  generate_cancellation same generator solution party_size request_time departure_date =
      let (random_number, generator') = uniform generator in
      let time = cancellation_time random_number request_time departure_date in
      if le (decimal (pos 5) 2) random_number
      then ok (none, generator')
      else if is_negative (elapsed time request_time)
      then ok (none, generator')
      else do
        ids ← class_ids same solution.class_object_id_map_holder solution.class_path
        ok (
          some (
              cancellation (record {
                segment_path = solution.segment_path;
                class_id_list = ids;
                party_size = party_size;
                cancellation_date_time = time;
              })),
          generator',
        )

  module _ (same : String → String → Bool) where
    -- Each booking class is the one that its segment's map has for the first class of the segment.
    abbrev pub AreFound :
        List (List (String × BookingClassId)) → List (List String) → List BookingClassId → Type 0
    AreFound [] path [] = Unit
    AreFound [] path (id ∷ result) = ⊥
    AreFound (ids ∷ holder) [] result = ⊥
    AreFound (ids ∷ holder) ([] ∷ path) result = ⊥
    AreFound (ids ∷ holder) ((code ∷ codes) ∷ path) [] = ⊥
    AreFound (ids ∷ holder) ((code ∷ codes) ∷ path) (id ∷ result) =
        (find_class same code ids ≡ some id) × AreFound holder path result

    class_ids-AreFound :
        (holder : List (List (String × BookingClassId))) (path : List (List String))
        (result : List BookingClassId)
        → class_ids same holder path ≡ ok result
        → AreFound holder path result
    unfolding class_ids
    class_ids-AreFound [] path [] h = tt
    class_ids-AreFound [] path (id ∷ result) h = absurd (ground arith)
    class_ids-AreFound (ids ∷ holder) [] result h = absurd (ground arith)
    class_ids-AreFound (ids ∷ holder) ([] ∷ path) result h = absurd (ground arith)
    class_ids-AreFound (ids ∷ holder) ((code ∷ codes) ∷ path) [] h = absurd (ground arith)
    class_ids-AreFound (ids ∷ holder) ((code ∷ codes) ∷ path) (id ∷ result) h =
        (ground arith, class_ids-AreFound holder path result (ground arith))

    -- A cancellation that is generated is not before the request; it is for the party and the
    -- segments of the booking, with one booking class per segment, the one that the segment's map
    -- has for the first class of the chosen fare option there; and the variate was not at or above
    -- the probability of a cancellation.
    pub generate_cancellation_outcome :
        (generator : Generator) (solution : TravelSolution) (party_size : ℤ)
        (request_time : DateTime) (departure_date : Date) {e : Event} {generator' : Generator}
        → generate_cancellation same generator solution party_size request_time departure_date
          ≡ ok (some e, generator')
        → (c : Cancellation) × (e ≡ cancellation c)
          × (le (decimal (pos 5) 2) (uniform generator).0 ≡ false)
          × (is_negative (elapsed c.cancellation_date_time request_time) ≡ false)
          × (c.party_size ≡ party_size)
          × (c.segment_path ≡ solution.segment_path)
          × AreFound solution.class_object_id_map_holder solution.class_path c.class_id_list
    unfolding generate_cancellation
    generate_cancellation_outcome generator solution party_size request_time departure_date h =
        elim (Result-cases
          (class_ids same solution.class_object_id_map_holder solution.class_path)) [
            | inl (f, e') ↦ absurd (ground arith)
            | inr (ids, e') ↦ (
              record {
                segment_path = solution.segment_path;
                class_id_list = ids;
                party_size = party_size;
                cancellation_date_time =
                    cancellation_time (uniform generator).0 request_time departure_date;
              },
              ground arith,
              ground arith,
              ground arith,
              refl,
              refl,
              class_ids-AreFound solution.class_object_id_map_holder solution.class_path ids e',
            )
          ]
