-- ===== src/Parser/Demands.antt =====
-- What a run of the semantic actions leaves of the distributions of a demand
-- (trademgen/command/DemandParserHelper.cpp).
use Prim.Native.String.{String}
use trademgen.Prelude.{
  ◌≡◌, refl, subst, ◌↔◌, inl, inr, Bool, true, List, [], ◌∷◌, arith, code_duplication, Result, ok,
  err, ◌>>=◌, Result-cases,
}
use trademgen.Prelude.Int.{ℤ, pos, lt_ℤ}
use trademgen.Platform.{Platform, IsOrdered}
use trademgen.DemandStruct.{DemandStruct}
use trademgen.Parser.{Action, insert_new, perform}
use trademgen.Parser.Maps.{insert, Sorted, HasKey, insert-Sorted, insert-HasKey}

module _ ⦃p : Platform⦄ (text_lt : String → String → Bool) where
  open p use {Real, lt, sub, decimal, of_int, total_seconds}

  -- One action after the other, up to the first that throws.
  unfoldable pub perform_all : List Action → DemandStruct → Result DemandStruct
  unfolding perform
  perform_all [] d = ok d
  perform_all (a ∷ actions) d = perform text_lt a d >>= perform_all actions

  -- The keys of each distribution ascend.
  pub record IsSorted (d : DemandStruct) : Type 0 where
    pub pos_sorted : Sorted text_lt d.pos_prob_dist
    pub channel_sorted : Sorted text_lt d.channel_prob_dist
    pub trip_sorted : Sorted text_lt d.trip_prob_dist
    pub stay_sorted : Sorted lt_ℤ d.stay_prob_dist
    pub ff_sorted : Sorted text_lt d.ff_prob_dist
    pub pref_dep_time_sorted : Sorted lt_ℤ d.pref_dep_time_prob_dist
    pub time_value_sorted : Sorted lt d.time_value_prob_dist
    pub dtd_sorted : Sorted lt d.dtd_prob_dist

  lt_ℤ_trans : (a b c : ℤ) → lt_ℤ a b ≡ true → lt_ℤ b c ≡ true → lt_ℤ a c ≡ true
  lt_ℤ_trans a b c h k = ground arith

  module _ (laws : IsOrdered)
      (text_trans : (a b c : String)
        → text_lt a b ≡ true
        → text_lt b c ≡ true
        → text_lt a c ≡ true) where
    insert_new-Sorted :
        {K : Type 0} (below : K → K → Bool)
        → ((a b c : K) → below a b ≡ true → below b c ≡ true → below a c ≡ true)
        → (k : K) (mass : Real) (m : List (K × Real)) {n : List (K × Real)} → Sorted below m
        → insert_new below k mass m ≡ ok n
        → Sorted below n
    unfolding insert_new
    insert_new-Sorted below trans k mass m {n} s h =
        let e : (insert below k mass m).0 ≡ n = ground arith in
        subst (Sorted below) e (insert-Sorted below trans k mass m s)

    inserted :
        {K : Type 0} (m : Result (List (K × Real))) (f : List (K × Real) → DemandStruct)
        {e : DemandStruct}
        → (m >>= λ n. ok (f n)) ≡ ok e
        → ((n : List (K × Real)) → m ≡ ok n → IsSorted (f n))
        → IsSorted e
    inserted (err fault) f h k = absurd (ground arith)
    inserted (ok n) f {e} h k = let same : f n ≡ e = ground arith in subst IsSorted same (k n refl)

    perform-IsSorted :
        (a : Action) (d : DemandStruct) {e : DemandStruct}
        → IsSorted d
        → perform text_lt a d ≡ ok e
        → IsSorted e
    unfolding perform
    perform-IsSorted (Action.assign_year n) d s h = ground arith
    perform-IsSorted (Action.assign_month n) d s h = ground arith
    perform-IsSorted (Action.assign_day n) d s h = ground arith
    perform-IsSorted (Action.assign_hours n) d s h = ground arith
    perform-IsSorted (Action.assign_minutes n) d s h = ground arith
    perform-IsSorted (Action.assign_seconds n) d s h = ground arith
    perform-IsSorted Action.store_pref_dep_date_range_start d s h = ground arith
    perform-IsSorted Action.store_pref_dep_date_range_end d s h = ground arith
    perform-IsSorted Action.store_pref_dep_time d s h = ground arith
    perform-IsSorted (Action.store_dow x) d s h = ground arith
    perform-IsSorted (Action.store_origin x) d s h = ground arith
    perform-IsSorted (Action.store_destination x) d s h = ground arith
    perform-IsSorted (Action.store_pref_cabin x) d s h = ground arith
    perform-IsSorted (Action.store_demand_mean x) d s h = ground arith
    perform-IsSorted (Action.store_demand_std_dev x) d s h = ground arith
    perform-IsSorted (Action.store_demand_change_fee_prob x) d s h = ground arith
    perform-IsSorted (Action.store_demand_change_fee_disutility x) d s h = ground arith
    perform-IsSorted (Action.store_demand_non_refundable_prob x) d s h = ground arith
    perform-IsSorted (Action.store_demand_non_refundable_disutility x) d s h = ground arith
    perform-IsSorted (Action.store_pos_code x) d s h = ground arith
    perform-IsSorted (Action.store_channel_code x) d s h = ground arith
    perform-IsSorted (Action.store_trip_code x) d s h = ground arith
    perform-IsSorted (Action.store_stay_code x) d s h = ground arith
    perform-IsSorted (Action.store_ff_code x) d s h = ground arith
    perform-IsSorted (Action.store_wtp x) d s h = ground arith
    perform-IsSorted (Action.store_time_value x) d s h = ground arith
    perform-IsSorted (Action.store_dtd x) d s h = ground arith
    perform-IsSorted (Action.store_pos_prob_mass x) d s h =
        inserted (insert_new text_lt d.it_pos_code x d.pos_prob_dist)
          (λ n. record d { pos_prob_dist = n }) h
          λ n e. ground (
            arith,
            insert_new-Sorted text_lt text_trans d.it_pos_code x d.pos_prob_dist s.pos_sorted e,
          )
    perform-IsSorted (Action.store_channel_prob_mass x) d s h =
        inserted (insert_new text_lt d.it_channel_code x d.channel_prob_dist)
          (λ n. record d { channel_prob_dist = n }) h
          λ n e. ground (
            arith,
            insert_new-Sorted text_lt text_trans d.it_channel_code x d.channel_prob_dist
                s.channel_sorted e,
          )
    perform-IsSorted (Action.store_trip_prob_mass x) d s h =
        inserted (insert_new text_lt d.it_trip_code x d.trip_prob_dist)
          (λ n. record d { trip_prob_dist = n }) h
          λ n e. ground (
            arith,
            insert_new-Sorted text_lt text_trans d.it_trip_code x d.trip_prob_dist s.trip_sorted e,
          )
    perform-IsSorted (Action.store_stay_prob_mass x) d s h =
        inserted (insert_new lt_ℤ d.it_stay_duration x d.stay_prob_dist)
          (λ n. record d { stay_prob_dist = n }) h
          λ n e. ground (
            arith,
            insert_new-Sorted lt_ℤ lt_ℤ_trans d.it_stay_duration x d.stay_prob_dist s.stay_sorted e,
          )
    perform-IsSorted (Action.store_ff_prob_mass x) d s h =
        inserted (insert_new text_lt d.it_ff_code x d.ff_prob_dist)
          (λ n. record d { ff_prob_dist = n }) h
          λ n e. ground (
            arith,
            insert_new-Sorted text_lt text_trans d.it_ff_code x d.ff_prob_dist s.ff_sorted e,
          )
    perform-IsSorted (Action.store_pref_dep_time_prob_mass x) d s h = ground (
      arith,
      insert-Sorted lt_ℤ lt_ℤ_trans (total_seconds d.it_pref_dep_time) x d.pref_dep_time_prob_dist
          s.pref_dep_time_sorted,
    )
    perform-IsSorted (Action.store_time_value_prob_mass x) d s h = ground (
      arith,
      insert-Sorted lt laws.lt_trans d.it_time_value x d.time_value_prob_dist s.time_value_sorted,
    )
    perform-IsSorted (Action.store_dtd_prob_mass x) d s h = ground (
      arith,
      insert-Sorted lt laws.lt_trans (sub (decimal (pos 0) 0) (of_int d.it_dtd)) x d.dtd_prob_dist
          s.dtd_sorted,
    )

    -- Let the doubles be ordered and the order of the texts be transitive. If a run of the
    -- semantic actions, in any order, on a demand whose distributions have ascending keys does not
    -- throw, the keys of each of its eight distributions ascend strictly after it.
    pub perform_all-IsSorted :
        (actions : List Action) (d : DemandStruct) {e : DemandStruct}
        → IsSorted d
        → perform_all actions d ≡ ok e
        → IsSorted e
    unfolding perform_all
    perform_all-IsSorted [] d s h = ground arith
    perform_all-IsSorted (a ∷ actions) d s h = elim (Result-cases (perform text_lt a d)) [
      | inl (f, k) ↦ absurd (cc (rw k at h))
      | inr (d', k) ↦ perform_all-IsSorted actions d' (perform-IsSorted a d s k) (rw k at h)
    ]

    insert_new-HasKey :
        {K : Type 0} (below : K → K → Bool)
        → ((a b c : K) → below a b ≡ true → below b c ≡ true → below a c ≡ true)
        → (k : K) (mass : Real) (m : List (K × Real)) (f : List (K × Real) → DemandStruct)
        → Sorted below m
        → ((insert_new below k mass m >>= λ n. ok (f n)) ≡ err code_duplication) ↔ HasKey below k m
    unfolding insert_new
    insert_new-HasKey below trans k mass m f s = (
      λ h. ground (arith, insert-HasKey below trans k mass m s),
      λ h. ground (arith, insert-HasKey below trans k mass m s),
    )

    -- Let the doubles be ordered and the order of the texts be transitive. Where the keys of the
    -- distributions ascend, storing the mass of a point of sale, a channel, a trip type, a stay
    -- duration or a frequent flyer code throws the duplication exception exactly when the
    -- distribution has an entry for the staged code already.
    pub perform_duplicates :
        (d : DemandStruct) (mass : Real)
        → IsSorted d
        → ((perform text_lt (Action.store_pos_prob_mass mass) d ≡ err code_duplication)
            ↔ HasKey text_lt d.it_pos_code d.pos_prob_dist)
          × ((perform text_lt (Action.store_channel_prob_mass mass) d ≡ err code_duplication)
              ↔ HasKey text_lt d.it_channel_code d.channel_prob_dist)
          × ((perform text_lt (Action.store_trip_prob_mass mass) d ≡ err code_duplication)
              ↔ HasKey text_lt d.it_trip_code d.trip_prob_dist)
          × ((perform text_lt (Action.store_stay_prob_mass mass) d ≡ err code_duplication)
              ↔ HasKey lt_ℤ d.it_stay_duration d.stay_prob_dist)
          × ((perform text_lt (Action.store_ff_prob_mass mass) d ≡ err code_duplication)
              ↔ HasKey text_lt d.it_ff_code d.ff_prob_dist)
    unfolding perform
    perform_duplicates d mass s = (
      insert_new-HasKey text_lt text_trans d.it_pos_code mass d.pos_prob_dist
          (λ n. record d { pos_prob_dist = n }) s.pos_sorted,
      insert_new-HasKey text_lt text_trans d.it_channel_code mass d.channel_prob_dist
          (λ n. record d { channel_prob_dist = n }) s.channel_sorted,
      insert_new-HasKey text_lt text_trans d.it_trip_code mass d.trip_prob_dist
          (λ n. record d { trip_prob_dist = n }) s.trip_sorted,
      insert_new-HasKey lt_ℤ lt_ℤ_trans d.it_stay_duration mass d.stay_prob_dist
          (λ n. record d { stay_prob_dist = n }) s.stay_sorted,
      insert_new-HasKey text_lt text_trans d.it_ff_code mass d.ff_prob_dist
          (λ n. record d { ff_prob_dist = n }) s.ff_sorted,
    )
