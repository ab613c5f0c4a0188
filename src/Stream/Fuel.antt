-- ===== src/Stream/Fuel.antt =====
-- The fuel of the statistics order: `generateNextRequest` (trademgen/bom/DemandStream.cpp) has no
-- recursion there.
use trademgen.Prelude.{
  ℕ, zero, suc, ◌-◌, inl, inr, Bool, List, ◌==◌, if◌then◌else◌, Bool-cases, get_elem?, out_of_range,
  index_out_of_range, Result, ok, err, ◌>>=◌, HasEnded, ok-HasEnded, err-HasEnded, bind-HasEnded,
  or_fault-HasEnded, check-HasEnded,
}
use trademgen.Platform.{Platform}
use trademgen.Demand.{get_pos_value}
use trademgen.Attribute.Dictionary.{key_to_value, value_to_key}
use trademgen.Attribute.Scan.{at, scan}
use trademgen.Attribute.Categorical
use trademgen.Attribute.Categorical.{CategoricalAttributeLite}
use trademgen.Attribute.Continuous
use trademgen.Attribute.Continuous.{ContinuousAttributeLite, Scalar, real_scalar, int_scalar}
use trademgen.Stream.{DemandStream, sta_ord}
use trademgen.Stream.Timing.{statistics_order}
use trademgen.Stream.Choice.{
  generate_pos, generate_channel, generate_trip_type, generate_stay_duration,
  generate_frequent_flyer, generate_preferred_departure_time, generate_value_of_time, generate_wtp,
}
use trademgen.Stream.Request.{generate_next_request, generate_time}

scan-HasEnded {ℓ κ} :
    {A : Type ℓ} {B : Type κ} (test : A → Bool) (hit miss : ℕ → Result B) (xs : List A) (r i : ℕ)
    → ((j : ℕ) → HasEnded (hit j))
    → ((j : ℕ) → HasEnded (miss j))
    → HasEnded (scan test hit miss xs r i)
unfolding scan
scan-HasEnded test hit miss xs zero i h k = k i
scan-HasEnded test hit miss xs (suc r) i h k =
    bind-HasEnded (at xs i) _ (or_fault-HasEnded out_of_range (get_elem? xs i) (λ q. cc)) (λ a.
      elim (Bool-cases (test a)) [
        | inl t ↦ rw t (h i)
        | inr f ↦ rw f (scan-HasEnded test hit miss xs r (suc i) h k)
      ])

at-HasEnded {ℓ} : {A : Type ℓ} (xs : List A) (i : ℕ) → HasEnded (at xs i)
at-HasEnded xs i = or_fault-HasEnded out_of_range (get_elem? xs i) (λ q. cc)

module _ ⦃p : Platform⦄ where
  open p use {Real, Generator, lt, le}

  categorical-HasEnded :
      {T : Type 0} (a : CategoricalAttributeLite T) (u : Real)
      → HasEnded (Categorical.get_value a u)
  unfolding Categorical.get_value
  categorical-HasEnded a u =
      scan-HasEnded (λ c. le (value_to_key u) c) (at a.value_array) (λ i. err index_out_of_range)
        a.cumulative_distribution a.size 0 (λ j. at-HasEnded a.value_array j)
        (λ j. err-HasEnded index_out_of_range (λ q. cc))

  abbrev value_at : {T : Type 0} ⦃s : Scalar T⦄ → ContinuousAttributeLite T → Real → ℕ → Result T
  value_at a u idx =
      if idx == 0
      then at a.value_array idx
      else if idx == a.size
      then at a.value_array (idx - 1)
      else do
        c_cur ← at a.cumulative_distribution idx
        v_cur ← at a.value_array idx
        c_prev ← at a.cumulative_distribution (idx - 1)
        v_prev ← at a.value_array (idx - 1)
        ok (Continuous.interpolate u v_prev (key_to_value c_prev) v_cur (key_to_value c_cur))

  continuous-HasEnded :
      {T : Type 0} ⦃s : Scalar T⦄ (a : ContinuousAttributeLite T) (u : Real)
      → HasEnded (Continuous.get_value a u)
  unfolding Continuous.get_value
  continuous-HasEnded a u =
      let search : Result ℕ =
        scan (λ c. lt (value_to_key u) c) (λ i. ok i) (λ i. ok i) a.cumulative_distribution a.size
          0 in
      bind-HasEnded search (λ idx. value_at a u idx)
        (scan-HasEnded (λ c. lt (value_to_key u) c) (λ i. ok i) (λ i. ok i)
          a.cumulative_distribution a.size 0 (λ j. ok-HasEnded j) (λ j. ok-HasEnded j))
        (λ idx. elim (Bool-cases (idx == 0)) [
          | inl t ↦ rw t (at-HasEnded a.value_array idx)
          | inr f ↦ elim (Bool-cases (idx == a.size)) [
            | inl t' ↦ rw (f, t') (at-HasEnded a.value_array (idx - 1))
            | inr f' ↦
                rw (f, f')
                  (bind-HasEnded _ _ (at-HasEnded a.cumulative_distribution idx) (λ c.
                    bind-HasEnded _ _ (at-HasEnded a.value_array idx) (λ v.
                      bind-HasEnded _ _ (at-HasEnded a.cumulative_distribution (idx - 1)) (λ c'.
                        bind-HasEnded _ _ (at-HasEnded a.value_array (idx - 1))
                          (λ v'. ok-HasEnded _)))))
          ]
        ])

  statistics_order-HasEnded : (s : DemandStream) → HasEnded (statistics_order s)
  unfolding statistics_order
  statistics_order-HasEnded s =
      check-HasEnded _ _ (bind-HasEnded _ _ (continuous-HasEnded _ _) (λ d. ok-HasEnded _))

  -- One draw of an attribute.
  drawn-HasEnded :
      {T S : Type 0} (r : Result T) (f : T → S) → HasEnded r → HasEnded (r >>= λ v. ok (f v))
  drawn-HasEnded r f h = bind-HasEnded r _ h (λ v. ok-HasEnded _)

  -- A request under the statistics order never runs out of fuel.
  pub generate_next_request-HasEnded :
      (fuel : ℕ) (s : DemandStream) (g : Generator)
      → HasEnded (generate_next_request fuel s g sta_ord)
  unfolding generate_next_request generate_time generate_pos get_pos_value generate_channel
      generate_trip_type generate_stay_duration generate_frequent_flyer
      generate_preferred_departure_time generate_value_of_time generate_wtp
  generate_next_request-HasEnded fuel s g =
      bind-HasEnded _ _ (drawn-HasEnded _ _ (categorical-HasEnded _ _)) (λ a.
        bind-HasEnded _ _ (statistics_order-HasEnded _) (λ b.
          bind-HasEnded _ _ (drawn-HasEnded _ _ (categorical-HasEnded _ _)) (λ c.
            bind-HasEnded _ _ (drawn-HasEnded _ _ (categorical-HasEnded _ _)) (λ d.
              bind-HasEnded _ _ (drawn-HasEnded _ _ (categorical-HasEnded _ _)) (λ e.
                bind-HasEnded _ _ (drawn-HasEnded _ _ (categorical-HasEnded _ _)) (λ f.
                  bind-HasEnded _ _ (drawn-HasEnded _ _ (continuous-HasEnded _ _)) (λ k.
                    bind-HasEnded _ _ (drawn-HasEnded _ _ (continuous-HasEnded _ _)) (λ v.
                      bind-HasEnded _ _ (drawn-HasEnded _ _ (continuous-HasEnded _ _))
                        (λ w. ok-HasEnded _)))))))))
