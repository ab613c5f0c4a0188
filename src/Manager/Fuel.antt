-- ===== src/Manager/Fuel.antt =====
-- The fuel of the statistics order through the demand manager (trademgen/command/DemandManager.cpp).
use Prim.Native.String.{String}
use trademgen.Prelude.{
  ℕ, inl, inr, true, List, [], ◌∷◌, Bool-cases, object_not_found, HasEnded, ok-HasEnded,
  bind-HasEnded, or_fault-HasEnded,
}
use trademgen.Prelude.Int.{ℤ, pos}
use trademgen.Platform.{Platform}
use trademgen.Demand.{key_string}
use trademgen.Stream.{DemandGenerationMethod, sta_ord, set_bool_first_date_time_request}
use trademgen.Stream
use trademgen.Stream.Fuel
use trademgen.Events.{EventService}
use trademgen.Manager.{
  still_having, generate_next_request, first_request, first_requests, generate_first_requests,
}

module _ ⦃p : Platform⦄ (w : EventService) where
  open p use {Generator}
  open w use {World, Pointer, find, list, load, store}

  pub still_having-HasEnded :
      (x : World) (key : String) (method : DemandGenerationMethod)
      → HasEnded (still_having w x key method)
  unfolding still_having
  still_having-HasEnded x key method =
      bind-HasEnded _ _ (or_fault-HasEnded object_not_found (find key x) (λ q. cc))
        (λ q. ok-HasEnded _)

  pub generate_next_request-HasEnded :
      (fuel : ℕ) (x : World) (g : Generator) (key : String)
      → HasEnded (generate_next_request w fuel x g key sta_ord)
  unfolding generate_next_request
  generate_next_request-HasEnded fuel x g key =
      bind-HasEnded _ _ (or_fault-HasEnded object_not_found (find key x) (λ q. cc)) (λ q.
        bind-HasEnded _ _ (Fuel.generate_next_request-HasEnded fuel (load q x) g)
          (λ r. ok-HasEnded _))

  first_request-HasEnded :
      (fuel : ℕ) (q : Pointer) (x : World) (g : Generator)
      → HasEnded (first_request w fuel q sta_ord x g)
  unfolding first_request
  first_request-HasEnded fuel q x g =
      let s = set_bool_first_date_time_request (load q x) true in
      elim (Bool-cases (Stream.still_having s sta_ord)) [
        | inl t ↦ rw t (
            bind-HasEnded _ _
              (generate_next_request-HasEnded fuel (store q s x) g (key_string s.key))
              (λ r. ok-HasEnded _))
        | inr f ↦ rw f (ok-HasEnded _)
      ]

  first_requests-HasEnded :
      (fuel : ℕ) (qs : List Pointer) (sum : ℤ) (x : World) (g : Generator)
      → HasEnded (first_requests w fuel qs sta_ord sum x g)
  unfolding first_requests
  first_requests-HasEnded fuel [] sum x g = ok-HasEnded _
  first_requests-HasEnded fuel (q ∷ qs) sum x g =
      bind-HasEnded _ _ (first_request-HasEnded fuel q x g)
        (λ state. first_requests-HasEnded fuel qs _ (state.0) (state.1))

  pub generate_first_requests-HasEnded :
      (fuel : ℕ) (x : World) (g : Generator) → HasEnded (generate_first_requests w fuel x g sta_ord)
  unfolding generate_first_requests
  generate_first_requests-HasEnded fuel x g =
      bind-HasEnded _ _ (first_requests-HasEnded fuel (list x) (pos 0) x g) (λ done. ok-HasEnded _)
