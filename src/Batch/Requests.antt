-- ===== src/Batch/Requests.antt =====
-- The requests of one stream in a row, as the batch asks for them one after the other
-- (trademgen/batches/trademgen_generateDemand.cpp).
use trademgen.Prelude.{
  ℕ, zero, suc, ◌≤◌, ◌≡◌, ◌⊎◌, inl, inr, true, false, List, [], ◌∷◌, ◌++◌, arith, length, Result,
  ok, ◌>>=◌,
}
use trademgen.Platform.{Platform}
use trademgen.Stream.{DemandStream, poi_pro, still_having}
use trademgen.Stream.Request.{BookingRequest, generate_next_request}
use trademgen.Batch.{is_lower}

module _ ⦃p : Platform⦄ where
  open p use {Generator}

  -- At most so many requests of one stream: each is asked for while the stream still has some.
  unfoldable pub draw_requests :
      ℕ → ℕ → DemandStream → Generator → Result (List BookingRequest × DemandStream × Generator)
  draw_requests zero fuel s g = ok ([], s, g)
  draw_requests (suc n) fuel s g = generate_next_request fuel s g poi_pro >>= λ r.
      elim (still_having r.1 poi_pro) [
        | true ↦ draw_requests n fuel r.1 r.2 >>= λ others. ok (r.0 ∷ others.0, others.1, others.2)
        | false ↦ ok (r.0 ∷ [], r.1, r.2)
      ]

  -- Each request passes the sanity check against the one before it.
  abbrev pub InOrder : List BookingRequest → Type 0
  InOrder [] = Unit
  InOrder (r ∷ []) = Unit
  InOrder (r ∷ (r' ∷ rs)) = (is_lower r' r ≡ false) × InOrder (r' ∷ rs)

  module _ (fuel : ℕ) where
    -- What at most `n` requests are, and what comes before them: the list is in order, and shorter
    -- only where the stream has no more.
    pub record IsSequence (before : List BookingRequest) (n : ℕ) (s : DemandStream) (g : Generator)
        : Type 0 where
      pub requests : List BookingRequest
      pub left : DemandStream
      pub generator : Generator
      pub drawn : draw_requests n fuel s g ≡ ok (requests, left, generator)
      pub in_order : InOrder (before ++ requests)
      pub complete :
          (length requests ≡ n) ⊎ ((still_having left poi_pro ≡ false) × (length requests ≤ n))

    module _ (s : DemandStream) (g : Generator) {r : BookingRequest} {t : DemandStream}
        {g' : Generator} (before : List BookingRequest)
        (drawn : generate_next_request fuel s g poi_pro ≡ ok (r, t, g')) where
      pub last_one :
          (n : ℕ)
          → still_having t poi_pro ≡ false
          → InOrder (before ++ (r ∷ []))
          → IsSequence before (suc n) s g
      unfolding draw_requests
      last_one n over order = record {
        requests = r ∷ [];
        left = t;
        generator = g';
        drawn = ground arith;
        in_order = order;
        complete = inr (over, omega arith);
      }

      pub one_more :
          (n : ℕ)
          → still_having t poi_pro ≡ true
          → (later : IsSequence (before ++ (r ∷ [])) n t g')
          → InOrder (before ++ (r ∷ later.requests))
          → IsSequence before (suc n) s g
      unfolding draw_requests
      one_more n more later order = record {
        requests = r ∷ later.requests;
        left = later.left;
        generator = later.generator;
        drawn = ground (arith, later.drawn);
        in_order = order;
        complete = elim later.complete [
          | inl full ↦ inl (omega (arith, full))
          | inr (over, short) ↦ inr (over, omega (arith, short))
        ];
      }
