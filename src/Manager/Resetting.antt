-- ===== src/Manager/Resetting.antt =====
-- What `DemandManager::reset` leaves of the demand streams (trademgen/command/DemandManager.cpp).
use trademgen.Prelude.{◌≡◌, refl, sym, ◌∙◌, subst, ◌⊎◌, inl, inr, true, List, [], ◌∷◌, arith, All}
use trademgen.Platform.{Platform}
use trademgen.Demand.{new_context, reset_context}
use trademgen.Stream.{DemandStream}
use trademgen.Stream
use trademgen.Events.{EventService, IsMemory}
use trademgen.Manager.{reset_streams}

module _ ⦃p : Platform⦄ where
  open p use {Generator}

  -- No request is counted, and the generation may start again, for the same demand.
  pub record IsReset (s t : DemandStream) : Type 0 where
    pub context : t.random_generation_context ≡ new_context
    pub still_having : t.still_having_requests_to_be_generated ≡ true
    pub first : t.first_date_time_request ≡ true
    pub key : t.key ≡ s.key
    pub characteristics : t.demand_characteristics ≡ s.demand_characteristics
    pub distribution : t.demand_distribution ≡ s.demand_distribution

  reset-IsReset : (s : DemandStream) (g : Generator) → IsReset s (Stream.reset s g).0
  unfolding Stream.reset Stream.init new_context reset_context
  reset-IsReset s g = record {
    context = refl;
    still_having = refl;
    first = refl;
    key = refl;
    characteristics = refl;
    distribution = refl;
  }

  IsReset-trans : (s t u : DemandStream) → IsReset s t → IsReset t u → IsReset s u
  IsReset-trans s t u h k = ground arith

  module _ (w : EventService) (memory : IsMemory w) where
    open w use {World, Pointer, load, store}
    open memory use {load_store, load-store_same}

    -- A stream is as it was, or it is reset.
    abbrev Moved : World → World → Type 0
    Moved x y = (q : Pointer) → (load q y ≡ load q x) ⊎ IsReset (load q x) (load q y)

    store-IsReset :
        (q : Pointer) (x : World) (g : Generator) (r : Pointer)
        → (load r (store q (Stream.reset (load q x) g).0 x) ≡ load r x)
          ⊎ IsReset (load r x) (load r (store q (Stream.reset (load q x) g).0 x))
    store-IsReset q x g r = elim (load_store r q (Stream.reset (load q x) g).0 x) [
      | inl (same, e) ↦ inr (
          subst (IsReset (load r x)) (sym e) (
            subst (λ v. IsReset (load v x) (Stream.reset (load q x) g).0) (sym same)
              (reset-IsReset (load q x) g)))
      | inr e ↦ inl e
    ]

    kept :
        (qs : List Pointer) (x : World) (g : Generator) (r : Pointer)
        → (load r (reset_streams w qs (x, g)).0 ≡ load r x)
          ⊎ IsReset (load r x) (load r (reset_streams w qs (x, g)).0)
    unfolding reset_streams
    kept [] x g r = inl refl
    kept (q ∷ qs) x g r =
        let (s, g') = Stream.reset (load q x) g in
        elim (store-IsReset q x g r) [
          | inl e ↦ elim (kept qs (store q s x) g' r) [
            | inl e' ↦ inl (e' ∙ e)
            | inr i ↦
                inr (subst (λ v. IsReset v (load r (reset_streams w qs (store q s x, g')).0)) e i)
          ]
          | inr i ↦ elim (kept qs (store q s x) g' r) [
            | inl e' ↦ inr (subst (IsReset (load r x)) (sym e') i)
            | inr j ↦ inr (IsReset-trans _ _ _ i j)
          ]
        ]

    end_of-IsReset :
        (qs : List Pointer) (x : World) (g : Generator) (r : Pointer)
        → IsReset (load r x) (load r (reset_streams w qs (x, g)).0)
        → (y : World) → (load r x ≡ load r y) ⊎ IsReset (load r y) (load r x)
        → IsReset (load r y) (load r (reset_streams w qs (x, g)).0)
    end_of-IsReset qs x g r h y (inl e) =
        subst (λ v. IsReset v (load r (reset_streams w qs (x, g)).0)) e h
    end_of-IsReset qs x g r h y (inr i) = IsReset-trans _ _ _ i h

    All-map :
        {P Q : Pointer → Type 0} (qs : List Pointer)
        → ((q : Pointer) → P q → Q q)
        → All P qs
        → All Q qs
    All-map [] f a = tt
    All-map (q ∷ qs) f (h, a) = (f q h, All-map qs f a)

    -- Let the event service be a memory for the streams. After the pass of `reset` over a list of
    -- streams, each stream of the list has no request counted and no cumulative probability, may
    -- generate again from its first request, and has its key, characteristics and distribution of
    -- before.
    pub reset_streams-IsReset :
        (qs : List Pointer) (x : World) (g : Generator)
        → All (λ q. IsReset (load q x) (load q (reset_streams w qs (x, g)).0)) qs
    unfolding reset_streams
    reset_streams-IsReset [] x g = tt
    reset_streams-IsReset (q ∷ qs) x g =
        let (s, g') = Stream.reset (load q x) g in
        let here : IsReset (load q x) (load q (store q s x)) =
          subst (IsReset (load q x)) (sym (load-store_same q s x)) (reset-IsReset (load q x) g) in
        (
          elim (kept qs (store q s x) g' q) [
            | inl e ↦ subst (IsReset (load q x)) (sym e) here
            | inr i ↦ IsReset-trans _ _ _ here i
          ],
          All-map qs (λ r h. end_of-IsReset qs (store q s x) g' r h x (store-IsReset q x g r))
              (reset_streams-IsReset qs (store q s x) g'),
        )
