-- ===== src/Service/Filling.antt =====
-- What `parseAndLoad` leaves in the service (trademgen/service/TRADEMGEN_Service.cpp).
use Prim.Native.String.{String}
use trademgen.Prelude.{
  ◌≡◌, refl, sym, subst, inl, inr, Bool, true, some, if◌then◌else◌, Bool-cases, All, ok,
}
use trademgen.Platform.{Platform}
use trademgen.DemandStruct.{DemandStruct}
use trademgen.Events.{EventService}
use trademgen.Parser.Demands.{perform_all}
use trademgen.Parser.Line.{DemandFile}
use trademgen.Parser.Meaning.{IsDistinct}
use trademgen.Parser.Loading.{tidy}
use trademgen.Parser.Files.{HasDates, Loads, parse_demand_file-Loads}
use trademgen.Service.Building.{
  Stdair, ServiceContext, clone_persistent_bom, clone_if_owned, parse_and_load,
}

module _ ⦃p : Platform⦄ (w : EventService) (stdair : Stdair w)
    (text_lt : String → String → Bool) where
  open p use {Generator}
  open w use {World}

  -- The world that the service ends with.
  abbrev pub copied : Bool → World → World
  copied own x = if own then stdair.clone_persistent x else x

  clone_if_owned-world :
      (s : ServiceContext w)
      → (t : ServiceContext w) × (clone_if_owned w stdair s ≡ ok (some t))
        × (t.context.world ≡ copied s.own_stdair_service s.context.world)
        × (t.context.uniform_generator ≡ s.context.uniform_generator)
        × (t.own_stdair_service ≡ s.own_stdair_service)
  unfolding clone_if_owned clone_persistent_bom
  clone_if_owned-world s = elim (Bool-cases s.own_stdair_service) [
    | inl t ↦ (
      record s {
        context = record {
          world = stdair.clone_persistent s.context.world;
          uniform_generator = s.context.uniform_generator;
        };
      },
      rw t refl,
      rw t refl,
      refl,
      refl,
    )
    | inr f ↦ (s, rw f refl, rw f refl, refl, refl)
  ]

  pub parse_and_load-Loads :
      (f : DemandFile) (staged : DemandStruct) (s : ServiceContext w)
      → All (HasDates text_lt) f.demands
      → All (IsDistinct text_lt) f.demands
      → tidy text_lt staged ≡ staged
      → ((e : DemandStruct)
          → tidy text_lt e ≡ e
          → (e' : DemandStruct) × (perform_all text_lt f.unfinished e ≡ ok e'))
      → (t : ServiceContext w) × (x : World) × (parse_and_load w stdair text_lt true true f staged
            (some s)
          ≡ ok (some t))
        × Loads text_lt w s.pos_probability_mass f.demands
            (s.context.world, s.context.uniform_generator)
            (x, t.context.uniform_generator)
        × (t.context.world ≡ copied s.own_stdair_service x)
        × (t.own_stdair_service ≡ s.own_stdair_service)
  unfolding parse_and_load
  parse_and_load-Loads f staged s dates up is_tidy unfinished =
      let (e, done, parsed, loads) =
        parse_demand_file-Loads text_lt w s.pos_probability_mass f staged
          (s.context.world, s.context.uniform_generator) dates up is_tidy unfinished in
      let u : ServiceContext w = record s {
        context = record { world = done.0; uniform_generator = done.1 };
      } in
      let (t, cloned, world, generator, owned) = clone_if_owned-world u in
      (
        t,
        done.0,
        rw parsed cloned,
        subst
            (λ g.
              Loads text_lt w s.pos_probability_mass f.demands
                (s.context.world, s.context.uniform_generator) (done.0, g))
            (sym generator) loads,
        world,
        owned,
      )
