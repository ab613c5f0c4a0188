-- ===== src/Examples/Files.antt =====
-- The theorem on demand files, at a file with two demands and the beginning of a third.
use Prim.Native.String.{String}
use trademgen.Prelude.{◌≡◌, refl, inl, inr, true, none, some, [], ◌∷◌, ok}
use trademgen.Prelude.Int.{pos}
use trademgen.DemandStruct.{DemandStruct}
use trademgen.Attribute.Categorical.{CategoricalAttributeLite}
use trademgen.Parser.{Action, perform}
use trademgen.Parser.Demands.{perform_all}
use trademgen.Parser.Line.{DemandLine, DemandFile}
use trademgen.Parser.Meaning.{IsDistinct}
use trademgen.Parser.Loading.{tidy}
use trademgen.Examples.Setting.{plain}
use trademgen.Examples.Services.{table, world, context}
use trademgen.Service.Building.{Stdair, ServiceContext}
use trademgen.Examples.Parsing.{rank, text_lt}

abbrev pub line : DemandLine ⦃p = plain⦄
line = record {
  start_date = record { year = 2010; month = 2; day = 8 };
  end_date = record { year = 2010; month = 2; day = 9 };
  dow_text = "1111111";
  origin_text = "SIN";
  destination_text = "BKK";
  cabin_text = "Y";
  pos_pairs = record { first = ("SIN", pos 70); others = ("BKK", pos 20) ∷ ("row", pos 10) ∷ [] };
  channel_pairs = record { first = ("DF", pos 100); others = [] };
  trip_pairs = record { first = ("RO", pos 60); others = ("RI", pos 20) ∷ ("OW", pos 20) ∷ [] };
  stay_pairs = record { first = (0, pos 10); others = (6, pos 90) ∷ [] };
  ff_pairs = record { first = ("P", pos 100); others = [] };
  change_fees = (pos 50, pos 5000);
  non_refundable = (pos 50, pos 5000);
  time_pairs = record {
    first = (record { hour = pos 6; minute = none; second = none }, pos 0);
    others = (record { hour = pos 7; minute = some (pos 30); second = none }, pos 10) ∷ [];
  };
  wtp = pos 20_000;
  time_value_pairs = record { first = (pos 1500, pos 0); others = (pos 6000, pos 100) ∷ [] };
  dtd_pairs = record {
    first = (pos 33_000, pos 0);
    others = (pos 4_050, pos 20) ∷ (pos 100, pos 100) ∷ [];
  };
  mean = pos 1000;
  std_dev = pos 100;
}

abbrev pub file : DemandFile ⦃p = plain⦄
file = record {
  demands = line ∷ line ∷ [];
  unfinished = Action.assign_year 2010 ∷ Action.assign_month 2 ∷ [];
}

pub line-IsDistinct : IsDistinct ⦃p = plain⦄ text_lt line
unfolding rank
line-IsDistinct = record {
  pos_once = ((inl refl, (inr refl, tt)), ((inr refl, tt), (tt, tt)));
  channel_once = (tt, tt);
  trip_once = ((inl refl, (inl refl, tt)), ((inl refl, tt), (tt, tt)));
  stay_once = ((inr refl, tt), (tt, tt));
  ff_once = (tt, tt);
}

abbrev pub default_pos : CategoricalAttributeLite ⦃p = plain⦄ String
default_pos = record { size = 0; cumulative_distribution = []; value_array = [] }

pub unfinished_total :
    (e : DemandStruct ⦃p = plain⦄)
    → tidy ⦃p = plain⦄ text_lt e ≡ e
    → (e' : DemandStruct ⦃p = plain⦄) × (perform_all ⦃p = plain⦄ text_lt file.unfinished e ≡ ok e')
unfolding perform_all perform
unfinished_total e h = (_, refl)

-- The copy of the tree drops the events.
abbrev pub stdair : Stdair ⦃p = plain⦄ table
stdair = record {
  new_services = world;
  build_sample = λ x. x;
  clone_persistent = λ x. record x { events = [] };
}

abbrev pub started : ServiceContext ⦃p = plain⦄ table
started = record {
  context = context;
  own_stdair_service = true;
  pos_probability_mass = default_pos;
}
