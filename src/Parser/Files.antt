-- ===== src/Parser/Files.antt =====
-- The demand file as a whole (trademgen/command/DemandParserHelper.cpp and DemandParser.cpp): the
-- streams of each of its demands are created, in their order.
use Prim.Native.String.{String}
use trademgen.Prelude.{◌≡◌, refl, sym, ap, ◌∙◌, Bool, true, some, List, [], ◌∷◌, All, ok}
use trademgen.Platform.{Platform}
use trademgen.Attribute.Categorical.{CategoricalAttributeLite}
use trademgen.DemandStruct.{DemandStruct}
use trademgen.Events.{EventService}
use trademgen.Manager.Creation.{create_demand_characteristics}
use trademgen.Parser.{clear_distributions, do_end_demand}
use trademgen.Parser.Demands.{perform_all}
use trademgen.Parser.Line.{
  DemandLine, DemandFile, line_actions, load_line, load_lines, generate_demand, parse_demand_file,
}
use trademgen.Parser.Meaning.{IsDistinct, Reads}
use trademgen.Parser.Loading.{tidy, line_demand, read_line}

module _ ⦃p : Platform⦄ (text_lt : String → String → Bool) where
  open p use {Date, Generator, calendar_date}

  -- The two dates of the line are in the calendar.
  abbrev pub HasDates : DemandLine → Type 0
  HasDates l =
      (b : Date) × (e : Date) × (calendar_date l.start_date.year l.start_date.month l.start_date.day
        ≡ some b)
      × (calendar_date l.end_date.year l.end_date.month l.end_date.day ≡ some e)

  line_demand-Reads :
      (l : DemandLine) (b e : Date) (d : DemandStruct)
      → calendar_date l.start_date.year l.start_date.month l.start_date.day ≡ some b
      → calendar_date l.end_date.year l.end_date.month l.end_date.day ≡ some e
      → Reads text_lt l (line_demand text_lt l b e d)
  line_demand-Reads l b e d starts ends = record {
    begin = starts;
    end = (e, ends, refl);
    dow = refl;
    places = (refl, refl);
    cabin = refl;
    pos_map = refl;
    channel_map = refl;
    trip_map = refl;
    stay_map = refl;
    ff_map = refl;
    fees = (refl, refl, refl, refl);
    time_map = refl;
    least_wtp = refl;
    time_value_map = refl;
    dtd_map = refl;
    params = (refl, refl);
  }

  module _ (w : EventService) (default_pos : CategoricalAttributeLite String) where
    -- The streams of each demand are created, of a demand that says what its line says.
    abbrev pub Loads : List DemandLine → w.World × Generator → w.World × Generator → Type 0
    Loads [] state done = state ≡ done
    Loads (l ∷ lines) (x, g) done =
        (e : DemandStruct) × Reads text_lt l e
        × Loads lines (create_demand_characteristics w x g default_pos e) done

    load_line-done :
        (l : DemandLine) (b e : Date) (d : DemandStruct) (state : w.World × Generator)
        → calendar_date l.start_date.year l.start_date.month l.start_date.day ≡ some b
        → calendar_date l.end_date.year l.end_date.month l.end_date.day ≡ some e
        → IsDistinct text_lt l
        → tidy text_lt d ≡ d
        → load_line text_lt w default_pos l (d, state)
          ≡ ok (
            clear_distributions (line_demand text_lt l b e (tidy text_lt d)),
            create_demand_characteristics w
                (state.0)
                (state.1)
                default_pos
                (line_demand text_lt l b e (tidy text_lt d)),
          )
    unfolding load_line do_end_demand
    load_line-done l b e d state starts ends up is_tidy =
        let read = (read_line text_lt l b e d starts ends up).run in
        rw (ap (perform_all text_lt (line_actions l)) (sym is_tidy) ∙ read) refl

    load_lines-Loads :
        (lines : List DemandLine) (d : DemandStruct) (state : w.World × Generator)
        → All HasDates lines
        → All (IsDistinct text_lt) lines
        → tidy text_lt d ≡ d
        → (e : DemandStruct) × (done : w.World × Generator) × (load_lines text_lt w default_pos
              lines
              (d, state)
            ≡ ok (e, done))
          × (tidy text_lt e ≡ e)
          × Loads lines state done
    unfolding load_lines clear_distributions
    load_lines-Loads [] d state dates up is_tidy = (d, state, refl, is_tidy, refl)
    load_lines-Loads (l ∷ lines) d (x, g) ((b, e, starts, ends), dates) (up, ups) is_tidy =
        let t = line_demand text_lt l b e (tidy text_lt d) in
        let here = load_line-done l b e d (x, g) starts ends up is_tidy in
        let (d', done, rest, is_tidy', loads) =
          load_lines-Loads lines (clear_distributions t)
            (create_demand_characteristics w x g default_pos t) dates ups refl in
        (
          d',
          done,
          rw here rest,
          is_tidy',
          (t, line_demand-Reads l b e (tidy text_lt d) starts ends, loads),
        )

    pub parse_demand_file-Loads :
        (f : DemandFile) (d : DemandStruct) (state : w.World × Generator)
        → All HasDates f.demands
        → All (IsDistinct text_lt) f.demands
        → tidy text_lt d ≡ d
        → ((e : DemandStruct)
            → tidy text_lt e ≡ e
            → (e' : DemandStruct) × (perform_all text_lt f.unfinished e ≡ ok e'))
        → (e : DemandStruct) × (done : w.World × Generator) × (parse_demand_file text_lt w
              default_pos true true f
              (d, state)
            ≡ ok (e, done))
          × Loads f.demands state done
    unfolding parse_demand_file generate_demand
    parse_demand_file-Loads f d state dates up is_tidy unfinished =
        let (e, done, loaded, is_tidy', loads) =
          load_lines-Loads f.demands d state dates up is_tidy in
        let (e', performed) = unfinished e is_tidy' in
        (e', done, rw (loaded, performed) refl, loads)
