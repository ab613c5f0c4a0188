-- ===== src/Parser/Loading.antt =====
-- A demand file as a sequence of demands (trademgen/command/DemandParserHelper.cpp): what the staging
-- structure holds when the streams of a line are created.
use Prim.Native.String.{String}
use trademgen.Prelude.{
  ◌≡◌, refl, sym, ap, ◌∙◌, subst, Bool, true, some, List, [], ◌∷◌, ◌++◌, All, ok,
}
use trademgen.Prelude.Int.{pos}
use trademgen.Platform.{Platform}
use trademgen.DemandStruct.{DemandStruct, get_date}
use trademgen.Parser.{Action, perform}
use trademgen.Parser.Demands.{perform_all}
use trademgen.Parser.Line.{
  Pairs, DemandLine, pair_actions, pos_entry, channel_entry, trip_entry, stay_entry, ff_entry,
  time_entry, time_value_entry, dtd_entry, head_actions, fee_actions, param_actions, line_actions,
}
use trademgen.Parser.Pairs.{
  inserted, Distinct, Differs, All-nothing, entries, Distribution, IsDistribution, last_code,
  read_pairs, perform_all-append,
}
use trademgen.Parser.Reading.{
  pos_dist, channel_dist, trip_dist, stay_dist, ff_dist, time_dist, time_value_dist, dtd_dist,
  pos_dist-IsDistribution, channel_dist-IsDistribution, trip_dist-IsDistribution,
  stay_dist-IsDistribution, ff_dist-IsDistribution, time_dist-IsDistribution,
  time_value_dist-IsDistribution, dtd_dist-IsDistribution,
}
use trademgen.Parser.Meaning.{map_of, IsDistinct}

module _ ⦃p : Platform⦄ (text_lt : String → String → Bool) where
  open p use {Real, Date, Generator, DowStruct, calendar_date, next_day, dow_struct}

  -- Ready for a line: no distribution, no time staged.
  abbrev pub tidy : DemandStruct → DemandStruct
  tidy d = record d {
    pos_prob_dist = [];
    channel_prob_dist = [];
    trip_prob_dist = [];
    stay_prob_dist = [];
    ff_prob_dist = [];
    pref_dep_time_prob_dist = [];
    time_value_prob_dist = [];
    dtd_prob_dist = [];
    it_minutes = pos 0;
    it_seconds = pos 0;
  }

  abbrev fill : {K J : Type 0} → Distribution text_lt K J → Pairs K → DemandStruct → DemandStruct
  fill u ps d = u.put (last_code text_lt u ps.first ps.others) (map_of text_lt u ps) d

  abbrev head_demand : DemandLine → Date → Date → DemandStruct → DemandStruct
  head_demand l b e d = record d {
    it_year = l.end_date.year;
    it_month = l.end_date.month;
    it_day = l.end_date.day;
    it_seconds = pos 0;
    pref_dep_date_start = b;
    pref_dep_date_end = next_day e;
    date_range = record { begin = b; end = next_day e };
    dow = dow_struct l.dow_text;
    origin = l.origin_text;
    destination = l.destination_text;
    pref_cabin = l.cabin_text;
  }

  abbrev fee_demand : DemandLine → DemandStruct → DemandStruct
  fee_demand l d = record d {
    change_fee_prob = l.change_fees.0;
    change_fee_disutility = l.change_fees.1;
    non_refundable_prob = l.non_refundable.0;
    non_refundable_disutility = l.non_refundable.1;
  }

  -- The actions turn one demand into another.
  pub record Performs (actions : List Action) (d e : DemandStruct) : Type 0 where
    pub run : perform_all text_lt actions d ≡ ok e

  Performs-append :
      (xs : List Action) {ys : List Action} {d e f : DemandStruct}
      → Performs xs d e
      → Performs ys e f
      → Performs (xs ++ ys) d f
  Performs-append xs {ys} {d} h k = record {
    run = perform_all-append text_lt xs ys d h.run ∙ k.run;
  }

  module _ (l : DemandLine) (b e : Date) where
    abbrev to_ff : DemandStruct → DemandStruct
    to_ff d = fill (ff_dist text_lt) l.ff_pairs (
        fill (stay_dist text_lt) l.stay_pairs (
          fill (trip_dist text_lt) l.trip_pairs (
            fill (channel_dist text_lt) l.channel_pairs
              (fill (pos_dist text_lt) l.pos_pairs (head_demand l b e d)))))

    abbrev pub line_demand : DemandStruct → DemandStruct
    line_demand d =
        record (fill (dtd_dist text_lt) l.dtd_pairs (
          fill (time_value_dist text_lt) l.time_value_pairs
            (record (fill (time_dist text_lt) l.time_pairs (fee_demand l (to_ff d))) {
              min_wtp = l.wtp;
            }))) { demand_mean = l.mean; demand_std_dev = l.std_dev }

    read_head :
        (d : DemandStruct)
        → calendar_date l.start_date.year l.start_date.month l.start_date.day ≡ some b
        → calendar_date l.end_date.year l.end_date.month l.end_date.day ≡ some e
        → perform_all text_lt (head_actions l) d ≡ ok (head_demand l b e d)
    unfolding perform_all perform get_date
    read_head d starts ends = rw (starts, ends) refl

    read_fees : (d : DemandStruct) → perform_all text_lt (fee_actions l) d ≡ ok (fee_demand l d)
    unfolding perform_all perform
    read_fees d = refl

    read_wtp :
        (d : DemandStruct)
        → perform_all text_lt (Action.store_wtp l.wtp ∷ []) d ≡ ok (record d { min_wtp = l.wtp })
    unfolding perform_all perform
    read_wtp d = refl

    read_params :
        (d : DemandStruct)
        → perform_all text_lt (param_actions l) d
          ≡ ok (record d { demand_mean = l.mean; demand_std_dev = l.std_dev })
    unfolding perform_all perform
    read_params d = refl

    -- The pairs of one distribution, where it is empty.
    fill_pairs :
        {K J : Type 0} (u : Distribution text_lt K J) {Ready : DemandStruct → Type 0}
        → IsDistribution text_lt u Ready
        → (ps : Pairs K) (d : DemandStruct) → Ready d
        → u.get d ≡ []
        → ((u.refuses ≡ true) → Distinct u.below (entries text_lt u ps.first ps.others))
        → perform_all text_lt (pair_actions u.entry ps) d ≡ ok (fill u ps d)
    fill_pairs u is ps d ready empty distinct =
        let es = entries text_lt u ps.first ps.others in
        read_pairs text_lt u is ps.first ps.others d ready (λ h. (
          subst (λ m. All (λ e. Differs u.below (e.0) m) es) (sym empty) (All-nothing u.below es),
          distinct h,
        ))
        ∙ ap (λ m. ok (u.put (last_code text_lt u ps.first ps.others) (inserted u.below m es) d))
            empty

    pub read_line :
        (d : DemandStruct)
        → calendar_date l.start_date.year l.start_date.month l.start_date.day ≡ some b
        → calendar_date l.end_date.year l.end_date.month l.end_date.day ≡ some e
        → IsDistinct text_lt l
        → Performs (line_actions l) (tidy d) (line_demand (tidy d))
    unfolding line_actions
    read_line d starts ends up =
        let d0 = head_demand l b e (tidy d) in
        let d1 = fill (pos_dist text_lt) l.pos_pairs d0 in
        let d2 = fill (channel_dist text_lt) l.channel_pairs d1 in
        let d3 = fill (trip_dist text_lt) l.trip_pairs d2 in
        let d4 = fill (stay_dist text_lt) l.stay_pairs d3 in
        let d5 = fill (ff_dist text_lt) l.ff_pairs d4 in
        let d6 = fee_demand l d5 in
        let d7 = fill (time_dist text_lt) l.time_pairs d6 in
        let d8 = record d7 { min_wtp = l.wtp } in
        let d9 = fill (time_value_dist text_lt) l.time_value_pairs d8 in
        Performs-append (head_actions l) (record { run = read_head (tidy d) starts ends })
          (Performs-append (pair_actions pos_entry l.pos_pairs)
            (record {
              run =
                  fill_pairs (pos_dist text_lt) (pos_dist-IsDistribution text_lt) l.pos_pairs d0 tt
                    refl (λ h. up.pos_once);
            })
            (Performs-append (pair_actions channel_entry l.channel_pairs)
              (record {
                run =
                    fill_pairs (channel_dist text_lt) (channel_dist-IsDistribution text_lt)
                      l.channel_pairs d1 tt refl (λ h. up.channel_once);
              })
              (Performs-append (pair_actions trip_entry l.trip_pairs)
                (record {
                  run =
                      fill_pairs (trip_dist text_lt) (trip_dist-IsDistribution text_lt) l.trip_pairs
                        d2 tt refl (λ h. up.trip_once);
                })
                (Performs-append (pair_actions stay_entry l.stay_pairs)
                  (record {
                    run =
                        fill_pairs (stay_dist text_lt) (stay_dist-IsDistribution text_lt)
                          l.stay_pairs d3 tt refl (λ h. up.stay_once);
                  })
                  (Performs-append (pair_actions ff_entry l.ff_pairs)
                    (record {
                      run =
                          fill_pairs (ff_dist text_lt) (ff_dist-IsDistribution text_lt) l.ff_pairs
                            d4 tt refl (λ h. up.ff_once);
                    })
                    (Performs-append (fee_actions l) (record { run = read_fees d5 })
                      (Performs-append (pair_actions time_entry l.time_pairs)
                        (record {
                          run =
                              fill_pairs (time_dist text_lt) (time_dist-IsDistribution text_lt)
                                l.time_pairs d6 (refl, refl) refl (λ h. absurd (cc));
                        })
                        (Performs-append (Action.store_wtp l.wtp ∷ [])
                          (record { run = read_wtp d7 })
                          (Performs-append (pair_actions time_value_entry l.time_value_pairs)
                            (record {
                              run =
                                  fill_pairs (time_value_dist text_lt)
                                    (time_value_dist-IsDistribution text_lt) l.time_value_pairs d8
                                    tt refl (λ h. absurd (cc));
                            })
                            (Performs-append (pair_actions dtd_entry l.dtd_pairs)
                              (record {
                                run =
                                    fill_pairs (dtd_dist text_lt) (dtd_dist-IsDistribution text_lt)
                                      l.dtd_pairs d9 tt refl (λ h. absurd (cc));
                              })
                              (record {
                                run = read_params (fill (dtd_dist text_lt) l.dtd_pairs d9);
                              })))))))))))
