-- ===== src/Parser/Reading.antt =====
-- What a line of the demand file leaves in the staging structure
-- (trademgen/command/DemandParserHelper.cpp).
use Prim.Native.String.{String}
use trademgen.Prelude.{ℕ, ◌≡◌, refl, Bool, true, false, Option, none, some, ok}
use trademgen.Prelude.Int.{ℤ, pos, lt_ℤ, ◌-ℤ◌}
use trademgen.Platform.{Platform}
use trademgen.DemandStruct.{DemandStruct, get_time}
use trademgen.Parser.{insert_new, perform}
use trademgen.Parser.Demands.{perform_all}
use trademgen.Parser.Line.{
  ClockTime, pos_entry, channel_entry, trip_entry, stay_entry, ff_entry, time_entry,
  time_value_entry, dtd_entry,
}
use trademgen.Parser.Maps.{insert}
use trademgen.Parser.Pairs.{Distribution, IsDistribution}

module _ ⦃p : Platform⦄ (text_lt : String → String → Bool) where
  open p use {
    Real, Date, Duration, lt, sub, decimal, of_int, total_seconds, hours, minutes, seconds, plus,
    calendar_date, next_day, dow_struct, trunc,
  }

  -- The minutes and the seconds that are missing are 0.
  abbrev pub or_nought : Option ℤ → ℤ
  or_nought none = pos 0
  or_nought (some n) = n

  abbrev pub time_of : ClockTime → Duration
  time_of t =
      plus (plus (hours t.hour) (minutes (or_nought t.minute))) (seconds (or_nought t.second))

  abbrev pub days_before : ℤ → Real
  days_before n = sub (decimal (pos 0) 0) (of_int n)

  -- The eight distributions of a demand.
  abbrev pub pos_dist : Distribution text_lt String String
  pos_dist = record {
    below = text_lt;
    key = λ k. k;
    entry = pos_entry;
    refuses = true;
    get = λ d. d.pos_prob_dist;
    put = λ k m d. record d { it_pos_code = k; pos_prob_dist = m };
  }

  abbrev pub channel_dist : Distribution text_lt String String
  channel_dist = record {
    below = text_lt;
    key = λ k. k;
    entry = channel_entry;
    refuses = true;
    get = λ d. d.channel_prob_dist;
    put = λ k m d. record d { it_channel_code = k; channel_prob_dist = m };
  }

  abbrev pub trip_dist : Distribution text_lt String String
  trip_dist = record {
    below = text_lt;
    key = λ k. k;
    entry = trip_entry;
    refuses = true;
    get = λ d. d.trip_prob_dist;
    put = λ k m d. record d { it_trip_code = k; trip_prob_dist = m };
  }

  abbrev pub stay_dist : Distribution text_lt ℕ ℤ
  stay_dist = record {
    below = lt_ℤ;
    key = λ k. pos k;
    entry = stay_entry;
    refuses = true;
    get = λ d. d.stay_prob_dist;
    put = λ k m d. record d { it_stay_duration = pos k; stay_prob_dist = m };
  }

  abbrev pub ff_dist : Distribution text_lt String String
  ff_dist = record {
    below = text_lt;
    key = λ k. k;
    entry = ff_entry;
    refuses = true;
    get = λ d. d.ff_prob_dist;
    put = λ k m d. record d { it_ff_code = k; ff_prob_dist = m };
  }

  abbrev pub time_dist : Distribution text_lt ClockTime ℤ
  time_dist = record {
    below = lt_ℤ;
    key = λ k. total_seconds (time_of k);
    entry = time_entry;
    refuses = false;
    get = λ d. d.pref_dep_time_prob_dist;
    put = λ k m d. record d {
      it_hours = k.hour;
      it_minutes = pos 0;
      it_seconds = pos 0;
      it_pref_dep_time = time_of k;
      pref_dep_time_prob_dist = m;
    };
  }

  abbrev pub time_value_dist : Distribution text_lt Real Real
  time_value_dist = record {
    below = lt;
    key = λ k. k;
    entry = time_value_entry;
    refuses = false;
    get = λ d. d.time_value_prob_dist;
    put = λ k m d. record d { it_time_value = k; time_value_prob_dist = m };
  }

  abbrev pub dtd_dist : Distribution text_lt Real Real
  dtd_dist = record {
    below = lt;
    key = λ k. days_before (trunc k);
    entry = dtd_entry;
    refuses = false;
    get = λ d. d.dtd_prob_dist;
    put = λ k m d. record d { it_dtd = trunc k; dtd_prob_dist = m };
  }

  -- Minutes and seconds that are missing are read as they were staged.
  abbrev pub NoTime : DemandStruct → Type 0
  NoTime d = (d.it_minutes ≡ pos 0) × (d.it_seconds ≡ pos 0)

  abbrev pub Always : DemandStruct → Type 0
  Always d = Unit

  pub pos_dist-IsDistribution : IsDistribution text_lt pos_dist Always
  unfolding perform_all perform insert_new
  pos_dist-IsDistribution = record {
    get-put = λ k m d. refl;
    put-put = λ k l m n d. refl;
    ready-put = λ k m d. tt;
    perform-entry = λ k r d ready h. rw (h refl) refl;
  }

  pub channel_dist-IsDistribution : IsDistribution text_lt channel_dist Always
  unfolding perform_all perform insert_new ◌-ℤ◌
  channel_dist-IsDistribution = record {
    get-put = λ k m d. refl;
    put-put = λ k l m n d. refl;
    ready-put = λ k m d. tt;
    perform-entry = λ k r d ready h. rw (h refl) refl;
  }

  pub trip_dist-IsDistribution : IsDistribution text_lt trip_dist Always
  unfolding perform_all perform insert_new ◌-ℤ◌
  trip_dist-IsDistribution = record {
    get-put = λ k m d. refl;
    put-put = λ k l m n d. refl;
    ready-put = λ k m d. tt;
    perform-entry = λ k r d ready h. rw (h refl) refl;
  }

  pub ff_dist-IsDistribution : IsDistribution text_lt ff_dist Always
  unfolding perform_all perform insert_new ◌-ℤ◌
  ff_dist-IsDistribution = record {
    get-put = λ k m d. refl;
    put-put = λ k l m n d. refl;
    ready-put = λ k m d. tt;
    perform-entry = λ k r d ready h. rw (h refl) refl;
  }

  pub stay_dist-IsDistribution : IsDistribution text_lt stay_dist Always
  unfolding perform_all perform insert_new ◌-ℤ◌
  stay_dist-IsDistribution = record {
    get-put = λ k m d. refl;
    put-put = λ k l m n d. refl;
    ready-put = λ k m d. tt;
    perform-entry = λ k r d ready h. rw (h refl) refl;
  }

  pub time_value_dist-IsDistribution : IsDistribution text_lt time_value_dist Always
  unfolding perform_all perform insert_new ◌-ℤ◌
  time_value_dist-IsDistribution = record {
    get-put = λ k m d. refl;
    put-put = λ k l m n d. refl;
    ready-put = λ k m d. tt;
    perform-entry = λ k r d ready h. refl;
  }

  pub dtd_dist-IsDistribution : IsDistribution text_lt dtd_dist Always
  unfolding perform_all perform insert_new ◌-ℤ◌
  dtd_dist-IsDistribution = record {
    get-put = λ k m d. refl;
    put-put = λ k l m n d. refl;
    ready-put = λ k m d. tt;
    perform-entry = λ k r d ready h. refl;
  }

  pub time_dist-IsDistribution : IsDistribution text_lt time_dist NoTime
  unfolding perform_all perform insert_new get_time
  time_dist-IsDistribution = record {
    get-put = λ k m d. refl;
    put-put = λ k l m n d. refl;
    ready-put = λ k m d. (refl, refl);
    perform-entry = λ k r d ready h. read k.hour k.minute k.second r d ready;
  }
    where
      read :
          (h : ℤ) (x y : Option ℤ) (r : Real) (d : DemandStruct)
          → NoTime d
          → let k : ClockTime = record { hour = h; minute = x; second = y } in
            perform_all text_lt (time_entry k r) d
            ≡ ok (time_dist.put k (insert lt_ℤ (time_dist.key k) r d.pref_dep_time_prob_dist).0 d)
      read h none none r d (m, s) = rw (m, s) refl
      read h none (some y) r d (m, s) = rw m refl
      read h (some x) none r d (m, s) = rw s refl
      read h (some x) (some y) r d (m, s) = refl
