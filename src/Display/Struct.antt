-- ===== src/Display/Struct.antt =====
-- `DemandStruct::describe` (trademgen/bom/DemandStruct.cpp).
use Prim.Native.String.{String, ◌++◌ as str_append}
use Prim.Native.Nat.{◌%◌, ◌^◌}
use text.Mathlib.TextLemmas.{nil-append as str_nil-append}
use trademgen.Prelude.{ℕ, suc, ◌+◌, ◌<◌, ◌≡◌, refl, false, List, [], ◌∷◌, arith, ◌==◌, length}
use trademgen.Platform.{Platform}
use trademgen.DemandStruct.{DemandStruct}
use trademgen.Display.{Printer, concat, text_of, entry_text, separator}
use trademgen.Display.Attributes.{entries_text, tail_text}

module _ ⦃p : Platform⦄ (out : Printer) where
  open p use {Real}

  -- The loop over a map. The index is an `unsigned short`.
  pub map_entries : {T : Type 0} → (T → String) → ℕ → List (T × Real) → String
  map_entries show idx [] = ""
  map_entries show idx ((v, c) ∷ es) =
      str_append (separator idx)
        (str_append (entry_text out show v c) (map_entries show (suc idx % 2 ^ 16) es))

  unfoldable pub describe_struct : DemandStruct → String
  unfolding map_entries
  describe_struct d = concat (
      out.date_period d.date_range.begin d.date_range.end
      ∷ " - "
      ∷ out.dow d.dow
      ∷ " "
      ∷ d.origin
      ∷ "-"
      ∷ d.destination
      ∷ " "
      ∷ d.pref_cabin
      ∷ ", N("
      ∷ out.real d.demand_mean
      ∷ ", "
      ∷ out.real d.demand_std_dev
      ∷ "); "
      ∷ map_entries text_of 0 d.pos_prob_dist
      ∷ "; "
      ∷ map_entries text_of 0 d.channel_prob_dist
      ∷ "; "
      ∷ map_entries text_of 0 d.trip_prob_dist
      ∷ "; "
      ∷ map_entries out.integer 0 d.stay_prob_dist
      ∷ "; "
      ∷ map_entries text_of 0 d.ff_prob_dist
      ∷ "; "
      ∷ out.real d.change_fee_prob
      ∷ "; "
      ∷ "; "
      ∷ out.real d.non_refundable_prob
      ∷ "; "
      ∷ map_entries out.integer 0 d.pref_dep_time_prob_dist
      ∷ "; "
      ∷ out.real d.min_wtp
      ∷ "; "
      ∷ map_entries out.real 0 d.time_value_prob_dist
      ∷ "; "
      ∷ map_entries out.real 0 d.dtd_prob_dist
      ∷ "; "
      ∷ [])

  map_entries-tail :
      {T : Type 0} (show : T → String) (idx : ℕ) (es : List (T × Real))
      → suc idx + length es < 2 ^ 16
      → map_entries show (suc idx) es ≡ tail_text out show es
  unfolding map_entries
  map_entries-tail show idx [] h = refl
  map_entries-tail show idx ((v, c) ∷ es) h =
      let apart : (suc idx == 0) ≡ false = ground arith in
      let next : suc (suc idx) % 2 ^ 16 ≡ suc (suc idx) = omega arith in
      rw (apart, next, map_entries-tail show (suc idx) es (omega arith)) refl

  -- A map of fewer than 65,535 entries is written as an attribute writes its points.
  pub map_entries-text :
      {T : Type 0} (show : T → String) (es : List (T × Real))
      → length es < 65535
      → map_entries show 0 es ≡ entries_text out show es
  unfolding map_entries
  map_entries-text show [] h = refl
  map_entries-text show ((v, c) ∷ es) h =
      let next : suc 0 % 2 ^ 16 ≡ 1 = omega arith in
      rw (next, map_entries-tail show 0 es (omega arith)) (str_nil-append _)
