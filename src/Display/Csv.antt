-- ===== src/Display/Csv.antt =====
-- `BomDisplay::csvDisplay` (trademgen/bom/BomDisplay.cpp): a header, and a block for each demand
-- stream. The flags of the output stream, which it saves, are not changed by what it writes.
use Prim.Native.String.{String, ◌++◌ as str_append}
use trademgen.Prelude.{
  ◌≡◌, refl, inl, inr, not, List, [], ◌∷◌, map, if◌then◌else◌, Bool-cases, Result, ok, ◌>>=◌,
}
use trademgen.Platform.{Platform}
use trademgen.Attribute.Categorical
use trademgen.Attribute.Categorical.{ProbabilityMassFunction}
use trademgen.Attribute.Categorical.Draw.{zero_mass}
use trademgen.Demand.{CharacteristicsInput, characteristics}
use trademgen.Stream.{DemandStream}
use trademgen.Events.{EventService, contents}
use trademgen.Display.{
  Printer, text_of, concat, line, characteristics_text, describe_characteristics, stream_text,
  display_stream,
}
use trademgen.Display.Attributes.{
  entries_text, cumulated, display_probability_mass-init, display_cumulative_distribution-init,
}

module _ ⦃p : Platform⦄ (out : Printer) where
  unfoldable pub csv_display_stream : DemandStream → Result String
  unfolding display_stream
  csv_display_stream s = do
    text ← display_stream out s
    ok (
        concat (
          "+++++++++++++++++++++++++++++++++++++++++++++++++\n" ∷ text
          ∷ "+++++++++++++++++++++++++++++++++++++++++++++++++\n" ∷ []))

  -- What a stream that was built by its constructors writes, from the maps that it was built from.
  abbrev characteristics_lines : CharacteristicsInput → String
  characteristics_lines i =
      characteristics_text out (characteristics i) (entries_text out out.real i.arrival_pattern)
        (entries_text out text_of (cumulated zero_mass i.pos_prob_mass))
        (entries_text out text_of (cumulated zero_mass i.channel_prob_mass))
        (entries_text out text_of (cumulated zero_mass i.trip_type_prob_mass))
        (entries_text out out.integer (cumulated zero_mass i.stay_duration_prob_mass))
        (entries_text out text_of (cumulated zero_mass i.frequent_flyer_prob_mass))
        (entries_text out out.integer i.preferred_departure_time)
        (entries_text out out.real i.value_of_time)

  describe_characteristics-lines :
      (i : CharacteristicsInput)
      → describe_characteristics out (characteristics i) ≡ ok (characteristics_lines i)
  unfolding describe_characteristics characteristics
  describe_characteristics-lines i =
      rw
        (
          display_cumulative_distribution-init out out.real i.arrival_pattern,
          display_probability_mass-init out text_of i.pos_prob_mass,
          display_probability_mass-init out text_of i.channel_prob_mass,
          display_probability_mass-init out text_of i.trip_type_prob_mass,
          display_probability_mass-init out out.integer i.stay_duration_prob_mass,
          display_probability_mass-init out text_of i.frequent_flyer_prob_mass,
          display_cumulative_distribution-init out out.integer i.preferred_departure_time,
          display_cumulative_distribution-init out out.real i.value_of_time,
        )
        refl

  -- The stream holds what its constructors made of the maps.
  pub record IsBuilt (s : DemandStream) : Type 0 where
    pub input : CharacteristicsInput
    pub default_pos : ProbabilityMassFunction String
    pub characteristics_as : s.demand_characteristics ≡ characteristics input
    pub pos_as : s.pos_pro_mass ≡ Categorical.init default_pos

  abbrev pub block : (s : DemandStream) → IsBuilt s → String
  block s b = concat (
      "+++++++++++++++++++++++++++++++++++++++++++++++++\n"
      ∷ stream_text out s (characteristics_lines b.input)
          (entries_text out text_of (cumulated zero_mass b.default_pos))
      ∷ "+++++++++++++++++++++++++++++++++++++++++++++++++\n"
      ∷ [])

  csv_display_stream-block :
      (s : DemandStream) (b : IsBuilt s) → csv_display_stream s ≡ ok (block s b)
  unfolding csv_display_stream
  csv_display_stream-block s b =
      rw
        (
          b.characteristics_as,
          b.pos_as,
          describe_characteristics-lines b.input,
          display_probability_mass-init out text_of b.default_pos,
        )
        refl

  module _ (w : EventService) where
    open w use {World, Pointer, list, load, has_list, describe_key}

    -- The loop over the list.
    pub csv_blocks : List Pointer → World → Result String
    unfolding csv_display_stream
    csv_blocks [] x = ok ""
    csv_blocks (q ∷ qs) x = do
      here ← csv_display_stream (load q x)
      rest ← csv_blocks qs x
      ok (str_append here rest)

    unfoldable pub header : World → String
    header x = concat (
        "\n"
        ∷ "===============================================================\n"
        ∷ line "EventQueue: " (describe_key x)
        ∷ "===============================================================\n"
        ∷ [])

    unfoldable pub csv_display : World → Result String
    unfolding csv_blocks header
    csv_display x =
        let blocks = csv_blocks (list x) x in
        if not (has_list x)
        then ok (header x)
        else (do text ← blocks; ok (str_append (header x) text))

    abbrev AllBuilt : List DemandStream → Type 0
    AllBuilt [] = Unit
    AllBuilt (s ∷ ss) = IsBuilt s × AllBuilt ss

    abbrev blocks_text : (ss : List DemandStream) → AllBuilt ss → String
    blocks_text [] b = ""
    blocks_text (s ∷ ss) (b, bs) = str_append (block s b) (blocks_text ss bs)

    csv_blocks-text :
        (qs : List Pointer) (x : World) (b : AllBuilt (map (λ q. load q x) qs))
        → csv_blocks qs x ≡ ok (blocks_text (map (λ q. load q x) qs) b)
    unfolding csv_blocks
    csv_blocks-text [] x b = refl
    csv_blocks-text (q ∷ qs) x (b, bs) =
        rw (csv_display_stream-block (load q x) b, csv_blocks-text qs x bs) refl

    -- Let the streams of the event service be built by their constructors from maps. Then
    -- `csvDisplay` never throws. It writes the header, and behind it, where the service has a list of
    -- streams, a block for each of them, in the order of the list, with the entries of the maps that
    -- it was built from: the points of the cumulative distributions, and of the others each value with
    -- a positive mass and the sum of the positive masses up to it.
    pub csv_display-blocks :
        (x : World) (b : AllBuilt (contents w x))
        → csv_display x
          ≡ ok (
              if has_list x then str_append (header x) (blocks_text (contents w x) b) else header x)
    unfolding csv_display contents
    csv_display-blocks x b = elim (Bool-cases (has_list x)) [
      | inl t ↦ rw (t, csv_blocks-text (list x) x b) refl
      | inr f ↦ rw f refl
    ]
