-- ===== src/Parser/Created.antt =====
-- The streams that the event service holds once the demand file is loaded: `generateDemand`
-- (trademgen/command/DemandParser.cpp) with `createDemandCharacteristics`.
use Prim.Native.String.{String}
use trademgen.Prelude.{◌≡◌, Bool, List, [], ◌∷◌, ◌++◌}
use trademgen.Platform.{Platform}
use trademgen.DemandStruct.{DemandStruct}
use trademgen.Stream.{DemandStream}
use trademgen.Manager.Created.{Streams}
use trademgen.Parser.Line.{DemandLine}
use trademgen.Parser.Meaning.{Reads}

module _ ⦃p : Platform⦄ (text_lt : String → String → Bool) where
  open p use {Generator, days_from}

  -- The streams of the demands, in the order of their lines, each of a demand that says what its
  -- line says.
  abbrev pub FileStreams : List DemandLine → List DemandStream → Type 0
  FileStreams [] ss = ss ≡ []
  FileStreams (l ∷ lines) ss =
      (e : DemandStruct) × Reads text_lt l e
      × ((here : List DemandStream) × (rest : List DemandStream) × (ss ≡ here ++ rest)
          × Streams e (days_from e.date_range.begin e.date_range.end) here
          × FileStreams lines rest)
