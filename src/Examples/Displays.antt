-- ===== src/Examples/Displays.antt =====
-- The theorems on the texts, with numbers written as their sizes.
use Prim.Native.String.{String, ◌++◌ as str_append}
use trademgen.Prelude.{◌≡◌, refl, [], ◌∷◌, leb, if◌then◌else◌, ok}
use trademgen.Prelude.Int.{ℤ, pos, negsuc}
use trademgen.Attribute.Categorical
use trademgen.Attribute.Categorical.{ProbabilityMassFunction}
use trademgen.Events.{contents}
use trademgen.Display.{Printer, text_of, display_probability_mass}
use trademgen.Display.Attributes.{display_probability_mass-init}
use trademgen.Display.Csv.{IsBuilt, block, header, csv_display, csv_display-blocks}
use trademgen.Examples.Setting.{plain}
use trademgen.Examples.Attributes.{points_of_sale}
use trademgen.Examples.Streams.{input, stream}
use trademgen.Examples.Services.{table, world}

abbrev size_text : ℤ → String
size_text (pos n) = if leb n 10 then "small" else if leb n 50 then "half" else "large"
size_text (negsuc n) = "negative"

abbrev printer : Printer ⦃p = plain⦄
printer = record {
  real = size_text;
  integer = size_text;
  natural = λ n. size_text (pos n);
  generator = λ g. "generator";
  date_period = λ d e. "period";
  dow = λ d. d;
}

-- The second value has no mass, and the third one is written with the sum.
abbrev channels : ProbabilityMassFunction ⦃p = plain⦄ String
channels = ("DF", pos 10) ∷ ("DN", pos 0) ∷ ("IN", pos 90) ∷ []

display_probability_mass-init_example :
    display_probability_mass ⦃p = plain⦄ printer text_of (Categorical.init ⦃p = plain⦄ channels)
    ≡ ok "DF:small, IN:large"
display_probability_mass-init_example =
    display_probability_mass-init ⦃p = plain⦄ printer text_of channels

stream-IsBuilt : IsBuilt ⦃p = plain⦄ printer stream
stream-IsBuilt = record {
  input = input;
  default_pos = points_of_sale;
  characteristics_as = refl;
  pos_as = refl;
}

csv_display-blocks_example :
    csv_display ⦃p = plain⦄ printer table world
    ≡ ok (
        str_append
          (header ⦃p = plain⦄ printer table world)
          (str_append (block ⦃p = plain⦄ printer stream stream-IsBuilt) ""))
unfolding contents
csv_display-blocks_example = csv_display-blocks ⦃p = plain⦄ printer table world (stream-IsBuilt, tt)
