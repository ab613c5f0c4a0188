-- ===== src/Examples/Sessions.antt =====
-- The theorems on the command line, with the event service of the table.
use Prim.Native.String.{String}
use trademgen.Prelude.{
  ◌≡◌, refl, ◌≢◌, ◌↔◌, ◌⊎◌, false, some, List, [], ◌∷◌, arith, Fault, out_of_fuel, ok, err,
}
use trademgen.Prelude.Int.{◌-ℤ◌}
use trademgen.Demand.{key_string}
use trademgen.Stream
use trademgen.Stream.{sta_ord}
use trademgen.Service.{Context}
use trademgen.Session.{
  Terminal, next, last_value, command_of, to_string, to_string_from, generate_all,
}
use trademgen.Session.Generating.{generate_all_end, end_text}
use trademgen.Session.Help.{word_of, IsInHelp}
use trademgen.Session.Words.{command_of_iff}
use trademgen.Examples.Setting.{plain}
use trademgen.Examples.Streams.{stream}
use trademgen.Examples.Services.{table, table-IsMemory, context}
use trademgen.Examples.Queues.{table-KeepsStreams}

abbrev pub terminal : Terminal
terminal = record { to_lower = λ s. s; count_string = λ n. "2"; tokens_string = λ tokens. "tokens" }

-- The key of the stream, as one token.
abbrev pub tokens : List String
tokens = key_string ⦃p = plain⦄ stream.key ∷ []

generate_all_end_example :
    ((f : Fault) × (generate_all ⦃p = plain⦄ table terminal sta_ord 0 2 tokens context ≡ err f)
      × (f ≢ out_of_fuel))
    ⊎ ((d : Context ⦃p = plain⦄ table) × (generate_all ⦃p = plain⦄ table terminal sta_ord 0 2 tokens
            context
          ≡ ok (end_text terminal 2 (to_string tokens), d))
        × (table.find (to_string tokens) d.world ≡ some 0)
        × (Stream.still_having ⦃p = plain⦄ (table.load 0 d.world) sta_ord ≡ false))
unfolding to_string to_string_from key_string ◌-ℤ◌
generate_all_end_example =
    generate_all_end ⦃p = plain⦄ table table-IsMemory table-KeepsStreams terminal 0 2 tokens 0
      context refl (omega arith)

command_of_iff_example :
    ((word_of next ≡ some "delete_first")
      ↔ ((command_of "delete_first" ≡ next) × (next ≢ last_value)))
    × (word_of next ≡ some "delete_first" → (key : String) → IsInHelp key next "delete_first")
command_of_iff_example = command_of_iff next "delete_first"
