-- ===== src/Session/Help.antt =====
-- The help of the command line and the words of the commands in it
-- (trademgen/ui/cmdline/trademgen.cpp).
use Prim.Native.String.{String, ◌++◌ as str_append}
use text.Mathlib.TextLemmas.{append_assoc}
use trademgen.Prelude.{ℕ, zero, suc, ◌≡◌, ap, ◌∙◌, subst, Option, none, some, arith}
use trademgen.Session.{
  Command, nop, quit, help, list_event, list_demand_stream, reset, next, generate_next_br,
  generate_first_br, generate_all_br, json_list, last_value, help_text,
}

-- The word of each command.
abbrev pub word_of : Command → Option String
word_of nop = none
word_of quit = some "quit"
word_of help = some "help"
word_of list_event = some "list_event"
word_of list_demand_stream = some "list_demand_stream"
word_of reset = some "reset"
word_of next = some "delete_first"
word_of generate_next_br = some "generate_next_br"
word_of generate_first_br = some "generate_first_br"
word_of generate_all_br = some "generate_all_br"
word_of json_list = some "json_list"
word_of last_value = none

pub some-inj : {A : Type 0} (a b : A) → some a ≡ some b → a ≡ b
some-inj a b h = ground arith

-- What the help says that a command does.
abbrev description_of : Command → String
description_of nop = ""
description_of quit = "Quit the application\n"
description_of help = "Display this help\n"
description_of list_event = "List all the events in the queue\n"
description_of list_demand_stream = "List the streams used to generate demand\n"
description_of reset = "Reset the service (including the event queue)\n"
description_of next = "Pop the next event from the queue\n"
description_of generate_next_br =
    "Generate the next event for the specified demand stream and add it to the event queue\n"
description_of generate_first_br =
    "Generate the first booking request for each demand stream and add it to the event queue\n"
description_of generate_all_br =
    "Generate all the events for the specified demand stream and add it to the event queue\n"
description_of json_list = "List events in the queue in a JSON format\n"
description_of last_value = ""

abbrev tabs : ℕ → String
tabs zero = ""
tabs (suc n) = str_append "\t" (tabs n)

-- A line of the help: a word, tabs and what the command does.
abbrev pub help_line : Command → String → ℕ → String
help_line c s n = str_append "\n " (str_append s (str_append (tabs (suc n)) (description_of c)))

-- The help with this key has the line of the command with the word.
abbrev pub IsInHelp : String → Command → String → Type 0
IsInHelp key c s =
    (before : String) × (n : ℕ) × (after : String) × (help_text key
      ≡ str_append before (str_append (help_line c s n) after))

-- A line in the middle of a piece of text.
in_piece :
    (b line a rest : String)
    → str_append (str_append b (str_append line a)) rest
      ≡ str_append b (str_append line (str_append a rest))
in_piece b line a rest = simp (append_assoc)

-- A line whose first character ends the piece before it.
across :
    (b end line a rest : String)
    → str_append (str_append b end) (str_append (str_append line a) rest)
      ≡ str_append b (str_append (str_append end line) (str_append a rest))
across b end line a rest = simp (append_assoc)

in_last_piece :
    (t u v b line a : String)
    → str_append t (str_append u (str_append v (str_append b (str_append line a))))
      ≡ str_append (str_append t (str_append u (str_append v b))) (str_append line a)
in_last_piece t u v b line a = simp (append_assoc)

-- A line whose first character ends the text before it, which has the key.
across_key :
    (t u key b end line a v rest : String)
    → str_append t (
        str_append
          (str_append u (str_append key (str_append b end)))
          (str_append (str_append (str_append line a) v) rest))
      ≡ str_append
          (str_append t (str_append u (str_append key b)))
          (str_append (str_append end line) (str_append a (str_append v rest)))
across_key t u key b end line a v rest = simp (append_assoc)

across_key_last :
    (t u v key b end line a : String)
    → str_append t (
        str_append u
          (str_append (str_append v (str_append key (str_append b end))) (str_append line a)))
      ≡ str_append
          (str_append t (str_append u (str_append v (str_append key b))))
          (str_append (str_append end line) a)
across_key_last t u v key b end line a = simp (append_assoc)

-- The pieces of the help.
abbrev commands_text : String
commands_text =
    "\nCommands: \n help\t\t\tDisplay this help\n quit\t\t\tQuit the application\n list_event\t\tList all the events in the queue\n list_demand_stream\tList the streams used to generate demand\n reset\t\t\tReset the service (including the event queue)\n generate_first_br\tGenerate the first booking request for each demand stream and add it to the event queue\n"

abbrev next_text : String
next_text =
    " generate_next_br\tGenerate the next event for the specified demand stream and add it to the event queue\n"

abbrev next_example : String
next_example = "\t\t\tFor instance:\n\t\t\t  'generate_next_br "

abbrev all_events_text : String
all_events_text =
    " generate_all_br\tGenerate all the events for the specified demand stream and add it to the event queue\n"

abbrev all_example : String
all_example = "\t\t\tFor instance:\n\t\t\t  'generate_all_br "

pub word_of-IsInHelp :
    (key : String) (c : Command) (s : String) → word_of c ≡ some s → IsInHelp key c s
unfolding help_text
word_of-IsInHelp key nop s h = absurd (cc)
word_of-IsInHelp key last_value s h = absurd (cc)
word_of-IsInHelp key help s h = subst (IsInHelp key help) (some-inj _ _ h) (
  "\nCommands: ",
  2,
  _,
  in_piece "\nCommands: " (help_line help "help" 2)
      " quit\t\t\tQuit the application\n list_event\t\tList all the events in the queue\n list_demand_stream\tList the streams used to generate demand\n reset\t\t\tReset the service (including the event queue)\n generate_first_br\tGenerate the first booking request for each demand stream and add it to the event queue\n"
      _,
)
word_of-IsInHelp key quit s h = subst (IsInHelp key quit) (some-inj _ _ h) (
  "\nCommands: \n help\t\t\tDisplay this help",
  2,
  _,
  in_piece "\nCommands: \n help\t\t\tDisplay this help" (help_line quit "quit" 2)
      " list_event\t\tList all the events in the queue\n list_demand_stream\tList the streams used to generate demand\n reset\t\t\tReset the service (including the event queue)\n generate_first_br\tGenerate the first booking request for each demand stream and add it to the event queue\n"
      _,
)
word_of-IsInHelp key list_event s h = subst (IsInHelp key list_event) (some-inj _ _ h) (
  "\nCommands: \n help\t\t\tDisplay this help\n quit\t\t\tQuit the application",
  1,
  _,
  in_piece "\nCommands: \n help\t\t\tDisplay this help\n quit\t\t\tQuit the application"
      (help_line list_event "list_event" 1)
      " list_demand_stream\tList the streams used to generate demand\n reset\t\t\tReset the service (including the event queue)\n generate_first_br\tGenerate the first booking request for each demand stream and add it to the event queue\n"
      _,
)
word_of-IsInHelp key list_demand_stream s h =
    subst (IsInHelp key list_demand_stream) (some-inj _ _ h) (
      "\nCommands: \n help\t\t\tDisplay this help\n quit\t\t\tQuit the application\n list_event\t\tList all the events in the queue",
      0,
      _,
      in_piece
          "\nCommands: \n help\t\t\tDisplay this help\n quit\t\t\tQuit the application\n list_event\t\tList all the events in the queue"
          (help_line list_demand_stream "list_demand_stream" 0)
          " reset\t\t\tReset the service (including the event queue)\n generate_first_br\tGenerate the first booking request for each demand stream and add it to the event queue\n"
          _,
    )
word_of-IsInHelp key reset s h = subst (IsInHelp key reset) (some-inj _ _ h) (
  "\nCommands: \n help\t\t\tDisplay this help\n quit\t\t\tQuit the application\n list_event\t\tList all the events in the queue\n list_demand_stream\tList the streams used to generate demand",
  2,
  _,
  in_piece
      "\nCommands: \n help\t\t\tDisplay this help\n quit\t\t\tQuit the application\n list_event\t\tList all the events in the queue\n list_demand_stream\tList the streams used to generate demand"
      (help_line reset "reset" 2)
      " generate_first_br\tGenerate the first booking request for each demand stream and add it to the event queue\n"
      _,
)
word_of-IsInHelp key generate_first_br s h =
    subst (IsInHelp key generate_first_br) (some-inj _ _ h) (
      "\nCommands: \n help\t\t\tDisplay this help\n quit\t\t\tQuit the application\n list_event\t\tList all the events in the queue\n list_demand_stream\tList the streams used to generate demand\n reset\t\t\tReset the service (including the event queue)",
      0,
      _,
      in_piece
          "\nCommands: \n help\t\t\tDisplay this help\n quit\t\t\tQuit the application\n list_event\t\tList all the events in the queue\n list_demand_stream\tList the streams used to generate demand\n reset\t\t\tReset the service (including the event queue)"
          (help_line generate_first_br "generate_first_br" 0) "" _,
    )
word_of-IsInHelp key generate_next_br s h = subst (IsInHelp key generate_next_br) (some-inj _ _ h) (
  "\nCommands: \n help\t\t\tDisplay this help\n quit\t\t\tQuit the application\n list_event\t\tList all the events in the queue\n list_demand_stream\tList the streams used to generate demand\n reset\t\t\tReset the service (including the event queue)\n generate_first_br\tGenerate the first booking request for each demand stream and add it to the event queue",
  0,
  _,
  ap (str_append commands_text)
        (append_assoc (str_append next_text next_example) (str_append key "'\n") _)
      ∙ across
          "\nCommands: \n help\t\t\tDisplay this help\n quit\t\t\tQuit the application\n list_event\t\tList all the events in the queue\n list_demand_stream\tList the streams used to generate demand\n reset\t\t\tReset the service (including the event queue)\n generate_first_br\tGenerate the first booking request for each demand stream and add it to the event queue"
          "\n" next_text next_example _,
)
word_of-IsInHelp key generate_all_br s h = subst (IsInHelp key generate_all_br) (some-inj _ _ h) (
  _,
  0,
  _,
  across_key commands_text (str_append next_text next_example) key "'" "\n" all_events_text
      all_example (str_append key "'\n") _,
)
word_of-IsInHelp key next s h = subst (IsInHelp key next) (some-inj _ _ h) (
  _,
  1,
  " \nDebug Commands\n json_list\t\tList events in the queue in a JSON format\n\n",
  across_key_last commands_text
      (str_append (str_append next_text next_example) (str_append key "'\n"))
      (str_append all_events_text all_example) key "'" "\n"
      " delete_first\t\tPop the next event from the queue\n"
      " \nDebug Commands\n json_list\t\tList events in the queue in a JSON format\n\n",
)
word_of-IsInHelp key json_list s h = subst (IsInHelp key json_list) (some-inj _ _ h) (
  _,
  1,
  "\n",
  in_last_piece commands_text
      (str_append (str_append next_text next_example) (str_append key "'\n"))
      (str_append (str_append all_events_text all_example) (str_append key "'\n"))
      " delete_first\t\tPop the next event from the queue\n \nDebug Commands"
      (help_line json_list "json_list" 1) "\n",
)
