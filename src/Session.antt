-- ===== src/Session.antt =====
-- The interactive command line (trademgen/ui/cmdline/trademgen.cpp): the commands, what each does
-- to the service and prints, and the loop over the lines that the user enters. `Session.Commands`
-- has the effect of the commands, `Session.Generating` the command that generates all requests.
pub mod Generating
pub mod Commands
pub mod Help
pub mod Words
pub mod Total
use Prim.Native.Nat.{◌%◌, ◌^◌}
use Prim.Native.String.{String, ◌++◌ as str_append}
use text.Mathlib.Text.{◌==◌ as str_eq}
use trademgen.Prelude.{
  ℕ, zero, suc, ◌+◌, Bool, true, false, not, List, [], ◌∷◌, ◌++◌, ◌==◌, if◌then◌else◌, out_of_fuel,
  Result, ok, err, ◌>>=◌, ◌>>◌,
}
use trademgen.Platform.{Platform}
use trademgen.Stream.{DemandGenerationMethod}
use trademgen.Events.{EventService}
use trademgen.Service
use trademgen.Service.{Context}

-- `Command_T`.
pub data Command : Type 0 where
  nop : Command
  quit : Command
  help : Command
  list_event : Command
  list_demand_stream : Command
  reset : Command
  next : Command
  generate_next_br : Command
  generate_first_br : Command
  generate_all_br : Command
  json_list : Command
  last_value : Command

abbrev pub is_quit : Command → Bool
is_quit quit = true
is_quit _ = false

-- `boost::algorithm::to_lower`, a number written to a stream, and a list of tokens written to one.
pub record Terminal : Type 0 where
  pub to_lower : String → String
  pub count_string : ℕ → String
  pub tokens_string : List String → String

-- A line that is read: the text and the tokens that the reader makes of it.
pub record Line : Type 0 where
  pub user_input : String
  pub tokens : List String

-- The words that are understood, in the order of the tests.
unfoldable pub command_of : String → Command
command_of s =
    if str_eq s "help"
    then help
    else if str_eq s "list_event"
    then list_event
    else if str_eq s "list_demand_stream"
    then list_demand_stream
    else if str_eq s "reset"
    then reset
    else if str_eq s "delete_first"
    then next
    else if str_eq s "generate_first_br"
    then generate_first_br
    else if str_eq s "generate_next_br"
    then generate_next_br
    else if str_eq s "generate_all_br"
    then generate_all_br
    else if str_eq s "json_list"
    then json_list
    else if str_eq s "quit"
    then quit
    else last_value

-- The command, and the tokens after it.
unfoldable pub extract_command : Terminal → List String → Command × List String
unfolding command_of
extract_command t [] = (nop, [])
extract_command t (token ∷ rest) = (command_of (t.to_lower token), rest)

-- The tokens from an index on, which is an `unsigned short`: a space goes before a token whose index
-- is not 0.
unfoldable pub to_string_from : ℕ → List String → String
to_string_from idx [] = ""
to_string_from idx (token ∷ rest) =
    str_append (if idx == 0 then "" else " ")
      (str_append token (to_string_from ((idx + 1) % 2 ^ 16) rest))

unfoldable pub to_string : List String → String
unfolding to_string_from
to_string tokens = to_string_from 0 tokens

-- A text between two others.
abbrev pub between : String → String → String → String
between before s after = str_append before (str_append s after)

unfoldable pub help_text : String → String
help_text key =
    str_append
      "\nCommands: \n help\t\t\tDisplay this help\n quit\t\t\tQuit the application\n list_event\t\tList all the events in the queue\n list_demand_stream\tList the streams used to generate demand\n reset\t\t\tReset the service (including the event queue)\n generate_first_br\tGenerate the first booking request for each demand stream and add it to the event queue\n"
      (str_append
        (between
          " generate_next_br\tGenerate the next event for the specified demand stream and add it to the event queue\n\t\t\tFor instance:\n\t\t\t  'generate_next_br "
          key "'\n")
        (str_append
          (between
            " generate_all_br\tGenerate all the events for the specified demand stream and add it to the event queue\n\t\t\tFor instance:\n\t\t\t  'generate_all_br "
            key "'\n")
          " delete_first\t\tPop the next event from the queue\n \nDebug Commands\n json_list\t\tList events in the queue in a JSON format\n\n"))

unfoldable pub no_more_text : String → String
no_more_text key = between "No more events to generate for the demand stream: '" key "'.\n"

unfoldable pub one_more_text : String → String
one_more_text key = between "One more event have been generated for the demand stream: '" key "'.\n"

unfoldable pub all_text : Terminal → ℕ → String → String
all_text t number key =
    str_append (t.count_string number)
      (between " more event(s) have been generated for the demand stream: '" key "'.\n")

unfoldable pub not_understood_text : Terminal → Line → List String → String
not_understood_text t line rest =
    between "That command is not yet understood: '" line.user_input
      (between "' => " (t.tokens_string rest) "\n")

module _ ⦃p : Platform⦄ (w : EventService) where
  unfoldable pub wrong_key_text : Context w → String → String
  unfolding Service.display_demand_stream
  wrong_key_text c key =
      between "Wrong demand stream key: '" key
        (between "'.\nExisting demand streams are:\n" (Service.display_demand_stream w c) "\n")

  -- What a command prints, and the service after it.
  abbrev pub Reply : Type 0
  Reply = Result (String × Context w)

  unfoldable pub show_events : Context w → Reply
  show_events c = ok (between "List of events\n" (w.list_events c.world) "\n", c)

  unfoldable pub show_demand_streams : Context w → Reply
  unfolding Service.display_demand_stream
  show_demand_streams c =
      ok (between "List of demand streams\n" (Service.display_demand_stream w c) "\n", c)

  unfoldable pub show_json : Context w → Reply
  show_json c = ok (
    between "JSON Event List\n"
        (w.json_handler "{\"event_list\":{ \"event_type\":\"all\"}}" c.world) "\n",
    c,
  )

  unfoldable pub reset_service : Context w → Reply
  unfolding Service.reset
  reset_service c = ok ("Reset\n", Service.reset w c)

  unfoldable pub pop_next : Context w → Reply
  unfolding Service.is_queue_done Service.pop_event
  pop_next c =
      if Service.is_queue_done w c
      then ok ("Next\nThe event queue is empty: no event can be popped out.\n", c)
      else (let (e, c') = Service.pop_event w c in
          ok (between "Next\nPoped event: '" (w.describe_event e) "'.\n", c'))

  -- The streams generate requests by the method of the command line; the fuel is that of a request.
  module _ (t : Terminal) (method : DemandGenerationMethod) (fuel : ℕ) where
    unfoldable pub generate_first : Context w → Reply
    unfolding Service.generate_first_requests
    generate_first c = do
      (number, c') ← Service.generate_first_requests w fuel c method
      ok ("Generate first requests\n", c')

    unfoldable pub generate_next : List String → Context w → Reply
    unfolding to_string Service.has_demand_stream wrong_key_text Service.still_having
        Service.generate_next_request no_more_text one_more_text
    generate_next tokens c =
        let key = to_string tokens in
        if not (Service.has_demand_stream w c key) then ok (wrong_key_text c key, c) else do
          (more, status) ← Service.still_having w c key method
          if not more then ok (no_more_text key, c) else do
            (request, c') ← Service.generate_next_request w fuel c key method
            ok (one_more_text key, c')

    -- The loop of `generate_all_br`; the rounds are its fuel.
    pub generate_requests : ℕ → String → Bool → ℕ → Context w → Result (ℕ × Context w)
    unfolding Service.still_having Service.generate_next_request
    generate_requests rounds key false number c = ok (number, c)
    generate_requests zero key true number c = err out_of_fuel
    generate_requests (suc rounds) key true number c = do
      (request, c') ← Service.generate_next_request w fuel c key method
      (more, status) ← Service.still_having w c' key method
      generate_requests rounds key more (suc number) c'

    unfoldable pub generate_all : ℕ → List String → Context w → Reply
    unfolding to_string Service.has_demand_stream wrong_key_text Service.still_having
        generate_requests no_more_text all_text
    generate_all rounds tokens c =
        let key = to_string tokens in
        if not (Service.has_demand_stream w c key) then ok (wrong_key_text c key, c) else do
          (more, status) ← Service.still_having w c key method
          if not more then ok (no_more_text key, c) else do
            (number, c') ← generate_requests rounds key more 0 c
            ok (all_text t number key, c')

    -- The switch over the commands. The key is the one that the help names.
    unfoldable pub execute :
        (rounds : ℕ) → (default_key : String) → Line → Command → List String → Context w → Reply
    unfolding help_text show_events show_demand_streams show_json reset_service pop_next
        generate_first generate_next generate_all not_understood_text
    execute rounds default_key line help tokens c = ok (help_text default_key, c)
    execute rounds default_key line quit tokens c = ok ("", c)
    execute rounds default_key line list_event tokens c = show_events c
    execute rounds default_key line list_demand_stream tokens c = show_demand_streams c
    execute rounds default_key line reset tokens c = reset_service c
    execute rounds default_key line generate_next_br tokens c = generate_next tokens c
    execute rounds default_key line generate_first_br tokens c = generate_first c
    execute rounds default_key line generate_all_br tokens c = generate_all rounds tokens c
    execute rounds default_key line next tokens c = pop_next c
    execute rounds default_key line json_list tokens c = show_json c
    execute rounds default_key line nop tokens c = ok ("", c)
    execute rounds default_key line last_value tokens c = ok (not_understood_text t line tokens, c)

    -- The loop, with what is printed so far. The input ends where the list does.
    pub interact : (rounds : ℕ) → (default_key : String) → List Line → String → Context w → Reply
    unfolding extract_command execute
    interact rounds default_key [] printed c =
        ok (str_append printed "\nEnd of the session. Exiting.\n", c)
    interact rounds default_key (line ∷ lines) printed c =
        let (command, tokens) = extract_command t line.tokens in
        execute rounds default_key line command tokens c >>= λ reply. elim (is_quit command) [
          | true ↦
              ok (
                str_append printed (str_append (reply.0) "End of the session. Exiting.\n"),
                reply.1,
              )
          | false ↦ interact rounds default_key lines (str_append printed (reply.0)) (reply.1)
        ]
