-- ===== src/Binding.antt =====
-- The object that Python sees (trademgen/python/pytrademgen.cpp): `Trademgener`, with `init` and
-- `trademgen`. What the two write to the log file is left out.
pub mod Answers
use Prim.Native.String.{String, ◌++◌ as str_append}
use trademgen.Prelude.{
  ℕ, Bool, true, false, not, Option, none, some, if◌then◌else◌, Fault, out_of_range,
  index_out_of_range, code_duplication, assertion_failed, object_not_found, undefined_behaviour,
  bad_date, out_of_fuel, file_not_found, not_initialised, Result, ok, err, ◌>>=◌,
}
use trademgen.Prelude.Int.{ℤ}
use trademgen.Platform.{Platform}
use trademgen.Stream.{DemandGenerationMethod}
use trademgen.DemandStruct.{DemandStruct}
use trademgen.Events.{EventService}
use trademgen.Parser.Line.{DemandFile}
use trademgen.Service.{Context}
use trademgen.Service.Building.{Stdair, ServiceContext, construct, parse_and_load, build_sample_bom}
use trademgen.Batch.{generate_demand}

-- What `what` answers for an exception, and the exception, where there is one, for a key that
-- StdAir does not find: the other library's.
pub record Exceptions : Type 0 where
  pub what : Fault → String
  pub not_found : Option String

-- A call that answers and leaves the object, or whose `catch` clauses end an exception. What the
-- calls of the service did before the exception is not followed: only the answer is kept.
pub data Answer (A T : Type 0) : Type 0 where
  finished : A → T → Answer A T
  caught : A → Answer A T

abbrev pub answered : {A T : Type 0} → Answer A T → A
answered (finished a t) = a
answered (caught a) = a

-- The text that the `catch` clauses give for a fault. A failed assertion ends the program, and
-- what an undefined behaviour does is not known.
unfoldable pub catch_text : Exceptions → Fault → Option String
catch_text x out_of_range = some (str_append "Error: " (str_append (x.what out_of_range) "\n"))
catch_text x index_out_of_range =
    some (str_append "TraDemGen error: " (str_append (x.what index_out_of_range) "\n"))
catch_text x bad_date = some (str_append "Error: " (str_append (x.what bad_date) "\n"))
catch_text x code_duplication =
    some (str_append "TraDemGen error: " (str_append (x.what code_duplication) "\n"))
catch_text x file_not_found =
    some (str_append "TraDemGen error: " (str_append (x.what file_not_found) "\n"))
catch_text x not_initialised =
    some (str_append "TraDemGen error: " (str_append (x.what not_initialised) "\n"))
catch_text x assertion_failed = none
catch_text x object_not_found = x.not_found
catch_text x undefined_behaviour = none
catch_text x out_of_fuel = none

unfoldable pub completed_text : String
completed_text =
    "TraDemGen has completed the generation of the booking requests. See the log file for more details.\n"

unfoldable pub no_log_text : String
no_log_text = "The log filepath is not valid.\n"

unfoldable pub no_service_text : String
no_service_text =
    "The TraDemGen service has not been initialised, i.e., the init() method has not been called correctly on the Trademgener object. Please check that all the parameters are not empty and point to actual files."

-- After the `try` block: the value goes on, an exception is answered with a text of its own, and
-- any other fault ends the program.
abbrev pub after_try :
    {A B T : Type 0} → Exceptions → Result A → (A → Answer B T) → (String → B) → Result (Answer B T)
after_try x (ok a) next recover = ok (next a)
after_try x (err e) next recover = elim (catch_text x e) [
  | some text ↦ ok (caught (recover text))
  | none ↦ err e
]

module _ ⦃p : Platform⦄ (w : EventService) where
  -- The two pointers, which may be null; the log stream is only written.
  pub record Trademgener : Type 0 where
    pub trademgen_service : Option (ServiceContext w)
    pub has_log : Bool

  -- The default constructor.
  unfoldable pub new_trademgener : Trademgener
  new_trademgener = record { trademgen_service = none; has_log = false }

module _ ⦃p : Platform⦄ (w : EventService) (exceptions : Exceptions) where
  -- `init`. The flag is true from its first line on.
  unfoldable pub init :
      Stdair w
      → (text_lt : String → String → Bool) (log_filepath_is_empty : Bool) (seed : ℤ)
        (is_builtin exists_and_is_readable can_be_opened : Bool)
      → DemandFile
      → DemandStruct
      → Trademgener w
      → Result (Answer Bool (Trademgener w))
  unfolding construct parse_and_load build_sample_bom
  init stdair text_lt log_filepath_is_empty seed is_builtin exists_and_is_readable can_be_opened f
        staged t =
      let service = construct w stdair seed in
      let filled =
        if is_builtin
        then build_sample_bom w stdair text_lt service
        else (parse_and_load w stdair text_lt exists_and_is_readable can_be_opened f staged
            service) in
      if log_filepath_is_empty
      then ok (finished false t)
      else after_try exceptions filled
          (λ s. finished true (record { trademgen_service = s; has_log = true })) (λ text. true)

  -- `Trademgener::trademgen`, whose runs are those of the batch, with the events logged in place of written to a
  -- file. The method is read before the `try` block.
  unfoldable pub generate_runs :
      (String → Result DemandGenerationMethod)
      → (rounds fuel : ℕ) → (number_of_runs : ℕ) (method_text : String) → Trademgener w
      → Result (Answer String (Trademgener w))
  unfolding generate_demand
  generate_runs method_of rounds fuel number_of_runs method_text t =
      method_of method_text >>= λ method.
      if not t.has_log then ok (finished no_log_text t) else elim t.trademgen_service [
        | none ↦ ok (finished no_service_text t)
        | some s ↦
            after_try exceptions (generate_demand w number_of_runs rounds fuel method s.context)
              (λ r.
                finished completed_text
                  (record t { trademgen_service = some (record s { context = r.2 }) }))
              (λ text. str_append text completed_text)
      ]
