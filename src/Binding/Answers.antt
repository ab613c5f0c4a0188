-- ===== src/Binding/Answers.antt =====
-- What the calls of `Trademgener` (trademgen/python/pytrademgen.cpp) answer.
use Prim.Native.String.{String, ◌++◌ as str_append}
use trademgen.Prelude.{
  ℕ, ◌≡◌, refl, ap, ◌⊎◌, inl, inr, Bool, true, false, not, some, arith, Option-cases, Result-cases,
  Fault, Result, ok, err,
}
use trademgen.Prelude.Int.{ℤ}
use trademgen.Platform.{Platform}
use trademgen.Stream.{DemandGenerationMethod}
use trademgen.DemandStruct.{DemandStruct}
use trademgen.Events.{EventService}
use trademgen.Parser.Line.{DemandFile}
use trademgen.Service.{Context}
use trademgen.Service.Building.{Stdair, ServiceContext}
use trademgen.Binding.{
  Exceptions, Answer, finished, caught, answered, catch_text, completed_text, after_try,
  Trademgener, init, generate_runs,
}

-- Where a `try` block with its `catch` clauses answers, it has a value or the text of a fault.
after_try-cases :
    {A B T : Type 0} (x : Exceptions) (r : Result A) (next : A → Answer B T) (recover : String → B)
    (a : Answer B T)
    → after_try x r next recover ≡ ok a
    → ((v : A) × (r ≡ ok v) × (a ≡ next v))
      ⊎ ((e : Fault) × (text : String) × (r ≡ err e)
          × (catch_text x e ≡ some text)
          × (a ≡ caught (recover text)))
after_try-cases x (ok v) next recover a h = inl (v, refl, ground arith)
after_try-cases x (err e) next recover a h = elim (Option-cases (catch_text x e)) [
  | inl n ↦ absurd (ground arith)
  | inr (text, c) ↦ inr (e, text, refl, c, ground arith)
]

module _ ⦃p : Platform⦄ (w : EventService) (exceptions : Exceptions) where
  -- Where `init` answers, its flag says no more than that the path of the log file is not empty:
  -- it is the same where the demand was loaded and where an exception was caught.
  pub init-answer :
      (stdair : Stdair w) (text_lt : String → String → Bool) (log_filepath_is_empty : Bool)
      (seed : ℤ) (is_builtin exists_and_is_readable can_be_opened : Bool) (f : DemandFile)
      (staged : DemandStruct) (t : Trademgener w) (a : Answer Bool (Trademgener w))
      → init w exceptions stdair text_lt log_filepath_is_empty seed is_builtin
          exists_and_is_readable can_be_opened f staged t
        ≡ ok a
      → answered a ≡ not log_filepath_is_empty
  unfolding init
  init-answer stdair text_lt true seed b e c f staged t a h = ground arith
  init-answer stdair text_lt false seed b e c f staged t a h =
      elim (after_try-cases exceptions _ _ _ a h) [
        | inl (v, run, same) ↦ ap answered same
        | inr (e', text, run, c', same) ↦ ap answered same
      ]

  -- Where the object has its log and its service, an answer of `trademgen` ends with the sentence
  -- that says that the generation is complete, whether the runs ended or an exception ended them;
  -- and the object that it leaves, where the runs ended, has its log and a service still.
  pub generate_runs-answer :
      (method_of : String → Result DemandGenerationMethod) (rounds fuel number_of_runs : ℕ)
      (method_text : String) (s : ServiceContext w) (a : Answer String (Trademgener w))
      → generate_runs w exceptions method_of rounds fuel number_of_runs method_text
          (record { trademgen_service = some s; has_log = true })
        ≡ ok a
      → ((c : Context w) × (a
            ≡ finished completed_text
                (record { trademgen_service = some (record s { context = c }); has_log = true })))
        ⊎ ((text : String) × (a ≡ caught (str_append text completed_text)))
  unfolding generate_runs
  generate_runs-answer method_of rounds fuel n method_text s a h =
      elim (Result-cases (method_of method_text)) [
        | inl (e, q) ↦ absurd (let e' = rw q at h in ground arith)
        | inr (m, q) ↦ elim (after_try-cases exceptions _ _ _ a (rw q at h)) [
          | inl (v, ran, same) ↦ inl (v.2, same)
          | inr (e, text, ran, c, same) ↦ inr (text, same)
        ]
      ]
