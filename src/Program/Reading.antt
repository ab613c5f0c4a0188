-- ===== src/Program/Reading.antt =====
-- What `readConfiguration` of trademgen/batches/trademgen_generateDemand.cpp leaves, in each case.
use Prim.Native.Char.{Char}
use Prim.Native.String.{String, ◌++◌ as str_append}
use trademgen.Prelude.{
  ◌≡◌, refl, ◌⊎◌, inl, inr, Bool, true, false, ◌||◌, none, some, arith, Bool-cases, Option-cases,
  Fault, ok, err, Result-cases,
}
use trademgen.Stream.{DemandGenerationMethod, poi_pro}
use trademgen.Program.{
  Surroundings, Given, Configuration, Progress, or_default, bound_to, print, print_value,
  early_return_status,
}
use trademgen.Program.Options.{
  batch_variables, notify, early_text, read_builtin, read_input, read_output, read_log, read_method,
  begin, read_rest, read_batch_configuration,
}

module _ (x : Surroundings) where
  -- One of the options that end the program is given.
  abbrev pub is_early : Given → Bool
  is_early g = g.help || (g.version || g.prefix)

  -- The letter of the method, given or by default.
  abbrev pub letter : Given → Char
  letter g = or_default (x.method_as_char poi_pro) g.demand_generation

  -- What the options ask for.
  abbrev pub chosen : Given → DemandGenerationMethod → Configuration
  chosen g method = record {
    is_builtin = g.builtin;
    random_seed = or_default x.default_random_seed g.seed;
    random_runs = or_default 1 g.draws;
    input_filename = or_default (str_append x.sample_dir "/demand01.csv") g.input;
    output_filename = or_default "request.csv" g.output;
    log_filename = or_default "trademgen_generateDemand.log" g.log;
    demand_generation_method = method;
  }

  -- The options are read to the end: what they ask for, and no message that one is missing.
  pub record IsRead (g : Given) (method : DemandGenerationMethod) (r : Progress) : Type 0 where
    pub configuration : r.configuration ≡ chosen g method
    pub no_errors : r.errors ≡ ""

  early_text-none : (g : Given) → is_early g ≡ false → early_text x (batch_variables x g) ≡ none
  unfolding early_text batch_variables
  early_text-none g h = ground arith

  early_text-some :
      (g : Given)
      → is_early g ≡ true
      → (text : String) × (early_text x (batch_variables x g) ≡ some text)
  unfolding early_text batch_variables
  early_text-some g h = elim (Option-cases (early_text x (batch_variables x g))) [
    | inl none_there ↦ absurd (ground arith)
    | inr there ↦ there
  ]

  read_rest-fails :
      (g : Given) (r : Progress) {f : Fault}
      → x.method_of (letter g) ≡ err f
      → read_rest x (batch_variables x g) r ≡ err f
  unfolding read_rest read_method batch_variables
  read_rest-fails g r h = rw h refl

  read_rest-reads :
      (g : Given) (c : Configuration) {method : DemandGenerationMethod}
      → x.method_of (letter g) ≡ ok method
      → (r : Progress) × (read_rest x (batch_variables x g) (begin x (batch_variables x g) c)
          ≡ ok r)
        × IsRead g method r
  unfolding read_rest begin notify bound_to batch_variables read_builtin read_input read_output
      read_log read_method print print_value
  read_rest-reads g c known =
      let v = batch_variables x g in
      elim (Result-cases (read_rest x v (begin x v c))) [
        | inl (f, h) ↦ absurd (ground arith)
        | inr (r, h) ↦ (r, h, record { configuration = ground arith; no_errors = ground arith })
      ]

  -- The three ways in which the batch reads its options. Where the help, the version or the prefix
  -- is asked for, the status is the early one, with no error message. Where the letter of the
  -- generation method is known, the status is 0, each variable has the value that is given or the
  -- default, and there is no error message: none that the input is missing, since it has a default.
  -- Where the letter is not known, the exception of its conversion is thrown.
  pub read_batch_configuration_outcome :
      (g : Given) (c : Configuration)
      → ((is_early g ≡ true)
          × ((r : Progress) × (read_batch_configuration x g c ≡ ok (early_return_status, r))
              × (r.errors ≡ "")))
        ⊎ (((method : DemandGenerationMethod) × (r : Progress) × (is_early g ≡ false)
              × (x.method_of (letter g) ≡ ok method)
              × (read_batch_configuration x g c ≡ ok (0, r))
              × IsRead g method r)
            ⊎ ((f : Fault) × (is_early g ≡ false)
                × (x.method_of (letter g) ≡ err f)
                × (read_batch_configuration x g c ≡ err f)))
  unfolding read_batch_configuration begin print print_value
  read_batch_configuration_outcome g c = elim (Bool-cases (is_early g)) [
    | inl early ↦
        let (text, e) = early_text-some g early in
        inl (early, (print text (begin x (batch_variables x g) c), rw e refl, refl))
    | inr full ↦
        let e = early_text-none g full in
        inr (elim (Result-cases (x.method_of (letter g))) [
          | inl (f, fails) ↦ inr (f, full, fails, rw (e, read_rest-fails g _ fails) refl)
          | inr (method, known) ↦
              let (r, reads, read) = read_rest-reads g c known in
              inl (
                method,
                print_value "The number of runs is: " (x.natural_text r.configuration.random_runs)
                    r,
                full,
                known,
                rw (e, reads) refl,
                record { configuration = read.configuration; no_errors = read.no_errors },
              )
        ])
  ]
