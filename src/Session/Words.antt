-- ===== src/Session/Words.antt =====
-- The words of the commands, and the key that a user types (trademgen/ui/cmdline/trademgen.cpp).
use Prim.Native.String.{String, ◌++◌ as str_append}
use text.Mathlib.Text.{◌==◌ as str_eq}
use text.Mathlib.TextEquality.{eq_iff}
use text.Mathlib.TextLemmas.{append_assoc, append-nil, nil-append}
use trademgen.Prelude.{
  ◌≡◌, refl, sym, ap, ◌∙◌, subst, ◌≢◌, ◌↔◌, ◌⊎◌, inl, inr, some, [], ◌∷◌, if◌then◌else◌, Bool-cases,
}
use trademgen.Platform.{Platform}
use trademgen.Demand.{DemandStreamKey, key_string}
use trademgen.Session.Help.{word_of, some-inj, IsInHelp, word_of-IsInHelp}
use trademgen.Session.{
  Command, nop, quit, help, list_event, list_demand_stream, reset, next, generate_next_br,
  generate_first_br, generate_all_br, json_list, last_value, command_of, to_string, to_string_from,
}

abbrev IsKnown : String → Command → Type 0
IsKnown s c = (c ≡ last_value) ⊎ (word_of c ≡ some s)

-- One test of the chain.
IsKnown-or :
    (s u : String) (c d : Command)
    → word_of c ≡ some u
    → IsKnown s d
    → IsKnown s (if str_eq s u then c else d)
IsKnown-or s u c d h k = elim (Bool-cases (str_eq s u)) [
  | inl t ↦ rw t (inr (h ∙ ap some (sym ((eq_iff s u).0 t))))
  | inr f ↦ rw f k
]

command_of-IsKnown : (s : String) → IsKnown s (command_of s)
unfolding command_of
command_of-IsKnown s = IsKnown-or s "help" help _ refl (
    IsKnown-or s "list_event" list_event _ refl (
      IsKnown-or s "list_demand_stream" list_demand_stream _ refl (
        IsKnown-or s "reset" reset _ refl (
          IsKnown-or s "delete_first" next _ refl (
            IsKnown-or s "generate_first_br" generate_first_br _ refl (
              IsKnown-or s "generate_next_br" generate_next_br _ refl (
                IsKnown-or s "generate_all_br" generate_all_br _ refl (
                  IsKnown-or s "json_list" json_list _ refl
                    (IsKnown-or s "quit" quit _ refl (inl refl))))))))))

command_of-word :
    (c : Command) (s : String) → word_of c ≡ some s → (command_of s ≡ c) × (c ≢ last_value)
unfolding command_of
command_of-word nop s h = absurd (cc)
command_of-word last_value s h = absurd (cc)
command_of-word quit s h = (subst (λ v. command_of v ≡ quit) (some-inj _ _ h) refl, λ q. cc)
command_of-word help s h = (subst (λ v. command_of v ≡ help) (some-inj _ _ h) refl, λ q. cc)
command_of-word list_event s h =
    (subst (λ v. command_of v ≡ list_event) (some-inj _ _ h) refl, λ q. cc)
command_of-word list_demand_stream s h =
    (subst (λ v. command_of v ≡ list_demand_stream) (some-inj _ _ h) refl, λ q. cc)
command_of-word reset s h = (subst (λ v. command_of v ≡ reset) (some-inj _ _ h) refl, λ q. cc)
command_of-word next s h = (subst (λ v. command_of v ≡ next) (some-inj _ _ h) refl, λ q. cc)
command_of-word generate_next_br s h =
    (subst (λ v. command_of v ≡ generate_next_br) (some-inj _ _ h) refl, λ q. cc)
command_of-word generate_first_br s h =
    (subst (λ v. command_of v ≡ generate_first_br) (some-inj _ _ h) refl, λ q. cc)
command_of-word generate_all_br s h =
    (subst (λ v. command_of v ≡ generate_all_br) (some-inj _ _ h) refl, λ q. cc)
command_of-word json_list s h =
    (subst (λ v. command_of v ≡ json_list) (some-inj _ _ h) refl, λ q. cc)

-- A word is understood as a command other than the one for words that are not understood exactly
-- if it is the word of that command, and then the help, with any key, has a line with this word,
-- tabs and what the command does.
pub command_of_iff :
    (c : Command) (s : String)
    → ((word_of c ≡ some s) ↔ ((command_of s ≡ c) × (c ≢ last_value)))
      × (word_of c ≡ some s → (key : String) → IsInHelp key c s)
command_of_iff c s = (
  (
    command_of-word c s,
    λ (e, other). elim (command_of-IsKnown s) [
      | inl unknown ↦ absurd (other (sym e ∙ unknown))
      | inr known ↦ subst (λ v. word_of v ≡ some s) e known
    ],
  ),
  λ h key. word_of-IsInHelp key c s h,
)

module _ ⦃p : Platform⦄ where
  open p use {date_string}

  -- The three words of a key, the pair of airports, the date and the cabin, are put together to the
  -- key that the stream has.
  pub to_string-key :
      (k : DemandStreamKey)
      → to_string (
          str_append k.origin (str_append "-" k.destination)
          ∷ date_string k.preferred_departure_date
          ∷ k.preferred_cabin
          ∷ [])
        ≡ key_string k
  unfolding to_string to_string_from key_string
  to_string-key k = simp (append_assoc, append-nil, nil-append)
