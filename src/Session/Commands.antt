-- ===== src/Session/Commands.antt =====
-- What the commands of trademgen/ui/cmdline/trademgen.cpp leave alone, and the end of a session.
use Prim.Native.String.{String, ◌++◌ as str_append}
use trademgen.Prelude.{
  ℕ, ◌≡◌, refl, ◌⊎◌, inl, inr, false, List, [], ◌∷◌, ◌++◌, Bool-cases, Result, ok, err, ◌>>=◌,
}
use trademgen.Platform.{Platform}
use trademgen.Stream.{DemandGenerationMethod}
use trademgen.Events.{EventService}
use trademgen.Service
use trademgen.Service.{Context}
use trademgen.Session.{
  Command, nop, quit, help, list_event, list_demand_stream, reset, next, generate_next_br,
  generate_first_br, generate_all_br, json_list, last_value, Terminal, Line, to_string,
  extract_command, wrong_key_text, execute, is_quit, interact, generate_next, generate_all,
}

-- A command that only prints.
abbrev pub IsDisplay : Command → Type 0
IsDisplay nop = Unit
IsDisplay quit = Unit
IsDisplay help = Unit
IsDisplay list_event = Unit
IsDisplay list_demand_stream = Unit
IsDisplay json_list = Unit
IsDisplay last_value = Unit
IsDisplay _ = ⊥

-- A command that asks for the key of a stream.
abbrev pub NeedsKey : Command → Type 0
NeedsKey generate_next_br = Unit
NeedsKey generate_all_br = Unit
NeedsKey _ = ⊥

module _ ⦃p : Platform⦄ (w : EventService) (t : Terminal) (method : DemandGenerationMethod)
    (fuel rounds : ℕ) (default_key : String) where
  -- A command that only prints answers, and leaves the service as it was; so does a command that
  -- asks for the key of a stream where there is no stream with that key, and it prints that the key
  -- is wrong.
  pub execute_keeps :
      (line : Line) (command : Command) (tokens : List String) (c : Context w)
      → IsDisplay command
        ⊎ (NeedsKey command × (Service.has_demand_stream w c (to_string tokens) ≡ false))
      → (text : String) × (execute w t method fuel rounds default_key line command tokens c
          ≡ ok (text, c))
        × (IsDisplay command ⊎ (NeedsKey command × (text ≡ wrong_key_text w c (to_string tokens))))
  unfolding execute generate_next generate_all
  execute_keeps line nop tokens c h = (_, refl, inl tt)
  execute_keeps line quit tokens c h = (_, refl, inl tt)
  execute_keeps line help tokens c h = (_, refl, inl tt)
  execute_keeps line list_event tokens c h = (_, refl, inl tt)
  execute_keeps line list_demand_stream tokens c h = (_, refl, inl tt)
  execute_keeps line json_list tokens c h = (_, refl, inl tt)
  execute_keeps line last_value tokens c h = (_, refl, inl tt)
  execute_keeps line generate_next_br tokens c (inr (k, unknown)) =
      (wrong_key_text w c (to_string tokens), rw unknown refl, inr (tt, refl))
  execute_keeps line generate_all_br tokens c (inr (k, unknown)) =
      (wrong_key_text w c (to_string tokens), rw unknown refl, inr (tt, refl))
  execute_keeps line generate_next_br tokens c (inl k) = absurd k
  execute_keeps line generate_all_br tokens c (inl k) = absurd k
  execute_keeps line reset tokens c (inl k) = absurd k
  execute_keeps line reset tokens c (inr (k, e)) = absurd k
  execute_keeps line next tokens c (inl k) = absurd k
  execute_keeps line next tokens c (inr (k, e)) = absurd k
  execute_keeps line generate_first_br tokens c (inl k) = absurd k
  execute_keeps line generate_first_br tokens c (inr (k, e)) = absurd k

  bind-same :
      {A B : Type 0} (r : Result A) (f g : A → Result B)
      → ((a : A) → f a ≡ g a)
      → (r >>= f) ≡ (r >>= g)
  bind-same (err e) f g h = refl
  bind-same (ok a) f g h = h a

  -- The lines after the one that quits are not read.
  pub interact-quit :
      (lines rest : List Line) (line : Line) (printed : String) (c : Context w)
      → (extract_command t line.tokens).0 ≡ quit
      → interact w t method fuel rounds default_key (lines ++ (line ∷ rest)) printed c
        ≡ interact w t method fuel rounds default_key (lines ++ (line ∷ [])) printed c
  unfolding interact
  interact-quit [] rest line printed c h = rw h refl
  interact-quit (l ∷ lines) rest line printed c h =
      let (command, tokens) = extract_command t l.tokens in
      bind-same (execute w t method fuel rounds default_key l command tokens c) _ _ (λ reply.
        elim (Bool-cases (is_quit command)) [
          | inl over ↦ rw over refl
          | inr more ↦
              rw more (interact-quit lines rest line (str_append printed (reply.0)) (reply.1) h)
        ])
