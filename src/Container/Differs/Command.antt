-- ===== src/Container/Differs/Command.antt =====
-- The command that the comparison of commands has found equal.
use irnmn.Prelude.{
  String, ◌≡◌, refl, true, false, eq_iff, List, [], ◌∷◌, Option, none, some, inl, inr, ◌⊎◌, arith,
}
use irnmn.Effect.{ok}
use irnmn.Text.Shlex.{shlex_split}
use irnmn.Container.Params.{Params, ContainerInfo}
use irnmn.Container.Compare.Parsing.{same_texts, command_differs, compare_command}

-- No command is declared, or its words are the program and the arguments of the container.
abbrev pub HasCommand : Params → ContainerInfo → Type 0
HasCommand params info =
    (params.command ≡ none)
    ⊎ ((command : String) × (params.command ≡ some command)
        × (shlex_split command ≡ some (info.path ∷ info.args)))

texts_same : (xs ys : List String) → same_texts xs ys ≡ true → xs ≡ ys
texts_same [] [] h = refl
texts_same [] (y ∷ ys) h = cc
texts_same (x ∷ xs) [] h = cc
texts_same (x ∷ xs) (y ∷ ys) h =
    let first : x ≡ y = (eq_iff x y).0 (ground (arith, h)) in
    let rest : xs ≡ ys = texts_same xs ys (ground (arith, h)) in λ i. first i ∷ rest i

words-same :
    (found : Option (List String)) (info : ContainerInfo)
    → command_differs found info ≡ ok false
    → found ≡ some (info.path ∷ info.args)
words-same none info h = absurd (ground (arith, h))
words-same (some []) info h = absurd (ground (arith, h))
words-same (some (path ∷ args)) info h =
    let first : path ≡ info.path = (eq_iff path info.path).0 (ground (arith, h)) in
    let rest : args ≡ info.args = texts_same args info.args (ground (arith, h)) in
    λ i. some (first i ∷ rest i)

pub command-same :
    (params : Params) (info : ContainerInfo)
    → compare_command params info ≡ ok false
    → HasCommand params info
unfolding compare_command
command-same params info h = go params.command refl h
  where
    go :
        (asked : Option String)
        → params.command ≡ asked
        → (elim asked [
          | none ↦ ok false
          | some command ↦ command_differs (shlex_split command) info
        ])
          ≡ ok false
        → HasCommand params info
    go none e h = inl e
    go (some command) e h = inr (command, e, words-same (shlex_split command) info h)
