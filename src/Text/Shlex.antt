-- ===== src/Text/Shlex.antt =====
-- `shlex.split` in its POSIX mode, without comments.
use Prim.Native.Char.{Char, code}
use Prim.Native.String.{String}
use irnmn.Prelude.{
  ℕ, String, ◌≡◌, refl, Bool, ◌||◌, nat_eq, List, [], ◌∷◌, ◌++◌, ◌&◌, Option, none, some,
  if◌then◌else◌,
}

-- Where the lexer stands: between words, in a word, in quotes of a kind, or behind a backslash that
-- stood between words or in a word, or in double quotes.
pub data Mode : Type 0 where
  between word single double escaped escaped_double : Mode

abbrev is_blank_char : ℕ → Bool
is_blank_char c = nat_eq c 32 || nat_eq c 9 || nat_eq c 13 || nat_eq c 10

abbrev add_char : String → Char → String
add_char s c = s & String.◌∷◌ c ""

-- The mode after a character outside quotes.
abbrev opened : ℕ → Mode
opened c =
    if nat_eq c 39
    then single
    else if nat_eq c 34
    then double
    else if nat_eq c 92
    then escaped
    else word

-- What a character outside quotes adds to the word.
abbrev grown : String → Char → String
grown token c =
    if nat_eq (code c) 39 || nat_eq (code c) 34 || nat_eq (code c) 92
    then token
    else add_char token c

-- The words, with the ones read so far and the current one; `none` is a ValueError.
lex : Mode → List String → String → String → Option (List String)
lex between words token String.[] = some words
lex word words token String.[] = some (words ++ (token ∷ []))
lex _ words token String.[] = none
lex between words token (String.◌∷◌ c s) =
    let blank = is_blank_char (code c) in
    lex (if blank then between else opened (code c)) words (if blank then "" else grown "" c) s
lex word words token (String.◌∷◌ c s) =
    let blank = is_blank_char (code c) in
    lex (if blank then between else opened (code c))
      (if blank then words ++ (token ∷ []) else words) (if blank then "" else grown token c) s
lex single words token (String.◌∷◌ c s) =
    let closed = nat_eq (code c) 39 in
    lex (if closed then word else single) words (if closed then token else add_char token c) s
lex double words token (String.◌∷◌ c s) =
    let closed = nat_eq (code c) 34 in
    let slash = nat_eq (code c) 92 in
    lex (if closed then word else if slash then escaped_double else double) words
      (if closed || slash then token else add_char token c) s
lex escaped words token (String.◌∷◌ c s) = lex word words (add_char token c) s
lex escaped_double words token (String.◌∷◌ c s) =
    let kept = nat_eq (code c) 34 || nat_eq (code c) 92 in
    lex double words (add_char (if kept then token else token & "\\") c) s

unfoldable pub shlex_split : String → Option (List String)
unfolding lex
shlex_split s = lex between [] "" s

words_split :
    shlex_split "bash -c 'a b' \"c\\\"d\"  e\\ f"
    ≡ some ("bash" ∷ "-c" ∷ "a b" ∷ "c\"d" ∷ "e f" ∷ [])
unfolding shlex_split
words_split = refl
