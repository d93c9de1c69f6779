-- ===== src/Text/Numbers.antt =====
-- `str` of a natural number, and `int` of a text of ASCII digits.
use Prim.Native.Char.{Char, code}
use Prim.Native.String.{String}
use irnmn.Prelude.{
  ◌≡◌, refl, ℕ, zero, suc, ◌+◌, ◌*◌, ◌-◌, ◌/◌, ◌%◌, Bool, ◌&&◌, leb, ltb, is_blank, ◌&◌, Option,
  none, some, if◌then◌else◌,
}

-- The character at a place, as a text.
abbrev pick : ℕ → String → String
pick n String.[] = ""
pick zero (String.◌∷◌ c s) = String.◌∷◌ c ""
pick (suc n) (String.◌∷◌ c s) = pick n s

abbrev digit : ℕ → String
digit d = pick d "0123456789"

-- The digits of a number, the last one last; a number has fewer digits than its successor counts.
show_from : ℕ → ℕ → String
show_from zero n = ""
show_from (suc fuel) n =
    let rest = show_from fuel (n / 10) in if ltb n 10 then digit n else rest & digit (n % 10)

-- `str(n)`
unfoldable pub show : ℕ → String
unfolding show_from
show n = show_from (suc n) n

abbrev pub is_digit : Char → Bool
is_digit c = leb 48 (code c) && leb (code c) 57

scan : ℕ → String → Option ℕ
scan n String.[] = some n
scan n (String.◌∷◌ c s) =
    let rest = scan (n * 10 + (code c - 48)) s in if is_digit c then rest else none

-- `int(s)`, where `none` is a ValueError. The signs, spaces and underscores that `int` also accepts
-- are refused.
unfoldable pub parse : String → Option ℕ
unfolding scan
parse s = if is_blank s then none else scan 0 s

show_1024 : show 1048576 ≡ "1048576"
unfolding show
show_1024 = refl

parse_zeros : parse "0042" ≡ some 42
unfolding parse
parse_zeros = refl
