-- ===== src/Container/Image/Tagged.antt =====
-- The name that `find_image` looks for.
use Prim.Native.Char.{code}
use Prim.Native.String.{String}
use text.Mathlib.TextLemmas.{nil-append, cons-append}
use text.Mathlib.TextEquality.{Char-path}
use irnmn.Prelude.{
  ◌≡◌, refl, Bool, true, false, nat_eq, Bool-cases, inl, inr, arith, ap, ◌∙◌, ◌&◌, Option, none,
  some, if◌then◌else◌,
}
use irnmn.Text.Split.{push_front, last_or, split_first, split_last, has_char}
use irnmn.Container.Image.{part_after, image_part, repository_tag, parse_image, find_image}

-- The parts, if there are any, are the whole text with a colon between them.
abbrev Joins : String → Option (String × String) → Type 0
Joins s none = has_char 58 s ≡ false
Joins s (some (before, after)) = before & ":" & after ≡ s

split_last-Joins : (s : String) → Joins s (split_last 58 s)
unfolding split_last has_char
split_last-Joins String.[] = refl
split_last-Joins (String.◌∷◌ c s) =
    go (split_last 58 s) (split_last-Joins s) (nat_eq (code c) 58) refl
  where
    longer :
        (before after : String)
        → before & ":" & after ≡ s
        → String.◌∷◌ c before & ":" & after ≡ String.◌∷◌ c s
    longer before after h = cons-append c before (":" & after) ∙ ap (String.◌∷◌ c) h

    go :
        (later : Option (String × String))
        → Joins s later
        → (colon : Bool) → nat_eq (code c) 58 ≡ colon
        → Joins
            (String.◌∷◌ c s)
            (if colon then last_or (push_front c later) (some ("", s)) else push_front c later)
    go none h true e =
        nil-append (":" & s)
        ∙ (cons-append ":" "" s
            ∙ ap (String.◌∷◌ ":") (nil-append s)
            ∙ ap (λ d. String.◌∷◌ d s) (Char-path ":" c (ground (arith, e))))
    go none h false e = ground (arith, h, e)
    go (some (before, after)) h true e = longer before after h
    go (some (before, after)) h false e = longer before after h

-- A colon of a part after the first slash is one of the text.
-- A colon after the separator is one of the text.
abbrev Within : String → Option (String × String) → Type 0
Within s none = Unit
Within s (some (before, after)) = has_char 58 after ≡ true → has_char 58 s ≡ true

split_first-Within : (s : String) → Within s (split_first 47 s)
unfolding split_first has_char
split_first-Within String.[] = tt
split_first-Within (String.◌∷◌ c s) =
    go (split_first 47 s) (split_first-Within s) (nat_eq (code c) 47)
  where
    kept : has_char 58 s ≡ true → (if nat_eq (code c) 58 then true else has_char 58 s) ≡ true
    kept h = ground (arith, h)

    go :
        (later : Option (String × String))
        → Within s later
        → (slash : Bool)
        → Within (String.◌∷◌ c s) (if slash then some ("", s) else push_front c later)
    go later h true = kept
    go none h false = tt
    go (some (before, after)) h false = λ is. kept (h is)

has-part :
    (full : String) (parts : Option (String × String))
    → Within full parts
    → has_char 58 (part_after full parts) ≡ true
    → has_char 58 full ≡ true
has-part full none within is = is
has-part full (some (before, after)) within is = within is

find_named :
    (full : String) (parts : Option (String × String))
    → Joins full parts
    → has_char 58 full ≡ true
    → (repository_tag full parts).0 & ":" & (repository_tag full parts).1 ≡ full
find_named full none h is = absurd (ground (arith, h, is))
find_named full (some (a, b)) h is = h

-- An image with a tag is looked for as it is written, and one without gets the tag `latest`; a colon
-- before the first slash is the registry's port.
find_image_lem :
    (full : String)
    → find_image full ≡ (if has_char 58 (image_part full) then full else full & ":latest")
unfolding find_image parse_image image_part
find_image_lem full = elim (Bool-cases (has_char 58 (image_part full))) [
  | inl tagged ↦ rw tagged (
      find_named full (split_last 58 full) (split_last-Joins full)
        (has-part full (split_first 47 full) (split_first-Within full) tagged))
  | inr untagged ↦ rw untagged refl
]
