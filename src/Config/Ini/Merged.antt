-- ===== src/Config/Ini/Merged.antt =====
-- The sources merged: the last one that assigns a key has its values.
use mathlib.Core.Path.{subst}
use irnmn.Prelude.{
  String, ◌≡◌, refl, Bool, false, ◌==◌, ◌||◌, eq_iff, Bool-cases, inl, inr, arith, ◌∙◌, ap, List,
  [], ◌∷◌, is_empty, Option, none, some,
}
use irnmn.Config.Ini.{
  find_in, put_in, Section, Sections, Line, section_line, assignment_line, Parser, orphan_section,
  or_empty, new_section, assign_to, assign_in, assignment, read_lines, merge_section,
  merge_sections, parse,
}
use irnmn.Config.Ini.Assigned.{
  value_at, assigned, and_later, override, find-same, find-other, read_lines-value_at,
}

abbrev has_name : {A : Type 0} → String → List (String × A) → Bool
has_name key [] = false
has_name key ((k, a) ∷ rest) = k == key || has_name key rest

-- The keys differ.
abbrev IsDistinct : {A : Type 0} → List (String × A) → Type 0
IsDistinct [] = Unit
IsDistinct ((k, a) ∷ rest) = (has_name k rest ≡ false) × IsDistinct rest

abbrev AreDistinct : Sections → Type 0
AreDistinct [] = Unit
AreDistinct ((s, values) ∷ rest) = (has_name s rest ≡ false) × IsDistinct values × AreDistinct rest

find-absent :
    {A : Type 0} (k : String) (d : List (String × A)) → has_name k d ≡ false → find_in k d ≡ none
unfolding find_in
find-absent k [] h = refl
find-absent k ((j, a) ∷ rest) h =
    let later = find-absent k rest (ground (arith, h)) in ground (arith, h, later)

has_name-put_in :
    {A : Type 0} (j k : String) (a : A) (d : List (String × A))
    → has_name j d ≡ false
    → (k == j) ≡ false
    → has_name j (put_in k a d) ≡ false
unfolding put_in
has_name-put_in j k a [] h other = ground (arith, other)
has_name-put_in j k a ((i, b) ∷ rest) h other =
    let later = has_name-put_in j k a rest (ground (arith, h)) other in
    ground (arith, h, other, later)

put_in-IsDistinct :
    {A : Type 0} (k : String) (a : A) (d : List (String × A))
    → IsDistinct d
    → IsDistinct (put_in k a d)
unfolding put_in
put_in-IsDistinct k a [] h = (refl, tt)
put_in-IsDistinct k a ((i, b) ∷ rest) (absent, distinct) = elim (Bool-cases (i == k)) [
  | inl same ↦ rw same (absent, distinct)
  | inr other ↦ rw other (
    has_name-put_in i k a rest absent (ground (arith, eq_iff i k, eq_iff k i, other)),
    put_in-IsDistinct k a rest distinct,
  )
]

put_in-AreDistinct :
    (s : String) (values : Section) (d : Sections)
    → IsDistinct values
    → AreDistinct d
    → AreDistinct (put_in s values d)
unfolding put_in
put_in-AreDistinct s values [] h all = (refl, h, tt)
put_in-AreDistinct s values ((i, b) ∷ rest) h (absent, here, later) = elim (Bool-cases (i == s)) [
  | inl same ↦ rw same (absent, h, later)
  | inr other ↦ rw other (
    has_name-put_in i s values rest absent (ground (arith, eq_iff i s, eq_iff s i, other)),
    here,
    put_in-AreDistinct s values rest h later,
  )
]

found-IsDistinct : (s : String) (d : Sections) → AreDistinct d → IsDistinct (or_empty (find_in s d))
unfolding find_in
found-IsDistinct s [] h = tt
found-IsDistinct s ((i, b) ∷ rest) (absent, here, later) = elim (Bool-cases (i == s)) [
  | inl same ↦ rw same here
  | inr other ↦ rw other (found-IsDistinct s rest later)
]

new_section-AreDistinct :
    (s : String) (p : Parser)
    → AreDistinct p.cur_sections
    → AreDistinct (new_section s p).cur_sections
unfolding new_section
new_section-AreDistinct s p h = elim (Bool-cases (is_empty (or_empty (find_in s p.cur_sections)))) [
  | inl vacant ↦ rw vacant (put_in-AreDistinct s [] p.cur_sections tt h)
  | inr full ↦ rw full h
]

assign_to-AreDistinct :
    (s k : String) (value : List String) (d : Sections)
    → AreDistinct d
    → AreDistinct (assign_to s k value d)
assign_to-AreDistinct s k value d h =
    put_in-AreDistinct s _ d
      (put_in-IsDistinct k _ (or_empty (find_in s d)) (found-IsDistinct s d h)) h

assign_in-AreDistinct :
    (cur : Option String) (k : String) (value : List String) (p : Parser)
    → AreDistinct p.cur_sections
    → AreDistinct (assign_in cur k value p).cur_sections
assign_in-AreDistinct none k value p h =
    assign_to-AreDistinct orphan_section k value _ (new_section-AreDistinct orphan_section p h)
assign_in-AreDistinct (some s) k value p h = assign_to-AreDistinct s k value p.cur_sections h

read_lines-AreDistinct :
    (lines : List Line) (p : Parser)
    → AreDistinct p.cur_sections
    → AreDistinct (read_lines lines p).cur_sections
unfolding read_lines assignment
read_lines-AreDistinct [] p h = h
read_lines-AreDistinct (section_line s ∷ lines) p h =
    read_lines-AreDistinct lines (new_section s p) (new_section-AreDistinct s p h)
read_lines-AreDistinct (assignment_line k value ∷ lines) p h =
    read_lines-AreDistinct lines (assign_in p.cur_section k value p)
      (assign_in-AreDistinct p.cur_section k value p h)

find-merge_section :
    (k : String) (old new : Section)
    → IsDistinct new
    → find_in k (merge_section old new) ≡ override (find_in k new) (find_in k old)
unfolding merge_section find_in
find-merge_section k old [] h = refl
find-merge_section k old ((j, values) ∷ rest) (absent, distinct) =
    find-merge_section k (put_in j values old) rest distinct ∙ (elim (Bool-cases (j == k)) [
      | inl same ↦
          rw
            (
              same,
              find-same j k values old same,
              find-absent k rest
                  (subst (λ t. has_name t rest ≡ false) ((eq_iff j k).0 same) absent),
            )
            refl
      | inr other ↦ rw (other, find-other j k values old other) refl
    ])

value_at-merge_sections :
    (s k : String) (old new : Sections)
    → AreDistinct new
    → value_at s k (merge_sections old new) ≡ override (value_at s k new) (value_at s k old)
unfolding merge_sections find_in
value_at-merge_sections s k old [] h = refl
value_at-merge_sections s k old ((t, values) ∷ rest) (absent, here, later) =
    value_at-merge_sections s k (put_in t (merge_section (or_empty (find_in t old)) values) old)
      rest later
    ∙ (elim (Bool-cases (t == s)) [
      | inl same ↦
          rw
            (
              same,
              find-same {A = Section} t s (merge_section (or_empty (find_in t old)) values) old
                  same,
              find-absent s rest
                  (subst (λ u. has_name u rest ≡ false) ((eq_iff t s).0 same) absent),
            )
            (find-merge_section k (or_empty (find_in t old)) values here
              ∙ ap (λ u. override (find_in k values) (find_in k (or_empty (find_in u old))))
                  ((eq_iff t s).0 same))
      | inr other ↦
          rw
            (
              other,
              find-other {A = Section} t s (merge_section (or_empty (find_in t old)) values) old
                  other,
            )
            refl
    ])

-- Parsing another source replaces the values of exactly the keys that it assigns, each by all the
-- values that it assigns in that section, in their order; the other keys keep the values they had.
pub parse-value_at :
    (section key : String) (old : Sections) (lines : List Line)
    → value_at section key (parse old lines)
      ≡ override (and_later none (assigned section key none lines)) (value_at section key old)
unfolding parse find_in
parse-value_at section key old lines =
    let p : Parser = record { cur_sections = []; cur_section = none } in
    value_at-merge_sections section key old (read_lines lines p).cur_sections
      (read_lines-AreDistinct lines p tt)
    ∙ ap (λ o. override o (value_at section key old)) (read_lines-value_at section key lines p)
