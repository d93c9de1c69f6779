-- ===== src/Config/Ini/Assigned.antt =====
-- The values of a key after sources were parsed.
use mathlib.Core.List.{append_assoc, append-nil}
use mathlib.Core.Path.{subst}
use irnmn.Prelude.{
  String, ◌≡◌, refl, true, false, ◌==◌, ◌&&◌, eq_iff, eq_refl, Bool-cases, inl, inr, arith, ◌∙◌,
  sym, ap, List, [], ◌∷◌, ◌++◌, is_empty, Option, none, some, if◌then◌else◌,
}
use irnmn.Config.Ini.{
  find_in, put_in, Section, Sections, Line, section_line, assignment_line, Parser, orphan_section,
  or_empty, new_section, lines_of, assign_to, assign_in, assignment, read_lines,
}

-- The values of a key of a section.
abbrev pub value_at : String → String → Sections → Option (List (List String))
value_at section key sections = find_in key (or_empty (find_in section sections))

abbrev pub name_of : Option String → String
name_of none = orphan_section
name_of (some section) = section

-- The assignments of a source to a key of a section, which is the one of the last section line.
unfoldable pub assigned : String → String → Option String → List Line → List (List String)
assigned section key cur [] = []
assigned section key cur (section_line s ∷ lines) = assigned section key (some s) lines
assigned section key cur (assignment_line k value ∷ lines) =
    let rest = assigned section key (some (name_of cur)) lines in
    if name_of cur == section && k == key then lines_of value ∷ rest else rest

-- The values with those of later lines.
abbrev pub and_later :
    Option (List (List String)) → List (List String) → Option (List (List String))
and_later none [] = none
and_later none (v ∷ values) = some (v ∷ values)
and_later (some old) values = some (old ++ values)

abbrev pub override : {A : Type 0} → Option A → Option A → Option A
override (some a) old = some a
override none old = old

pub find_in-put_in :
    {A : Type 0} (k j : String) (a : A) (d : List (String × A))
    → find_in j (put_in k a d) ≡ (if k == j then some a else find_in j d)
unfolding find_in put_in
find_in-put_in k j a [] = refl
find_in-put_in k j a ((i, b) ∷ rest) =
    ground (arith, eq_iff k j, eq_iff i k, eq_iff i j, find_in-put_in k j a rest)

empty_is : {A : Type 0} (xs : List A) → is_empty xs ≡ true → xs ≡ []
empty_is [] h = refl
empty_is (x ∷ xs) h = absurd (ground (arith, h))

later-later :
    (old : Option (List (List String))) (v : List String) (rest : List (List String))
    → and_later (some (or_empty old ++ (v ∷ []))) rest ≡ and_later old (v ∷ rest)
later-later none v rest = refl
later-later (some xs) v rest = ap some (append_assoc xs (v ∷ []) rest)

later-nil : (old : Option (List (List String))) → and_later old [] ≡ old
later-nil none = refl
later-nil (some xs) = ap some (append-nil xs)

pub find-same :
    {A : Type 0} (k j : String) (a : A) (d : List (String × A))
    → (k == j) ≡ true
    → find_in j (put_in k a d) ≡ some a
find-same k j a d same = find_in-put_in k j a d ∙ ground (arith, same)

pub find-other :
    {A : Type 0} (k j : String) (a : A) (d : List (String × A))
    → (k == j) ≡ false
    → find_in j (put_in k a d) ≡ find_in j d
find-other k j a d other = find_in-put_in k j a d ∙ ground (arith, other)

extended :
    {A : Type 0} (k key : String) (v : A) (d : List (String × List A))
    → find_in key (put_in k (or_empty (find_in k d) ++ (v ∷ [])) d)
      ≡ (if k == key then some (or_empty (find_in key d) ++ (v ∷ [])) else find_in key d)
extended k key v d = elim (Bool-cases (k == key)) [
  | inl same ↦
      rw (find-same k key (or_empty (find_in k d) ++ (v ∷ [])) d same, same)
        (ap (λ j. some (or_empty (find_in j d) ++ (v ∷ []))) ((eq_iff k key).0 same))
  | inr other ↦ rw (find-other k key (or_empty (find_in k d) ++ (v ∷ [])) d other, other) refl
]

module _ (section key : String) where
  new_section-value_at :
      (s : String) (p : Parser)
      → value_at section key (new_section s p).cur_sections ≡ value_at section key p.cur_sections
  unfolding new_section
  new_section-value_at s p = elim (Bool-cases (is_empty (or_empty (find_in s p.cur_sections)))) [
    | inr full ↦ rw full refl
    | inl vacant ↦ elim (Bool-cases (s == section)) [
      | inl same ↦
          rw (vacant, find-same {A = Section} s section [] p.cur_sections same)
            (ap (find_in key) (
              sym (
                subst (λ t. or_empty (find_in t p.cur_sections) ≡ []) ((eq_iff s section).0 same)
                  (empty_is _ vacant))))
      | inr other ↦ rw (vacant, find-other {A = Section} s section [] p.cur_sections other) refl
    ]
  ]

  abbrev extend : String → String → List String → Sections → Option (List (List String))
  extend s k value sections =
      if s == section && k == key
      then some (or_empty (value_at section key sections) ++ (lines_of value ∷ []))
      else value_at section key sections

  assign_to-value_at :
      (s k : String) (value : List String) (sections : Sections)
      → value_at section key (assign_to s k value sections) ≡ extend s k value sections
  assign_to-value_at s k value sections = elim (Bool-cases (s == section)) [
    | inl same ↦
        subst (λ t. value_at section key (assign_to t k value sections) ≡ extend t k value sections)
          (sym ((eq_iff s section).0 same)) here
    | inr other ↦ rw (other, find-other {A = Section} s section _ sections other) refl
  ]
    where
      here :
          value_at section key (assign_to section k value sections)
          ≡ extend section k value sections
      here =
          rw
            (
              find-same {A = Section} section section
                  (put_in k
                    (or_empty (find_in k (or_empty (find_in section sections)))
                      ++ (lines_of value ∷ []))
                    (or_empty (find_in section sections)))
                  sections (eq_refl section),
              eq_refl section,
            )
            (extended k key (lines_of value) (or_empty (find_in section sections)))

  assign_in-value_at :
      (cur : Option String) (k : String) (value : List String) (p : Parser)
      → value_at section key (assign_in cur k value p).cur_sections
        ≡ extend (name_of cur) k value p.cur_sections
  assign_in-value_at (some s) k value p = assign_to-value_at s k value p.cur_sections
  assign_in-value_at none k value p =
      assign_to-value_at orphan_section k value (new_section orphan_section p).cur_sections
      ∙ ap
          (λ o.
            if orphan_section == section && k == key
            then some (or_empty o ++ (lines_of value ∷ []))
            else o)
          (new_section-value_at orphan_section p)

  assign_in-cur_section :
      (cur : Option String) (k : String) (value : List String) (p : Parser)
      → (assign_in cur k value p).cur_section ≡ some (name_of cur)
  assign_in-cur_section none k value p = refl
  assign_in-cur_section (some s) k value p = refl

  later-extend :
      (s k : String) (value : List String) (sections : Sections) (rest : List (List String))
      → and_later (extend s k value sections) rest
        ≡ and_later
            (value_at section key sections)
            (if s == section && k == key then lines_of value ∷ rest else rest)
  later-extend s k value sections rest = elim (Bool-cases (s == section && k == key)) [
    | inl same ↦ rw same (later-later (value_at section key sections) (lines_of value) rest)
    | inr other ↦ rw other refl
  ]

  -- A source adds to the values of a key those that it assigns.
  pub read_lines-value_at :
      (lines : List Line) (p : Parser)
      → value_at section key (read_lines lines p).cur_sections
        ≡ and_later (value_at section key p.cur_sections) (assigned section key p.cur_section lines)
  unfolding read_lines assigned assignment
  read_lines-value_at [] p = sym (later-nil (value_at section key p.cur_sections))
  read_lines-value_at (section_line s ∷ lines) p =
      read_lines-value_at lines (new_section s p)
      ∙ ap (λ o. and_later o (assigned section key (some s) lines)) (new_section-value_at s p)
  read_lines-value_at (assignment_line k value ∷ lines) p =
      read_lines-value_at lines (assign_in p.cur_section k value p)
      ∙ rw
          (
            assign_in-cur_section p.cur_section k value p,
            assign_in-value_at p.cur_section k value p,
          )
          (later-extend (name_of p.cur_section) k value p.cur_sections _)
