-- ===== src/Filters/Fluentd/Chosen.antt =====
-- The templates that customise_fluentd chooses, and their order.
use Prim.Native.Char.{code}
use Prim.Native.Nat.compare as compare_ℕ
use Prim.Native.Nat.{Ordering, compare as compare_ℕ}
use Prim.Native.String.compare
use Prim.Native.String.{String, compare, then as next_order}
use irnmn.Prelude.{
  not, ℕ, zero, suc, ◌≡◌, refl, sym, ap, true, false, ◌&&◌, ◌||◌, ◌==◌, ◌++◌, ◌∙◌, select, List, [],
  ◌∷◌, arith, Bool-cases, inl, inr,
}
use irnmn.Container.Compare.{member}
use irnmn.Container.Compare.Sets.{member-append, member-select}
use irnmn.Filters.Fluentd.Named.{file_name, is_overridden, basename-named, is_kept-named}
use irnmn.Filters.Fluentd.{basename, is_gt, insert_path, sorted_paths, is_kept, customise_fluentd}

abbrev flip : Ordering → Ordering
flip Ordering.lt = Ordering.gt
flip Ordering.eq = Ordering.eq
flip Ordering.gt = Ordering.lt

flip_number : (m n : ℕ) → compare_ℕ n m ≡ flip (compare_ℕ m n)
flip_number zero zero = refl
flip_number zero (suc n) = compare_ℕ.suc-zero n ∙ sym (ap flip (compare_ℕ.zero-suc n))
flip_number (suc m) zero = compare_ℕ.zero-suc m ∙ sym (ap flip (compare_ℕ.suc-zero m))
flip_number (suc m) (suc n) =
    compare_ℕ.suc-suc n m ∙ (flip_number m n ∙ sym (ap flip (compare_ℕ.suc-suc m n)))

flip_then : (o p : Ordering) → next_order (flip o) (flip p) ≡ flip (next_order o p)
flip_then Ordering.lt p = refl
flip_then Ordering.eq p = refl
flip_then Ordering.gt p = refl

flip_text : (s t : String) → compare t s ≡ flip (compare s t)
flip_text String.[] String.[] = refl
flip_text String.[] (String.◌∷◌ d t) = compare.cons-nil d t ∙ sym (ap flip (compare.nil-cons d t))
flip_text (String.◌∷◌ c s) String.[] = compare.nil-cons c s ∙ sym (ap flip (compare.cons-nil c s))
flip_text (String.◌∷◌ c s) (String.◌∷◌ d t) =
    compare.cons-cons d c t s
    ∙ (ap (λ o. next_order o (compare t s)) (flip_number (code c) (code d))
        ∙ (ap (λ p. next_order (flip (compare_ℕ (code c) (code d))) p) (flip_text s t)
            ∙ (flip_then (compare_ℕ (code c) (code d)) (compare s t)
                ∙ sym (ap flip (compare.cons-cons c d s t)))))

flip_after : (o : Ordering) → is_gt o ≡ true → is_gt (flip o) ≡ false
flip_after Ordering.lt h = absurd (ground (arith, h))
flip_after Ordering.eq h = absurd (ground (arith, h))
flip_after Ordering.gt h = refl

-- The basename of the first path does not come after that of the second.
abbrev pub IsBefore : String → String → Type 0
IsBefore a b = is_gt (compare (basename a) (basename b)) ≡ false

abbrev pub BeforeFirst : String → List String → Type 0
BeforeFirst a [] = Unit
BeforeFirst a (b ∷ rest) = IsBefore a b

-- Each path is before the next one.
abbrev pub AreSorted : List String → Type 0
AreSorted [] = Unit
AreSorted (a ∷ rest) = BeforeFirst a rest × AreSorted rest

insert_path-AreSorted :
    (path : String) (paths : List String) → AreSorted paths → AreSorted (insert_path path paths)
unfolding insert_path
insert_path-AreSorted path [] h = (tt, tt)
insert_path-AreSorted path (other ∷ rest) (first, later) =
    elim (Bool-cases (is_gt (compare (basename path) (basename other)))) [
      | inr before ↦ rw before (before, (first, later))
      | inl after ↦
          rw after (first_before rest (swapped after) first, insert_path-AreSorted path rest later)
    ]
  where
    swapped : is_gt (compare (basename path) (basename other)) ≡ true → IsBefore other path
    swapped after = ap is_gt (flip_text (basename path) (basename other)) ∙ flip_after _ after

    first_before :
        (rest : List String)
        → IsBefore other path
        → BeforeFirst other rest
        → BeforeFirst other (insert_path path rest)
    first_before [] after first = after
    first_before (next ∷ rest) after first =
        elim (Bool-cases (is_gt (compare (basename path) (basename next)))) [
          | inl later ↦ rw later first
          | inr sooner ↦ rw sooner after
        ]

pub sorted_paths-AreSorted : (paths : List String) → AreSorted (sorted_paths paths)
unfolding sorted_paths
sorted_paths-AreSorted [] = tt
sorted_paths-AreSorted (path ∷ rest) =
    insert_path-AreSorted path (sorted_paths rest) (sorted_paths-AreSorted rest)

member-insert_path :
    (s path : String) (paths : List String)
    → member s (insert_path path paths) ≡ (path == s || member s paths)
unfolding insert_path
member-insert_path s path [] = refl
member-insert_path s path (other ∷ rest) = ground (arith, member-insert_path s path rest)

member-sorted_paths :
    (s : String) (paths : List String) → member s (sorted_paths paths) ≡ member s paths
unfolding sorted_paths
member-sorted_paths s [] = refl
member-sorted_paths s (path ∷ rest) =
    ground (arith, member-insert_path s path (sorted_paths rest), member-sorted_paths s rest)

-- The file name of the first path does not come after that of the second.
abbrev pub IsNamedBefore : String → List String → Type 0
IsNamedBefore a [] = Unit
IsNamedBefore a (b ∷ rest) = is_gt (compare (file_name a) (file_name b)) ≡ false

-- Each path is before the next one by its file name.
abbrev pub AreOrdered : List String → Type 0
AreOrdered [] = Unit
AreOrdered (a ∷ rest) = IsNamedBefore a rest × AreOrdered rest

sorted-AreOrdered : (paths : List String) → AreSorted paths → AreOrdered paths
sorted-AreOrdered [] h = tt
sorted-AreOrdered (a ∷ []) h = (tt, tt)
sorted-AreOrdered (a ∷ (b ∷ rest)) (first, later) =
    (rw (sym (basename-named a), sym (basename-named b)) first, sorted-AreOrdered (b ∷ rest) later)

-- The result is ordered by the file names, and its paths are the customised ones and those default
-- ones whose file name without its extension is the file name of no customised path, whatever the
-- order in which the set of the paths is iterated. The file name is what follows the last slash, and
-- the extension starts at the last dot, but not at one of the first dots.
pub customise_fluentd-chosen :
    (order : List String → List String) (default_paths customised_paths : List String)
    → ((paths : List String) (s : String) → member s (order paths) ≡ member s paths)
    → AreOrdered (customise_fluentd order default_paths customised_paths)
      × ((s : String)
          → member s (customise_fluentd order default_paths customised_paths) ≡ (
              member s default_paths && not (is_overridden customised_paths s)
              || member s customised_paths))
unfolding customise_fluentd
customise_fluentd-chosen order default_paths customised_paths iterates =
    let kept = select (is_kept customised_paths) default_paths in
    (
      sorted-AreOrdered (sorted_paths (order (kept ++ customised_paths)))
          (sorted_paths-AreSorted (order (kept ++ customised_paths))),
      λ s.
          member-sorted_paths s (order (kept ++ customised_paths))
          ∙ (iterates (kept ++ customised_paths) s
              ∙ (member-append s kept customised_paths
                  ∙ ap (λ b. b || member s customised_paths)
                      (member-select s (is_kept customised_paths) default_paths
                        ∙ ap (λ b. member s default_paths && b)
                            (is_kept-named customised_paths s)))),
    )
