-- ===== src/Container/Compare/Sets.antt =====
-- The comparison of two lists as sets.
use mathlib.Core.Path.{subst}
use irnmn.Prelude.{
  Bool, ◌||◌, ◌++◌, ap, map, any, select, String, ◌≡◌, refl, ◌↔◌, true, false, not, ◌&&◌, ◌==◌,
  eq_iff, eq_refl, all, List, [], ◌∷◌, Bool-cases, inl, inr, arith, ◌∙◌, sym,
}
use irnmn.Container.Compare.{member, sets_differ}

-- The lists have the same members.
abbrev pub SameMembers : List String → List String → Type 0
SameMembers xs ys = (s : String) → member s xs ≡ member s ys

-- A member of a list whose members are all in another one.
member-all :
    (s : String) (xs ys : List String)
    → all (λ x. member x ys) xs ≡ true
    → member s xs ≡ true
    → member s ys ≡ true
member-all s [] ys h m = absurd (ground (arith, m))
member-all s (x ∷ xs) ys h m = elim (Bool-cases (x == s)) [
  | inl same ↦ subst (λ t. member t ys ≡ true) ((eq_iff x s).0 same) (ground (arith, h))
  | inr other ↦ member-all s xs ys (ground (arith, h)) (ground (arith, m, other))
]

all-member :
    (xs ys : List String)
    → ((s : String) → member s xs ≡ true → member s ys ≡ true)
    → all (λ x. member x ys) xs ≡ true
all-member [] ys h = refl
all-member (x ∷ xs) ys h =
    let first = h x (ground (arith, eq_refl x)) in
    let rest = all-member xs ys (λ s m. h s (ground (arith, m))) in ground (arith, first, rest)

-- `sets_differ` decides whether the members differ.
pub sets_differ_iff : (xs ys : List String) → (sets_differ xs ys ≡ false) ↔ SameMembers xs ys
unfolding sets_differ
sets_differ_iff xs ys = (same, equal)
  where
    same : not (all (λ x. member x ys) xs && all (λ y. member y xs) ys) ≡ false → SameMembers xs ys
    same h s = elim (Bool-cases (member s xs)) [
      | inl here ↦ here ∙ sym (member-all s xs ys (ground (arith, h)) here)
      | inr lacks ↦ elim (Bool-cases (member s ys)) [
        | inl there ↦ member-all s ys xs (ground (arith, h)) there ∙ sym there
        | inr absent ↦ lacks ∙ sym absent
      ]
    ]

    equal : SameMembers xs ys → not (all (λ x. member x ys) xs && all (λ y. member y xs) ys) ≡ false
    equal h =
        let left = all-member xs ys (λ s m. sym (h s) ∙ m) in
        let right = all-member ys xs (λ s m. h s ∙ m) in rw (left, right) refl

pub member-append :
    (s : String) (xs ys : List String) → member s (xs ++ ys) ≡ (member s xs || member s ys)
member-append s [] ys = refl
member-append s (x ∷ xs) ys = ground (arith, member-append s xs ys)

pub member-select :
    (s : String) (test : String → Bool) (xs : List String)
    → member s (select test xs) ≡ (member s xs && test s)
member-select s test [] = refl
member-select s test (x ∷ xs) = elim (Bool-cases (x == s)) [
  | inl same ↦ ground (arith, same, ap test ((eq_iff x s).0 same), member-select s test xs)
  | inr other ↦ ground (arith, other, member-select s test xs)
]

pub member-map :
    (s : String) (f : String → String) (xs : List String)
    → member s (map f xs) ≡ any (λ x. f x == s) xs
member-map s f [] = refl
member-map s f (x ∷ xs) = ground (arith, member-map s f xs)
