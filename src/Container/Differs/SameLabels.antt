-- ===== src/Container/Differs/SameLabels.antt =====
-- The labels that the comparison of labels has found equal.
use mathlib.Core.Path.{subst}
use irnmn.Prelude.{
  ◌+◌, suc, length, select, not, All, ap, sym, ◌∙◌, ◌⊎◌, String, ◌≡◌, refl, Bool, true, false, ◌==◌,
  eq_iff, all, [], ◌∷◌, Option, none, some, Bool-cases, inl, inr, arith, if◌then◌else◌,
}
use irnmn.Container.Docker.Images.{is_found}
use irnmn.Effect.{Result, ok, err, key_error}
use irnmn.Container.Compare.Parsing.{Labels, find_label, has_value, delete_label, labels_differ}

-- Each declared label is there with its value.
abbrev pub HasAsked : Labels → Labels → Type 0
HasAsked asked current = all (λ entry. has_value (find_label entry.0 current) entry.1) asked ≡ true

-- The labels of the image that are not declared.
abbrev pub image_only : Labels → Labels → Labels
image_only asked image = select (λ entry. not (is_found (find_label entry.0 asked))) image

-- Each label of the image is declared with the image's value, or it is on the container.
abbrev pub HasImageLabels : Labels → Labels → Labels → Type 0
HasImageLabels asked current image =
    All
      (λ entry.
        (find_label entry.0 asked ≡ some entry.1) ⊎ (is_found (find_label entry.0 current) ≡ true))
      image

-- The labels are those that are declared and those that come from the image only, and there are no
-- more than these.
abbrev pub HasLabels : Labels → Labels → Labels → Type 0
HasLabels asked current image =
    HasAsked asked current
    × HasImageLabels asked current image
    × (length current ≡ length asked + length (image_only asked image))

then_ok :
    (test : Bool) (r : Result Bool)
    → test ≡ true
    → (if test then r else ok true) ≡ ok false
    → r ≡ ok false
then_ok true r is h = h
then_ok false r is h = absurd (ground (arith, is))

find-delete :
    (j k : String) (labels : Labels)
    → (k == j) ≡ false
    → find_label j (delete_label k labels) ≡ find_label j labels
unfolding find_label delete_label
find-delete j k [] other = refl
find-delete j k ((i, v) ∷ rest) other =
    ground (arith, eq_iff i k, eq_iff i j, eq_iff k j, other, find-delete j k rest other)

labels_kept :
    (new current : Labels) (k : String)
    → find_label k new ≡ none
    → HasAsked new (delete_label k current)
    → HasAsked new current
unfolding find_label
labels_kept [] current k absent h = refl
labels_kept ((j, v) ∷ rest) current k absent h = elim (Bool-cases (j == k)) [
  | inl same ↦ absurd (ground (arith, absent, same))
  | inr other ↦
      let found : find_label j (delete_label k current) ≡ find_label j current =
        find-delete j k current (ground (arith, eq_iff k j, eq_iff j k, other)) in
      let here : has_value (find_label j current) v ≡ true =
        subst (λ o. has_value o v ≡ true) found (ground (arith, h)) in
      let later = labels_kept rest current k (ground (arith, absent, other)) (ground (arith, h)) in
      ground (arith, here, later)
]

length-delete :
    (k : String) (labels : Labels)
    → is_found (find_label k labels) ≡ true
    → length labels ≡ suc (length (delete_label k labels))
unfolding find_label delete_label
length-delete k [] there = absurd (ground (arith, there))
length-delete k ((j, v) ∷ rest) there = ground (arith, length-delete k rest, there)

found-delete :
    (j k : String) (labels : Labels)
    → is_found (find_label j (delete_label k labels)) ≡ true
    → is_found (find_label j labels) ≡ true
unfolding find_label delete_label
found-delete j k [] there = there
found-delete j k ((i, v) ∷ rest) there = ground (arith, found-delete j k rest, there)

image-delete :
    (new current : Labels) (k : String) (image : Labels)
    → HasImageLabels new (delete_label k current) image
    → HasImageLabels new current image
image-delete new current k [] h = tt
image-delete new current k ((j, v) ∷ rest) (inl declared, later) =
    (inl declared, image-delete new current k rest later)
image-delete new current k ((j, v) ∷ rest) (inr there, later) =
    (inr (found-delete j k current there), image-delete new current k rest later)

-- One label of the image, before those that the loop still has.
label-same :
    (new current : Labels) (k v : String) (rest : Labels) (later : Labels → Result Bool)
    (asked found : Option String)
    → find_label k new ≡ asked
    → find_label k current ≡ found
    → ((c : Labels) → later c ≡ ok false → HasLabels new c rest)
    → (elim asked [
      | some a ↦ if v == a then later current else ok true
      | none ↦ elim found [ some _ ↦ later (delete_label k current) | none ↦ err (key_error k) ]
    ])
      ≡ ok false
    → HasLabels new current ((k, v) ∷ rest)
label-same new current k v rest later (some a) found e1 e2 gives h = elim (Bool-cases (v == a)) [
  | inl same ↦
      let (asked, image, count) = gives current (then_ok (v == a) (later current) same h) in
      (asked, (inl (e1 ∙ ap some (sym ((eq_iff v a).0 same))), image), rw (ap is_found e1) count)
  | inr other ↦ absurd (ground (arith, other, h))
]
label-same new current k v rest later none (some b) e1 e2 gives h =
    let (asked, image, count) = gives (delete_label k current) h in
    (
      labels_kept new current k e1 asked,
      (inr (ap is_found e2), image-delete new current k rest image),
      rw (ap is_found e1) (omega (arith, count, length-delete k current (ap is_found e2))),
    )
label-same new current k v rest later none none e1 e2 gives h = absurd (ground (arith, h))

pub labels-same :
    (new current image : Labels)
    → labels_differ new current image ≡ ok false
    → HasLabels new current image
unfolding labels_differ
labels-same new current [] h = (ground (arith, h), tt, ground (arith, h))
labels-same new current ((k, v) ∷ rest) h =
    label-same new current k v rest (λ c. labels_differ new c rest) (find_label k new)
      (find_label k current) refl refl (λ c. labels-same new c rest) h
