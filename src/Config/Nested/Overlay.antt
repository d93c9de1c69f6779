-- ===== src/Config/Nested/Overlay.antt =====
-- What a merge keeps of the later sources and of the earlier ones.
use mathlib.Core.Path.{subst}
use irnmn.Prelude.{
  String, ◌≡◌, refl, Bool, true, false, ◌==◌, eq_iff, inl, inr, arith, ◌∙◌, sym, ◌⊎◌, ap, List, [],
  ◌∷◌, Option, none, some, if◌then◌else◌,
}
use irnmn.Effect.{Result, ok, err}
use irnmn.Effect.Post.{Gives, Gives-map}
use irnmn.Config.Nested.{
  Conf, plain, items, mapping, Fields, no_field, field, get_field, put_field, put_result,
  as_mapping, and_next, replace_value, not_a_mapping, merge_value, update_nested_conf,
}

module _ {E : Type 0} where
  -- The entry of a key that comes last.
  unfoldable pub last_field : String → Fields E → Option (Conf E)
  last_field key no_field = none
  last_field key (field k v rest) = elim (last_field key rest) [
    | some later ↦ some later
    | none ↦ if k == key then some v else none
  ]

  abbrev pub entry : String → Option (Conf E) → Option (Conf E)
  entry key (some (mapping fields)) = get_field key fields
  entry key _ = none

  abbrev pub last_entry : String → Option (Conf E) → Option (Conf E)
  last_entry key (some (mapping fields)) = last_field key fields
  last_entry key _ = none

  -- The value at a path of keys.
  abbrev pub at : List String → Option (Conf E) → Option (Conf E)
  at [] found = found
  at (key ∷ path) found = at path (entry key found)

  -- The same in a source, of whose entries with one key the last one counts.
  abbrev pub last_at : List String → Option (Conf E) → Option (Conf E)
  last_at [] found = found
  last_at (key ∷ path) found = last_at path (last_entry key found)

  get_field-put_field :
      (j k : String) (v : Conf E) (fields : Fields E)
      → get_field k (put_field j v fields) ≡ (if j == k then some v else get_field k fields)
  unfolding get_field put_field
  get_field-put_field j k v no_field = refl
  get_field-put_field j k v (field i u rest) =
      ground (arith, eq_iff j k, eq_iff i j, eq_iff i k, get_field-put_field j k v rest)

  -- A plain value at the path of keys, for a value over another.
  abbrev HasPlain : List String → E → Conf E → Type 0
  HasPlain path a c = at path (some c) ≡ some (plain a)

  last_at-none : (path : List String) → last_at path none ≡ none
  last_at-none [] = refl
  last_at-none (key ∷ path) = last_at-none path

  at-none : (path : List String) → at path none ≡ none
  at-none [] = refl
  at-none (key ∷ path) = at-none path

  none_is_not-some : (a : Conf E) → ◌≡◌ {A = Option (Conf E)} none (some a) → ⊥
  none_is_not-some a h = ground (arith, h)

  is_plain : (a b : E) → ◌≡◌ {A = Option (Conf E)} (some (plain b)) (some (plain a)) → b ≡ a
  is_plain a b h = ground (arith, h)

  not_items :
      (xs : List E) (a : E) → ◌≡◌ {A = Option (Conf E)} (some (items xs)) (some (plain a)) → ⊥
  not_items xs a h = ground (arith, h)

  not_mapping :
      (fields : Fields E) (a : E)
      → ◌≡◌ {A = Option (Conf E)} (some (mapping fields)) (some (plain a))
      → ⊥
  not_mapping fields a h = ground (arith, h)

  -- A value that is no mapping replaces what is there, unless both are lists.
  replaces :
      (extend_lists : Bool) (key : String) (found : Option (Conf E)) (a : E)
      → Gives (λ c. c ≡ plain a) (replace_value extend_lists key found (plain a))
  replaces true key none a = refl
  replaces true key (some (plain b)) a = refl
  replaces true key (some (items xs)) a = tt
  replaces true key (some (mapping fields)) a = refl
  replaces false key found a = refl

  mapped :
      (r : Result (Fields E)) (path : List String) (a : E) (k : String)
      → Gives (λ fields. at path (get_field k fields) ≡ some (plain a)) r
      → Gives (HasPlain (k ∷ path) a) (as_mapping r)
  mapped (ok fields) path a k h = h
  mapped (err e) path a k h = tt

  -- An update of something that is no mapping returns only if it has no entry.
  over_other :
      (found : Conf E) (update : Fields E) (a : E) (k : String) (path : List String)
      → last_at path (last_field k update) ≡ some (plain a)
      → Gives (HasPlain (k ∷ path) a) (not_a_mapping found update)
  unfolding last_field
  over_other found no_field a k path h =
      absurd (none_is_not-some (plain a) (sym (last_at-none path) ∙ h))
  over_other found (field j v rest) a k path h = tt

  plain_over :
      (extend_lists : Bool) (key : String) (found : Option (Conf E)) (b a : E) (path : List String)
      → last_at path (some (plain b)) ≡ some (plain a)
      → Gives (HasPlain path a) (replace_value extend_lists key found (plain b))
  plain_over extend_lists key found b a [] h =
      Gives-map (λ c. c ≡ plain b) (HasPlain [] a) _ (λ c same. ap some same ∙ h)
        (replaces extend_lists key found b)
  plain_over extend_lists key found b a (k ∷ path) h =
      absurd (none_is_not-some (plain a) (sym (last_at-none path) ∙ h))

  and_next-Gives :
      (Q : Fields E → Type 0) (key : String) (conf : Fields E) (m : Result (Conf E))
      (next : Fields E → Result (Fields E))
      → ((c : Conf E) → m ≡ ok c → Gives Q (next (put_field key c conf)))
      → Gives Q (and_next (put_result key conf m) next)
  and_next-Gives Q key conf (ok c) next h = h c refl
  and_next-Gives Q key conf (err e) next h = tt

  -- Whether the last entry of a key is a later one.
  last_none :
      (later : Option (Conf E)) (test : Bool) (v : Conf E)
      → (elim later [ some l ↦ some l | none ↦ if test then some v else none ]) ≡ none
      → (later ≡ none) × (test ≡ false)
  last_none (some l) test v h = absurd (none_is_not-some l (sym h))
  last_none none true v h = absurd (none_is_not-some v (sym h))
  last_none none false v h = (refl, refl)

  last_cases :
      (later : Option (Conf E)) (test : Bool) (v : Conf E) (path : List String) (a : E)
      → last_at path (elim later [ some l ↦ some l | none ↦ if test then some v else none ])
        ≡ some (plain a)
      → (last_at path later ≡ some (plain a))
        ⊎ ((later ≡ none) × (test ≡ true) × (last_at path (some v) ≡ some (plain a)))
  last_cases (some l) test v path a h = inl h
  last_cases none true v path a h = inr (refl, refl, h)
  last_cases none false v path a h =
      absurd (none_is_not-some (plain a) (sym (last_at-none path) ∙ h))

  update-other :
      (extend_lists : Bool) (k : String) (conf update : Fields E)
      → last_field k update ≡ none
      → Gives (λ r. get_field k r ≡ get_field k conf) (update_nested_conf extend_lists conf update)
  unfolding last_field update_nested_conf
  update-other extend_lists k conf no_field absent = refl
  update-other extend_lists k conf (field j v rest) absent =
      let (later, other) = last_none (last_field k rest) (j == k) v absent in
      and_next-Gives _ j conf (merge_value extend_lists j (get_field j conf) v) _ (λ c _.
        Gives-map (λ r. get_field k r ≡ get_field k (put_field j c conf))
          (λ r. get_field k r ≡ get_field k conf) _
          (λ r kept. kept ∙ (get_field-put_field j k c conf ∙ ground (arith, other)))
          (update-other extend_lists k (put_field j c conf) rest later))

  mutual
    unfolding last_field update_nested_conf

    value_over :
        (extend_lists : Bool) (key : String) (found : Option (Conf E)) (v : Conf E) (a : E)
        (path : List String)
        → last_at path (some v) ≡ some (plain a)
        → Gives (HasPlain path a) (merge_value extend_lists key found v)
    value_over extend_lists key found (plain b) a path h =
        plain_over extend_lists key found b a path h
    value_over extend_lists key found (items xs) a [] h = absurd (not_items xs a h)
    value_over extend_lists key found (items xs) a (k ∷ path) h =
        absurd (none_is_not-some (plain a) (sym (last_at-none path) ∙ h))
    value_over extend_lists key found (mapping update) a [] h = absurd (not_mapping update a h)
    value_over extend_lists key none (mapping update) a (k ∷ path) h =
        mapped (update_nested_conf extend_lists no_field update) path a k
          (fields_over extend_lists no_field update a k path h)
    value_over extend_lists key (some (mapping conf)) (mapping update) a (k ∷ path) h =
        mapped (update_nested_conf extend_lists conf update) path a k
          (fields_over extend_lists conf update a k path h)
    value_over extend_lists key (some (plain b)) (mapping update) a (k ∷ path) h =
        over_other (plain b) update a k path h
    value_over extend_lists key (some (items xs)) (mapping update) a (k ∷ path) h =
        over_other (items xs) update a k path h

    fields_over :
        (extend_lists : Bool) (conf update : Fields E) (a : E) (k : String) (path : List String)
        → last_at path (last_field k update) ≡ some (plain a)
        → Gives
            (λ r. at path (get_field k r) ≡ some (plain a))
            (update_nested_conf extend_lists conf update)
    fields_over extend_lists conf no_field a k path h =
        absurd (none_is_not-some (plain a) (sym (last_at-none path) ∙ h))
    fields_over extend_lists conf (field j v rest) a k path h =
        elim (last_cases (last_field k rest) (j == k) v path a h) [
          | inl later ↦
              and_next-Gives _ j conf (merge_value extend_lists j (get_field j conf) v) _
                (λ c _. fields_over extend_lists (put_field j c conf) rest a k path later)
          | inr (absent, same, here) ↦
              and_next-Gives _ j conf (merge_value extend_lists j (get_field j conf) v) _
                (λ c merged.
                  Gives-map (λ r. get_field k r ≡ get_field k (put_field j c conf))
                    (λ r. at path (get_field k r) ≡ some (plain a)) _
                    (λ r kept.
                      ap (at path) (kept ∙ (get_field-put_field j k c conf ∙ ground (arith, same)))
                      ∙ subst (Gives (HasPlain path a)) merged
                          (value_over extend_lists j (get_field j conf) v a path here))
                    (update-other extend_lists k (put_field j c conf) rest absent))
        ]
