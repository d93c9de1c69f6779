-- ===== src/Values/Laws.antt =====
-- Laws of the mappings.
use irnmn.Prelude.{
  Bool, true, false, ◌||◌, ◌∙◌, eq_refl, String, ◌≡◌, refl, [], ◌∷◌, ◌==◌, eq_iff, arith,
  if◌then◌else◌,
}
use irnmn.Values.{Value, null, text, boolean, value_eq, Dict, get, put, update}

pub get-put :
    (k j : String) (v : Value) (d : Dict) → get j (put k v d) ≡ (if k == j then v else get j d)
unfolding get put
get-put k j v [] = refl
get-put k j v ((i, u) ∷ d) = ground (arith, eq_iff k j, eq_iff i k, eq_iff i j, get-put k j v d)

abbrev pub has_key : String → Dict → Bool
has_key k [] = false
has_key k ((j, v) ∷ d) = j == k || has_key k d

-- The keys of a dict differ.
abbrev pub IsDict : Dict → Type 0
IsDict [] = Unit
IsDict ((k, v) ∷ d) = (has_key k d ≡ false) × IsDict d

pub value_eq_refl : (v : Value) → value_eq v v ≡ true
value_eq_refl null = refl
value_eq_refl (text s) = eq_refl s
value_eq_refl (boolean true) = refl
value_eq_refl (boolean false) = refl

-- `update` leaves the keys that the other mapping lacks.
pub get-update_other :
    (k : String) (d other : Dict) → has_key k other ≡ false → get k (update d other) ≡ get k d
unfolding get update
get-update_other k d [] absent = refl
get-update_other k d ((j, v) ∷ other) absent =
    get-update_other k (put j v d) other (ground (arith, absent))
    ∙ (get-put j k v d ∙ ground (arith, absent))
