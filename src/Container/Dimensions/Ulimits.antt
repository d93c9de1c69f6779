-- ===== src/Container/Dimensions/Ulimits.antt =====
-- `compare_ulimits` of kolla_container_worker.py.
use Prim.Native.String.{compare}
use Prim.Native.Nat.{Ordering}
use irnmn.Prelude.{ℕ, Bool, true, false, not, ◌&&◌, ◌==◌, nat_eq, List, [], ◌∷◌, Option, none, some}
use irnmn.Container.Params.{Ulimit}

abbrev pub same_limit : Option ℕ → Option ℕ → Bool
same_limit none none = true
same_limit (some m) (some n) = nat_eq m n
same_limit _ _ = false

abbrev pub same_ulimit : Ulimit → Ulimit → Bool
same_ulimit a b = a.name == b.name && same_limit a.soft b.soft && same_limit a.hard b.hard

abbrev pub same_ulimits : List Ulimit → List Ulimit → Bool
same_ulimits [] [] = true
same_ulimits (a ∷ as') (b ∷ bs) = same_ulimit a b && same_ulimits as' bs
same_ulimits _ _ = false

-- `sorted` by the names, which keeps the order of equal ones.
abbrev pub insert_ulimit : Ulimit → List Ulimit → List Ulimit
insert_ulimit a [] = a ∷ []
insert_ulimit a (b ∷ rest) = elim (compare a.name b.name) [
  | Ordering.gt ↦ b ∷ insert_ulimit a rest
  | _ ↦ a ∷ b ∷ rest
]

unfoldable pub by_name : List Ulimit → List Ulimit
by_name [] = []
by_name (a ∷ rest) = insert_ulimit a (by_name rest)

unfoldable pub compare_ulimits : List Ulimit → List Ulimit → Bool
unfolding by_name
compare_ulimits new_ulimits current_ulimits =
    not (same_ulimits (by_name new_ulimits) (by_name current_ulimits))
