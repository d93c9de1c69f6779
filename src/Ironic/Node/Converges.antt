-- ===== src/Ironic/Node/Converges.antt =====
-- What an update of the driver information leaves to do: nothing.
use irnmn.Prelude.{◌≡◌, refl, false, [], ◌∷◌, ◌∙◌, eq_refl}
use irnmn.Values.{Dict, get, put, update}
use irnmn.Values.Laws.{IsDict, value_eq_refl, get-put, get-update_other}
use irnmn.Ironic.Node.{driver_info_differs}

-- The declared entries, merged into any driver information, are all in place afterwards: an update
-- that was stored is not asked for again.
driver_info_differs-update :
    (current desired : Dict)
    → IsDict desired
    → driver_info_differs (update current desired) desired ≡ false
unfolding driver_info_differs update
driver_info_differs-update current [] distinct = refl
driver_info_differs-update current ((k, v) ∷ rest) (absent, distinct) =
    let stored : get k (update (put k v current) rest) ≡ v =
      get-update_other k (put k v current) rest absent ∙ (get-put k k v current ∙ rw (eq_refl k)) in
    rw (stored, value_eq_refl v) (driver_info_differs-update (put k v current) rest distinct)
