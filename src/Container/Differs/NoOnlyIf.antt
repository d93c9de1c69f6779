-- ===== src/Container/Differs/NoOnlyIf.antt =====
-- Calls that answer whether something differs, chained by `or`.
use irnmn.Prelude.{◌≡◌, refl, Bool, true, false, arith, if◌then◌else◌}
use irnmn.Effect.{Result, ok, err, Exec, pure, lift}
use irnmn.Effect.Post.{Returns, Returns-follow, Returns-map}
use irnmn.Container.Engine.{◌or_else◌}

-- A call that answers no only where `P` holds.
pub record NoOnlyIf {W : Type 0} (P : Type 0) (m : Exec W Bool) : Type 0 where
  pub holds : (w : W) → Returns (λ answer _. answer ≡ false → P) (m w)

-- A call that answers no in the given state only where `P` holds.
pub record NoOnlyAt {W : Type 0} (w : W) (P : Type 0) (m : Exec W Bool) : Type 0 where
  pub at_it : Returns (λ answer _. answer ≡ false → P) (m w)

-- Two calls chained by `or`, of which the first is made in a known state.
pub call_then :
    {W : Type 0} {w : W} {P Q : Type 0} {a b : Exec W Bool} (ha : NoOnlyAt w P a)
    (hb : NoOnlyIf Q b)
    → NoOnlyAt w (P × Q) (a or_else b)
call_then {W = W} {w = w} {P = P} {Q = Q} {a = a} {b = b} ha hb = record {
  at_it = Returns-follow _ _ (a w) ha.at_it go;
}
  where
    go :
        (first : Bool) (w : W)
        → (first ≡ false → P)
        → Returns (λ answer _. answer ≡ false → P × Q) ((if first then pure true else b) w)
    go true w p = λ e. absurd (ground (arith, e))
    go false w p = Returns-map _ _ (b w) (λ answer _ q e. (p refl, q e)) (hb.holds w)

-- A comparison without a call, and then a call in the same state.
pub pure_then :
    {W : Type 0} {w : W} {P Q : Type 0} {a : Bool} {b : Exec W Bool} (give : a ≡ false → P)
    (hb : NoOnlyAt w Q b)
    → NoOnlyAt w (P × Q) (pure a or_else b)
pure_then {W = W} {w = w} {P = P} {Q = Q} {a = a} {b = b} give hb = record { at_it = go a give }
  where
    go :
        (a : Bool)
        → (a ≡ false → P)
        → Returns (λ answer _. answer ≡ false → P × Q) ((pure a or_else b) w)
    go true p = λ e. absurd (ground (arith, e))
    go false p = Returns-map _ _ (b w) (λ answer _ q e. (p refl, q e)) hb.at_it

-- Two calls chained by `or` answer no only if both do.
infixr 4 ◌then◌
pub ◌then◌ :
    {W : Type 0} {P Q : Type 0} {a b : Exec W Bool} (ha : NoOnlyIf P a) (hb : NoOnlyIf Q b)
    → NoOnlyIf (P × Q) (a or_else b)
◌then◌ {W = W} {P = P} {Q = Q} {a = a} {b = b} ha hb = record {
  holds =
      λ w. let first : NoOnlyAt w P a = record { at_it = ha.holds w } in (call_then first hb).at_it;
}

pub lift-NoOnlyIf :
    {W : Type 0} {P : Type 0} {r : Result Bool} (give : r ≡ ok false → P)
    → NoOnlyIf {W = W} P (lift r)
lift-NoOnlyIf {W = W} {P = P} {r = r} give = record { holds = λ w. go r give w }
  where
    go :
        (r : Result Bool)
        → (r ≡ ok false → P)
        → (w : W) → Returns (λ answer _. answer ≡ false → P) (lift r w)
    go (ok true) give w = λ e. absurd (ground (arith, e))
    go (ok false) give w = λ e. give refl
    go (err e) give w = tt

pub pure-NoOnlyIf :
    {W : Type 0} {P : Type 0} {b : Bool} (give : b ≡ false → P) → NoOnlyIf {W = W} P (pure b)
pure-NoOnlyIf give = record { holds = λ w. give }
