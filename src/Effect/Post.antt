-- ===== src/Effect/Post.antt =====
-- Postconditions of calls, with the rule for a call that is followed by another.
use irnmn.Prelude.{Bool, true, false, ◌≡◌, refl}
use irnmn.Effect.{Exception, Result, ok, err, Exec, continue, raise_if, run_if, ◌>>=◌}

-- What holds after a call that returned; a raise promises nothing.
abbrev pub Returns : {W A : Type 0} → (A → W → Type 0) → Result A × W → Type 0
Returns Q (ok a, w) = Q a w
Returns Q (err e, w) = Unit

-- The rest of a block may use how the first call returned.
pub Returns-continue :
    {W A B : Type 0} (Q : B → W → Type 0) (f : A → Exec W B) (r : Result A) (w : W)
    → ((a : A) → r ≡ ok a → Returns Q (f a w))
    → Returns Q (continue r f w)
Returns-continue Q f (ok a) w h = h a refl
Returns-continue Q f (err e) w h = tt

pub Returns-raise_if :
    {W B : Type 0} (Q : B → W → Type 0) (f : Unit {0} → Exec W B) (test : Bool) (e : Exception)
    (w : W)
    → (test ≡ false → Returns Q (f tt w))
    → Returns Q ((raise_if test e >>= f) w)
Returns-raise_if Q f true e w h = tt
Returns-raise_if Q f false e w h = h refl

pub Returns-map :
    {W A : Type 0} (P Q : A → W → Type 0) (x : Result A × W)
    → ((a : A) (w : W) → P a w → Q a w)
    → Returns P x
    → Returns Q x
Returns-map P Q (ok a, w) f h = f a w h
Returns-map P Q (err e, w) f h = tt

-- The call returned.
abbrev pub Succeeds : {W R : Type 0} → Result R × W → Type 0
Succeeds (ok a, w) = Unit
Succeeds (err e, w) = ⊥

pub Succeeds-bind :
    {W A B : Type 0} {a : A} {w' : W} (m : Exec W A) (f : A → Exec W B) (w : W)
    → m w ≡ (ok a, w')
    → Succeeds (f a w')
    → Succeeds ((m >>= f) w)
Succeeds-bind m f w e h = rw e h

-- A call of a block, with the world that it leaves.
pub Returns-bind :
    {W A B : Type 0} (Q : B → W → Type 0) (f : A → Exec W B) (m : Exec W A) (w : W)
    → ((a : A) (w' : W) → m w ≡ (ok a, w') → Returns Q (f a w'))
    → Returns Q ((m >>= f) w)
Returns-bind Q f m w h =
    let (r, w') = m w in Returns-continue Q f r w' (λ a e. h a w' (λ i. (e i, w')))

-- A statement under `if`: it was skipped, or it returned.
pub Returns-run_if :
    {W B : Type 0} (Q : B → W → Type 0) (f : Unit {0} → Exec W B) (test : Bool)
    (m : Exec W (Unit {0})) (w : W)
    → (test ≡ false → Returns Q (f tt w))
    → ((w' : W) → test ≡ true → m w ≡ (ok tt, w') → Returns Q (f tt w'))
    → Returns Q ((run_if test m >>= f) w)
Returns-run_if Q f false m w skip run = skip refl
Returns-run_if Q f true m w skip run = Returns-bind Q f m w (λ _ w' called. run w' refl called)

-- A block that first makes a call whose postcondition is known.
pub Returns-follow :
    {W A B : Type 0} {P : A → W → Type 0} (Q : B → W → Type 0) (f : A → Exec W B) (x : Result A × W)
    → Returns P x
    → ((a : A) (w : W) → P a w → Returns Q (f a w))
    → Returns Q (continue x.0 f x.1)
Returns-follow Q f (ok a, w) holds h = h a w holds
Returns-follow Q f (err e, w) holds h = tt

-- The call raised, in this state of the world.
abbrev pub FailsAt : {W A : Type 0} → W → Result A × W → Type 0
FailsAt w (ok a, w') = ⊥
FailsAt w (err e, w') = w' ≡ w

pub FailsAt-continue :
    {W A B : Type 0} (last : W) (f : A → Exec W B) (r : Result A) (w : W)
    → w ≡ last
    → ((a : A) → FailsAt last (f a w))
    → FailsAt last (continue r f w)
FailsAt-continue last f (ok a) w here later = later a
FailsAt-continue last f (err e) w here later = here

-- The result, if there is one, has the property.
abbrev pub Gives : {A : Type 0} → (A → Type 0) → Result A → Type 0
Gives Q (ok a) = Q a
Gives Q (err e) = Unit

pub Gives-map :
    {A : Type 0} (P Q : A → Type 0) (r : Result A) → ((a : A) → P a → Q a) → Gives P r → Gives Q r
Gives-map P Q (ok a) f h = f a h
Gives-map P Q (err e) f h = tt

-- What holds of the state that a call leaves, also after a raise.
pub Returns-state :
    {W A : Type 0} (P : W → Type 0) (x : Result A × W) → P x.1 → Returns (λ _ w. P w) x
Returns-state P (ok a, w) h = h
Returns-state P (err e, w) h = tt

-- What holds of a call by what it returned.
pub Returns-self :
    {W A : Type 0} (Q : A → W → Type 0) (x : Result A × W)
    → ((a : A) (w : W) → x ≡ (ok a, w) → Q a w)
    → Returns Q x
Returns-self Q (ok a, w) h = h a w refl
Returns-self Q (err e, w) h = tt
