-- ===== src/Effect/Polling.antt =====
-- The polling loop of the power operations and of the fencing task:
-- `for attempt in range(attempts): ...; if attempt + 1 < attempts: sleep(interval)`, then `raise`.
-- The loop counts the rounds that are left: a round sleeps unless it is the last one.
use irnmn.Prelude.{ℕ, zero, suc, ◌≤◌, arith}
use irnmn.Effect.{Exception, Result, ok, err, Exec}
use irnmn.Effect.Post.{Returns, Succeeds}

-- A round returns from the function, or leaves the loop's variables for the next round.
pub data Round {ℓ κ} (S : Type ℓ) (R : Type κ) : Type (ℓ ⊔ κ) where
  done : R → Round S R
  again : S → Round S R

module _ {W S R : Type 0} where
  -- What a round that was entered under `I` leaves.
  abbrev pub RoundKeeps : (S → W → Type 0) → (R → W → Type 0) → Result (Round S R) × W → Type 0
  RoundKeeps I Q (err e, w) = Unit
  RoundKeeps I Q (ok (done a), w) = Q a w
  RoundKeeps I Q (ok (again s), w) = I s w

  -- A round that was entered with `n + 1` rounds to go returns, or leaves `n` rounds to go.
  abbrev pub RoundAdvances : (ℕ → S → W → Type 0) → ℕ → Result (Round S R) × W → Type 0
  RoundAdvances D n (err e, w) = ⊥
  RoundAdvances D n (ok (done a), w) = Unit
  RoundAdvances D n (ok (again s), w) = D n s w

module _ {W S R : Type 0} (pause : W → W) (round : S → Exec W (Round S R)) (late : Exception) where
  abbrev rest_after : ℕ → W → W
  rest_after zero w = w
  rest_after (suc r) w = pause w

  abbrev follow : Result (Round S R) → W → (S → W → Result R × W) → Result R × W
  follow (err e) w next = (err e, w)
  follow (ok (done a)) w next = (ok a, w)
  follow (ok (again s)) w next = next s w

  unfoldable pub poll : ℕ → S → Exec W R
  poll zero s w = (err late, w)
  poll (suc rounds) s w =
      let (r, w') = round s w in follow r w' (λ s' w''. poll rounds s' (rest_after rounds w''))

  module _ (I : S → W → Type 0) (Q : R → W → Type 0) where
    follow-Returns :
        (next : S → W → Result R × W)
        → ((s : S) (w : W) → I s w → Returns Q (next s w))
        → (r : Result (Round S R)) (w : W) → RoundKeeps I Q (r, w)
        → Returns Q (follow r w next)
    follow-Returns next keep (err e) w h = tt
    follow-Returns next keep (ok (done a)) w h = h
    follow-Returns next keep (ok (again s)) w h = keep s w h

    rest_after-keeps :
        ((s : S) (w : W) → I s w → I s (pause w))
        → (rounds : ℕ) (s : S) (w : W) → I s w
        → I s (rest_after rounds w)
    rest_after-keeps rests zero s w h = h
    rest_after-keeps rests (suc r) s w h = rests s w h

    -- An invariant of the rounds and of the pauses gives the postcondition of the loop.
    pub poll-Returns :
        ((s : S) (w : W) → I s w → RoundKeeps I Q (round s w))
        → ((s : S) (w : W) → I s w → I s (pause w))
        → (rounds : ℕ) (s : S) (w : W) → I s w
        → Returns Q (poll rounds s w)
    unfolding poll
    poll-Returns keeps rests zero s w h = tt
    poll-Returns keeps rests (suc rounds) s w h =
        let (r, w') = round s w in
        follow-Returns (λ s' w''. poll rounds s' (rest_after rounds w''))
          (λ s' w'' h'.
            poll-Returns keeps rests rounds s' (rest_after rounds w'')
              (rest_after-keeps rests rounds s' w'' h'))
          r w' (keeps s w h)

  module _ (D : ℕ → S → W → Type 0) where
    follow-Succeeds :
        (next : S → W → Result R × W) (n : ℕ)
        → ((s : S) (w : W) → D n s w → Succeeds (next s w))
        → (r : Result (Round S R)) (w : W) → RoundAdvances D n (r, w)
        → Succeeds (follow r w next)
    follow-Succeeds next n keep (err e) w h = absurd h
    follow-Succeeds next n keep (ok (done a)) w h = tt
    follow-Succeeds next n keep (ok (again s)) w h = keep s w h

    rest_after-advances :
        ((n : ℕ) (s : S) (w : W) → D n s w → D n s (pause w))
        → (rounds n : ℕ) (s : S) (w : W) → D n s w
        → D n s (rest_after rounds w)
    rest_after-advances rests zero n s w h = h
    rest_after-advances rests (suc r) n s w h = rests n s w h

    -- With no more rounds to go than the loop has, the loop returns.
    pub poll-Succeeds :
        ((s : S) (w : W) → D 0 s w → ⊥)
        → ((n : ℕ) (s : S) (w : W) → D (suc n) s w → RoundAdvances D n (round s w))
        → ((n : ℕ) (s : S) (w : W) → D n s w → D n s (pause w))
        → (rounds n : ℕ) (s : S) (w : W) → n ≤ rounds
        → D n s w
        → Succeeds (poll rounds s w)
    unfolding poll
    poll-Succeeds never advances rests rounds zero s w le h = absurd (never s w h)
    poll-Succeeds never advances rests zero (suc n) s w le h = absurd (omega arith)
    poll-Succeeds never advances rests (suc rounds) (suc n) s w le h =
        let (r, w') = round s w in
        follow-Succeeds (λ s' w''. poll rounds s' (rest_after rounds w'')) n
          (λ s' w'' h'.
            poll-Succeeds never advances rests rounds n s' (rest_after rounds w'') (omega arith)
              (rest_after-advances rests rounds n s' w'' h'))
          r w' (advances n s w h)
