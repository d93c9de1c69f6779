-- ===== src/PowerOps/Duration.antt =====
-- `PowerOperations._attempts`: how many rounds a polling loop makes.
use irnmn.Prelude.{
  ℕ, zero, suc, ◌+◌, ◌-◌, ◌*◌, ◌/◌, ◌≤◌, ◌<◌, max, ◌≡◌, ◌||◌, nat_eq, if◌then◌else◌, arith,
}
use irnmn.Effect.{Result, ok, err, value_error}

-- Python's integers: `negsuc n` is -(n + 1).
pub data ℤ : Type 0 where
  pos : ℕ → ℤ
  negsuc : ℕ → ℤ

-- `math.ceil(float(timeout) / interval)`, which is exact below 2 ** 53.
abbrev pub ceil_div : ℕ → ℕ → ℕ
ceil_div t i = (t + (i - 1)) / i

unfoldable pub attempts : ℤ → ℤ → Result ℕ
attempts (pos t) (pos i) =
    if nat_eq t 0 || nat_eq i 0
    then err (value_error "timeout and interval must be positive")
    else ok (max 1 (ceil_div t i + 1))
attempts _ _ = err (value_error "timeout and interval must be positive")

-- The exact quotient covers the timeout, by less than one interval too much.
ceil_cover : (t k : ℕ) → t ≤ ceil_div t (suc k) * suc k
ceil_cover t k = omega arith

ceil_tight : (t k : ℕ) → ceil_div t (suc k) * suc k < t + suc k
ceil_tight t k = omega arith

-- For every timeout and interval that are accepted there are at least two rounds.
pub attempts-ge-two : (t i : ℤ) (n : ℕ) → attempts t i ≡ ok n → 2 ≤ n
unfolding attempts
attempts-ge-two (pos zero) (pos i) n h = ground arith
attempts-ge-two (pos (suc t)) (pos zero) n h = ground arith
attempts-ge-two (pos (suc t)) (pos (suc i)) n h = ground arith
attempts-ge-two (pos t) (negsuc i) n h = ground arith
attempts-ge-two (negsuc t) i n h = ground arith

-- All rounds but the last are followed by a sleep of one interval, and when positive numbers of
-- seconds are given these sleeps cover the timeout and exceed it by less than one interval.
attempts_cover_timeout :
    (t i : ℕ)
    → 0 < t
    → 0 < i
    → (n : ℕ) × (attempts (pos t) (pos i) ≡ ok n) × (t ≤ (n - 1) * i) × ((n - 1) * i < t + i)
unfolding attempts
attempts_cover_timeout zero i p q = absurd (omega arith)
attempts_cover_timeout (suc t) zero p q = absurd (omega arith)
attempts_cover_timeout (suc t) (suc k) p q = (
  ceil_div (suc t) (suc k) + 1,
  ground arith,
  ground (arith, ceil_cover (suc t) k),
  ground (arith, ceil_tight (suc t) k),
)
