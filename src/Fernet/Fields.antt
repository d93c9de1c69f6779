-- ===== src/Fernet/Fields.antt =====
-- `generate` as a whole: the schedule of each branch, and whether its entries are times that cron
-- accepts.
use irnmn.Prelude.{
  ℕ, suc, ◌+◌, ◌*◌, ◌/◌, ◌%◌, ◌≤◌, ◌<◌, ◌≡◌, refl, List, ◌∷◌, none, some, All, true, false, leb,
  ltb, arith, Bool-cases, inl, inr, ap, ◌∙◌, if◌then◌else◌,
}
use irnmn.Effect.{ok}
use irnmn.Fernet.{
  Cron, Field, star, at, hour_span, day_span, week_span, weekly, daily, hourly, times_loop,
  schedule, generate,
}
use irnmn.Fernet.Schedule.{Scheduled, over, rotates, times_loop-Scheduled, times_loop_stuck}

-- The entries as the three branches are to write them, by the minute of the span. The hour of an
-- entry in a week is its minute again.
abbrev pub in_week : ℕ → Cron
in_week t = record { min = at (t % 60); hour = at (t % 60); day = at (t / 1440) }

abbrev pub in_day : ℕ → Cron
in_day t = record { min = at (t % 60); hour = at (t / 60); day = star }

abbrev pub in_hour : ℕ → Cron
in_hour t = record { min = at (t / 1); hour = star; day = star }

-- The schedule that a host wants: its entries, the span that they repeat in, from its offset on.
abbrev pub Planned : ℕ → ℕ → ℕ → List Cron → Type 0
Planned i n r l =
    if ltb 1440 (r * n)
    then Scheduled in_week 10080 r (r * n) (r * i) l
    else if ltb 60 (r * n)
    then Scheduled in_day 1440 r (r * n) (r * i) l
    else Scheduled in_hour 60 r (r * n) (r * i) l

schedule-Scheduled :
    (entry : ℕ → Cron) (span r step offset : ℕ)
    → 0 < step
    → (l : List Cron) × (schedule entry span r step offset ≡ some (ok l))
      × Scheduled entry span r step offset l
unfolding schedule
schedule-Scheduled entry span r step offset forward =
    let (l, runs, is_scheduled) =
      times_loop-Scheduled entry span r step (suc span) offset forward (omega arith) in
    (l, ground arith, is_scheduled)

-- For a host of the group and a rotation of a minute to a week, `generate` ends without an error,
-- and its entries are one for each rotation of the host that ends within the span, in order: from
-- the host's offset on, a round of all hosts apart; the span is a week, a day or an hour, by the
-- length of the round, and the fields of an entry are those of `in_week`, `in_day` or `in_hour`.
pub generate-Planned :
    (i n r : ℕ)
    → i < n
    → 0 < r
    → r ≤ week_span
    → (l : List Cron) × (generate i n r ≡ some (ok l)) × Planned i n r l
unfolding generate weekly daily hourly
generate-Planned i n r member positive short =
    let forward : 0 < r * n = grind arith in
    let asked : leb n i ≡ false = ground arith in
    let allowed : ltb week_span r ≡ false = ground arith in
    elim (Bool-cases (ltb day_span (r * n))) [
      | inl over_day ↦
          rw (asked, allowed, over_day)
            (schedule-Scheduled weekly week_span r (r * n) (r * i) forward)
      | inr within_day ↦ elim (Bool-cases (ltb hour_span (r * n))) [
        | inl over_hour ↦
            rw (asked, allowed, within_day, over_hour)
              (schedule-Scheduled daily day_span r (r * n) (r * i) forward)
        | inr within_hour ↦
            rw (asked, allowed, within_day, within_hour)
              (schedule-Scheduled hourly hour_span r (r * n) (r * i) forward)
      ]
    ]

-- With a rotation of no minutes the loop of a member of the group never ends: no fuel is enough.
generate_zero_diverges : (i n fuel : ℕ) → times_loop fuel hourly hour_span 0 (0 * n) (0 * i) ≡ none
generate_zero_diverges i n fuel =
    times_loop_stuck hourly hour_span 0 (0 * n) fuel (0 * i) (omega arith) (omega arith)

-- A field is `*` or a number below the bound.
abbrev pub IsBelow : ℕ → Field → Type 0
IsBelow bound star = Unit
IsBelow bound (at k) = k < bound

-- The entries that cron accepts: minutes to 59, hours to 23, days of the week to 6.
abbrev pub IsCronTime : Cron → Type 0
IsCronTime c = IsBelow 60 c.min × IsBelow 24 c.hour × IsBelow 7 c.day

Scheduled-All :
    (P : Cron → Type 0) (entry : ℕ → Cron) (span r step : ℕ)
    → ((t : ℕ) → t + r ≤ span → P (entry t))
    → {t : ℕ} {l : List Cron} → Scheduled entry span r step t l
    → All P l
Scheduled-All P entry span r step good (over late) = tt
Scheduled-All P entry span r step good (rotates fits rest) =
    (good _ fits, Scheduled-All P entry span r step good rest)

daily-IsCronTime : (r t : ℕ) → 0 < r → t + r ≤ day_span → IsCronTime (daily t)
unfolding daily
daily-IsCronTime r t positive fits = omega arith

hourly-IsCronTime : (r t : ℕ) → 0 < r → t + r ≤ hour_span → IsCronTime (hourly t)
unfolding hourly
hourly-IsCronTime r t positive fits = omega arith

Planned-IsCronTime :
    (i n r : ℕ) (l : List Cron)
    → 0 < r
    → ltb day_span (r * n) ≡ false
    → Planned i n r l
    → All IsCronTime l
unfolding daily hourly
Planned-IsCronTime i n r l positive within planned = elim (Bool-cases (ltb hour_span (r * n))) [
  | inl over_hour ↦
      Scheduled-All IsCronTime daily day_span r (r * n)
        (λ t fits. daily-IsCronTime r t positive fits) (rw (within, over_hour) at planned)
  | inr within_hour ↦
      Scheduled-All IsCronTime hourly hour_span r (r * n)
        (λ t fits. hourly-IsCronTime r t positive fits) (rw (within, within_hour) at planned)
]

-- Where one round of all hosts takes at most a day, `generate` ends without an error, and every
-- entry is a time that cron accepts.
pub generate-IsCronTime :
    (i n r : ℕ)
    → i < n
    → 0 < r
    → r * n ≤ day_span
    → (l : List Cron) × (generate i n r ≡ some (ok l)) × All IsCronTime l
generate-IsCronTime i n r member positive within =
    let (l, runs, planned) = generate-Planned i n r member positive (grind arith) in
    (l, runs, Planned-IsCronTime i n r l positive (ground arith) planned)

first_entry :
    (r step t : ℕ) (l : List Cron)
    → t + r ≤ week_span
    → Scheduled weekly week_span r step t l
    → (later : List Cron) × (l ≡ weekly t ∷ later)
first_entry r step t l fits (over late) = absurd (omega arith)
first_entry r step t l fits (rotates {l = later} _ rest) = (later, refl)

-- Where the round takes more than a day, the hour of an entry is its minute: on a host whose offset
-- is 24 or more minutes past the hour and whose first rotation ends within the week, `generate`
-- ends without an error, and its first entry has an hour that cron refuses.
pub weekly_hour_refused :
    (i n r : ℕ)
    → i < n
    → day_span < r * n
    → r * i + r ≤ week_span
    → 24 ≤ (r * i) % 60
    → (c : Cron) × (l : List Cron) × (generate i n r ≡ some (ok (c ∷ l))) × ¬ (IsBelow 24 c.hour)
unfolding weekly
weekly_hour_refused i n r member over_day fits late =
    let (l, runs, planned) = generate-Planned i n r member (grind arith) (omega arith) in
    let weekly_plan = (rw (lt_test (r * n) over_day) at planned) in
    let (later, shape) = first_entry r (r * n) (r * i) l fits weekly_plan in
    (weekly (r * i), later, runs ∙ ap (λ x. some (ok x)) shape, λ low. absurd (omega arith))
  where
    lt_test : (k : ℕ) → day_span < k → ltb day_span k ≡ true
    lt_test k h = ground arith
