-- ===== src/Fernet.antt =====
-- The cron intervals of the Fernet key rotation, `generate` in
-- ansible/roles/keystone/files/fernet_rotate_cron_generator.py.
pub mod Schedule
pub mod Fields
mod Tests
use irnmn.Prelude.{
  ℕ, zero, suc, ◌+◌, ◌*◌, ◌/◌, ◌%◌, String, List, [], ◌∷◌, Option, none, some, leb, ltb,
  if◌then◌else◌,
}
use irnmn.Effect.{Result, ok, err, rotation_interval_too_long}
use mathlib.Core.Option

abbrev pub minute_span : ℕ
minute_span = 1

abbrev pub hour_span : ℕ
hour_span = 60

abbrev pub day_span : ℕ
day_span = 24 * hour_span

abbrev pub week_span : ℕ
week_span = 7 * day_span

-- A field of a cron entry: `*` or a number.
pub data Field : Type 0 where
  star : Field
  at : ℕ → Field

pub record Cron : Type 0 where
  pub min : Field
  pub hour : Field
  pub day : Field

-- The entries of the three branches.
unfoldable pub weekly : ℕ → Cron
weekly time = record {
  min = at (time % hour_span);
  hour = at (time % hour_span);
  day = at (time / day_span);
}

unfoldable pub daily : ℕ → Cron
daily time = record { min = at (time % hour_span); hour = at (time / hour_span); day = star }

unfoldable pub hourly : ℕ → Cron
hourly time = record { min = at (time / minute_span); hour = star; day = star }

-- `while time + rotation <= span: crons.append(entry(time)); time += step`; `none` means that the
-- fuel ran out.
unfoldable pub times_loop : ℕ → (ℕ → Cron) → ℕ → ℕ → ℕ → ℕ → Option (List Cron)
times_loop zero entry span rotation step time = none
times_loop (suc fuel) entry span rotation step time =
    let rest = times_loop fuel entry span rotation step (time + step) in
    if leb (time + rotation) span then Option.map (λ later. entry time ∷ later) rest else some []

-- A span is left after at most `span + 1` rounds of at least a minute.
unfoldable pub schedule : (ℕ → Cron) → ℕ → ℕ → ℕ → ℕ → Option (Result (List Cron))
schedule entry span rotation step offset =
    Option.map ok (times_loop (span + 2) entry span rotation step offset)

unfoldable pub generate : ℕ → ℕ → ℕ → Option (Result (List Cron))
generate host_index total_hosts total_rotation_mins =
    let host_rotation_mins = total_rotation_mins * total_hosts in
    let host_rotation_offset = total_rotation_mins * host_index in
    if leb total_hosts host_index
    then some (ok [])
    else if ltb week_span total_rotation_mins
    then some (
        err (
          rotation_interval_too_long
            "Unable to schedule fernet key rotation with an interval greater than 1 week divided by the number of hosts"))
    else if ltb day_span host_rotation_mins
    then schedule weekly week_span total_rotation_mins host_rotation_mins host_rotation_offset
    else if ltb hour_span host_rotation_mins
    then schedule daily day_span total_rotation_mins host_rotation_mins host_rotation_offset
    else schedule hourly hour_span total_rotation_mins host_rotation_mins host_rotation_offset
