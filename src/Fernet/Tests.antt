-- ===== src/Fernet/Tests.antt =====
-- Runs of `generate` as in tests/test_fernet_rotate_cron_generator.py, and its theorems at inputs.
use irnmn.Prelude.{◌≡◌, refl, List, [], ◌∷◌, All, some, arith}
use irnmn.Effect.{ok}
use irnmn.Fernet.{Cron, star, at, hourly, times_loop, schedule, generate, weekly}
use irnmn.Fernet.Fields.{
  Planned, IsCronTime, IsBelow, generate-Planned, generate-IsCronTime, weekly_hour_refused,
}

-- Three days on three hosts, the default of kolla-ansible: the second host.
generate_3_days :
    generate 1 3 4320 ≡ some (ok (record { min = at 0; hour = at 0; day = at 3 } ∷ []))
unfolding generate schedule times_loop weekly
generate_3_days = refl

generate_20_minutes :
    generate 1 2 20 ≡ some (ok (record { min = at 20; hour = star; day = star } ∷ []))
unfolding generate schedule times_loop hourly
generate_20_minutes = refl

generate-Planned_example : (l : List Cron) × (generate 1 3 4320 ≡ some (ok l)) × Planned 1 3 4320 l
generate-Planned_example = generate-Planned 1 3 4320 (omega arith) (omega arith) (omega arith)

generate-IsCronTime_example : (l : List Cron) × (generate 1 2 20 ≡ some (ok l)) × All IsCronTime l
generate-IsCronTime_example = generate-IsCronTime 1 2 20 (omega arith) (omega arith) (omega arith)

-- 100 minutes on 15 hosts: the second host is told to rotate at 40:40.
weekly_hour_refused_example :
    (c : Cron) × (l : List Cron) × (generate 1 15 100 ≡ some (ok (c ∷ l))) × ¬ (IsBelow 24 c.hour)
weekly_hour_refused_example =
    weekly_hour_refused 1 15 100 (omega arith) (omega arith) (omega arith) (omega arith)
