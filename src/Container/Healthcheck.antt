-- ===== src/Container/Healthcheck.antt =====
-- `parse_healthcheck` of kolla_container_worker.py, and what `compare_healthcheck` compares.
use irnmn.Prelude.{
  ℕ, ◌*◌, String, Bool, true, false, not, ◌&&◌, ◌||◌, ◌==◌, nat_eq, any, all, is_empty, length,
  List, [], ◌∷◌, Option, none, some, if◌then◌else◌,
}
use irnmn.Text.Numbers.{parse, show}
use irnmn.Effect.{Result, ok, err, value_error, external, module_failed}
use irnmn.Container.Params.{
  HealthValue, nothing, integer, word, words, HealthItem, amount, test_words,
}

abbrev pub supported : List String
supported = "test" ∷ "interval" ∷ "timeout" ∷ "start_period" ∷ "retries" ∷ []

abbrev pub is_duration : String → Bool
is_duration key = key == "interval" || key == "timeout" || key == "start_period"

abbrev pub parsed_number : Option ℕ → Result ℕ
parsed_number none = err (value_error "Cannot parse healthcheck")
parsed_number (some n) = ok n

-- `int(value)`
unfoldable pub to_int : HealthValue → Result ℕ
unfolding parse
to_int (integer n) = ok n
to_int (word s) = parsed_number (parse s)
to_int _ = err (external "int() argument must be a string, a bytes-like object or a real number")

-- `value in (["NONE"], "NONE")`
abbrev pub is_disabled : HealthValue → Bool
is_disabled (word s) = s == "NONE"
is_disabled (words (s ∷ [])) = s == "NONE"
is_disabled _ = false

-- A test that is no list is a command for the shell.
abbrev pub test_of : HealthValue → List String
test_of (words ws) = ws
test_of (word s) = "CMD-SHELL" ∷ s ∷ []
test_of (integer n) = "CMD-SHELL" ∷ show n ∷ []
test_of nothing = "CMD-SHELL" ∷ "None" ∷ []

abbrev pub Items : Type 0
Items = List (String × HealthItem)

-- An item in front of the later ones, or no health check where a later one disables it.
abbrev pub item_before : String → HealthItem → Result (Option Items) → Result (Option Items)
item_before key item (err e) = err e
item_before key item (ok none) = ok none
item_before key item (ok (some items)) = ok (some ((key, item) ∷ items))

abbrev pub amount_before : String → ℕ → Result ℕ → Result (Option Items) → Result (Option Items)
amount_before key factor (err e) later = err e
amount_before key factor (ok n) later = item_before key (amount (n * factor)) later

-- The loop over the options, all of which are supported ones.
unfoldable pub health_items : List (String × HealthValue) → Result (Option Items)
unfolding to_int show
health_items [] = ok (some [])
health_items ((key, value) ∷ rest) =
    let later = health_items rest in
    if is_duration key
    then amount_before key 1000000000 (to_int value) later
    else if key == "test"
    then (if is_disabled value then ok none else item_before key (test_words (test_of value)) later)
    else amount_before key 1 (to_int value) later

abbrev pub has_option : List (String × HealthValue) → String → Bool
has_option healthcheck key = any (λ entry. entry.0 == key) healthcheck

unfoldable pub parse_healthcheck : List (String × HealthValue) → Result (Option Items)
unfolding health_items
parse_healthcheck healthcheck =
    if is_empty healthcheck
    then ok none
    else if not (all (λ entry. any (λ key. key == entry.0) supported) healthcheck)
    then err (module_failed "Unsupported healthcheck options")
    else if not (all (has_option healthcheck) supported)
    then err (module_failed "Missing healthcheck option")
    else health_items healthcheck

-- `healthcheck_map.get(key, key)`
abbrev pub engine_key : String → String
engine_key key =
    if key == "test"
    then "Test"
    else if key == "retries"
    then "Retries"
    else if key == "interval"
    then "Interval"
    else if key == "start_period"
    then "StartPeriod"
    else if key == "timeout"
    then "Timeout"
    else key

abbrev pub same_words : List String → List String → Bool
same_words [] [] = true
same_words (a ∷ as') (b ∷ bs) = a == b && same_words as' bs
same_words _ _ = false

abbrev pub same_item : HealthItem → HealthItem → Bool
same_item (amount m) (amount n) = nat_eq m n
same_item (test_words as') (test_words bs) = same_words as' bs
same_item _ _ = false

-- Equality of dicts, each of which has a key once.
abbrev pub same_items : Items → Items → Bool
same_items new current =
    nat_eq (length new) (length current)
    && all
        (λ entry. any (λ found. found.0 == engine_key entry.0 && same_item entry.1 found.1) current)
        new

abbrev pub healthcheck_differs : Option Items → Items → Bool
healthcheck_differs none current = not (is_empty current)
healthcheck_differs (some new) current = is_empty current || not (same_items new current)

abbrev pub differs_if_parsed : Result (Option Items) → Items → Result Bool
differs_if_parsed (err e) current = err e
differs_if_parsed (ok new) current = ok (healthcheck_differs new current)
