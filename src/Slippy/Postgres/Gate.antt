-- ===== src/Slippy/Postgres/Gate.antt =====
-- slippy/postgres_store_updates.go: the switches of the freshness gate, which the environment sets.
-- `strconv.ParseBool` and `strconv.Atoi` are written out; a duration is a number of milliseconds.
use go_lib_my_carrier.Base.{
  ℕ, ◌+◌, ◌*◌, ◌-◌, Bool, true, false, ◌&&◌, ◌||◌, not, Option, none, some, String, ◌==◌, List, [],
  ◌∷◌, codes, leb, ltb, nat_eq, if◌then◌else◌,
}

abbrev pub default_freshness_window_ms : ℕ
default_freshness_window_ms = 750

abbrev pub max_freshness_window_ms : ℕ
max_freshness_window_ms = 3600000

-- What `os.LookupEnv` finds for the two variables.
pub record Environment : Type 0 where
  pub gate_enabled : Option String
  pub freshness_window_ms : Option String

abbrev is_one_of : List String → String → Bool
is_one_of [] s = false
is_one_of (t ∷ ts) s = t == s || is_one_of ts s

-- `strconv.ParseBool`: none is its error.
unfoldable pub parse_bool : String → Option Bool
parse_bool s =
    if is_one_of ("1" ∷ "t" ∷ "T" ∷ "TRUE" ∷ "true" ∷ "True" ∷ []) s
    then some true
    else if is_one_of ("0" ∷ "f" ∷ "F" ∷ "FALSE" ∷ "false" ∷ "False" ∷ []) s
    then some false
    else none

abbrev enabled_unless : Option Bool → Bool
enabled_unless none = true
enabled_unless (some enabled) = enabled

abbrev gate_of : Option String → Bool
gate_of none = true
gate_of (some val) = enabled_unless (parse_bool val)

-- `gateEnabled`: on, unless the variable holds a false value.
unfoldable pub gate_enabled : Environment → Bool
unfolding parse_bool
gate_enabled env = gate_of env.gate_enabled

-- The largest value of an `int`.
abbrev max_int : ℕ
max_int = 9223372036854775807

-- The value of decimal digits after `acc`, or none if another character is there.
unfoldable pub digits_value : ℕ → List ℕ → Option ℕ
digits_value acc [] = some acc
digits_value acc (c ∷ cs) =
    let rest = digits_value (acc * 10 + (c - b'0')) cs in
    if leb b'0' c && leb c b'9' then rest else none

abbrev in_range : Option ℕ → Option ℕ
in_range none = none
in_range (some n) = if leb n max_int then some n else none

abbrev after_sign : List ℕ → Option ℕ
after_sign [] = none
after_sign (c ∷ cs) = in_range (digits_value 0 (c ∷ cs))

-- `strconv.Atoi` for a number that is not below 0: none stands for its error, and also for a
-- negative number, which the caller treats the same way.
unfoldable pub atoi : List ℕ → Option ℕ
unfolding digits_value
atoi [] = none
atoi (c ∷ cs) = if nat_eq c b'+' then after_sign cs else after_sign (c ∷ cs)

abbrev clamp_window : Option ℕ → ℕ
clamp_window none = default_freshness_window_ms
clamp_window (some ms) =
    if leb ms 0
    then default_freshness_window_ms
    else if ltb max_freshness_window_ms ms
    then max_freshness_window_ms
    else ms

abbrev window_of : Option String → ℕ
window_of none = default_freshness_window_ms
window_of (some val) =
    if val == "" then default_freshness_window_ms else clamp_window (atoi (codes val))

-- `freshnessWindow`.
unfoldable pub freshness_window : Environment → ℕ
unfolding atoi
freshness_window env = window_of env.freshness_window_ms

-- `gateBypassSteps[step]`.
abbrev pub gate_bypass_step : String → Bool
gate_bypass_step step = step == "push_parsed"

-- Whether the write of a step or a component passes through the gate.
abbrev pub is_guarded : Environment → String → String → Bool
is_guarded env step component =
    gate_enabled env && (not (gate_bypass_step step) || not (component == ""))
