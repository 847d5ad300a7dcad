-- ===== src/Gateway/Circuit.antt =====
-- llm_gateway/circuit_breaker.py: one provider's circuit. Times are microseconds since the epoch;
-- the clock that a method reads is its argument `now`.
pub mod Laws
use oriion.Prelude.{
  ℕ, ◌+◌, ◌*◌, String, Bool, true, false, Option, none, some, List, [], ◌∷◌, leb, if◌then◌else◌,
}

pub data CircuitState : Type 0 where
  closed opened half_open : CircuitState

pub record ProviderCircuit : Type 0 where
  pub provider : String
  pub state : CircuitState
  pub consecutive_failures : ℕ
  pub last_failure_at : Option ℕ
  pub opened_at : Option ℕ
  pub cooldown_seconds : ℕ

-- The defaults of the dataclass.
abbrev pub new_circuit : String → ℕ → ProviderCircuit
new_circuit p cooldown = record {
  provider = p;
  state = closed;
  consecutive_failures = 0;
  last_failure_at = none;
  opened_at = none;
  cooldown_seconds = cooldown;
}

-- `timedelta(seconds=...)` in microseconds.
abbrev pub seconds : ℕ → ℕ
seconds n = n * 1000000

-- `elapsed >= cooldown`, with the subtraction moved to the other side.
half_open_after : ℕ → Option ℕ → ProviderCircuit → ProviderCircuit × Bool
half_open_after now none c = (c, false)
half_open_after now (some t) c =
    if leb (t + seconds c.cooldown_seconds) now
    then (record c { state = half_open }, true)
    else (c, false)

try_half_open_in : CircuitState → ℕ → ProviderCircuit → ProviderCircuit × Bool
unfolding half_open_after
try_half_open_in opened now c = half_open_after now c.opened_at c
try_half_open_in _ now c = (c, false)

unfoldable pub try_half_open : ℕ → ProviderCircuit → ProviderCircuit × Bool
unfolding try_half_open_in
try_half_open now c = try_half_open_in c.state now c

unfoldable pub should_attempt_in : CircuitState → ℕ → ProviderCircuit → ProviderCircuit × Bool
unfolding try_half_open
should_attempt_in closed now c = (c, true)
should_attempt_in opened now c = try_half_open now c
should_attempt_in half_open now c = (c, true)

-- The property reads the clock and may move the circuit to half-open.
unfoldable pub should_attempt : ℕ → ProviderCircuit → ProviderCircuit × Bool
unfolding should_attempt_in
should_attempt now c = should_attempt_in c.state now c

unfoldable pub record_success : ProviderCircuit → ProviderCircuit
record_success c = record c {
  state = closed;
  consecutive_failures = 0;
  last_failure_at = none;
  opened_at = none;
}

trip : ℕ → ProviderCircuit → ProviderCircuit
trip now c = record c { state = opened; opened_at = some now }

count_failure : ℕ → ProviderCircuit → ProviderCircuit
count_failure now c = record c {
  last_failure_at = some now;
  consecutive_failures = c.consecutive_failures + 1;
}

record_failure_in : CircuitState → ℕ → ℕ → ProviderCircuit → ProviderCircuit
unfolding trip count_failure
record_failure_in half_open threshold now c = trip now (count_failure now c)
record_failure_in closed threshold now c =
    if leb threshold (c.consecutive_failures + 1)
    then trip now (count_failure now c)
    else count_failure now c
record_failure_in opened threshold now c = count_failure now c

unfoldable pub record_failure : ℕ → ℕ → ProviderCircuit → ProviderCircuit
unfolding record_failure_in
record_failure threshold now c = record_failure_in c.state threshold now c

abbrev pub default_threshold : ℕ
default_threshold = 3

-- What a gateway process does to one circuit, in order.
pub data CircuitCall : Type 0 where
  attempt failure : ℕ → CircuitCall
  success : CircuitCall

unfoldable pub call : CircuitCall → ProviderCircuit → ProviderCircuit
unfolding should_attempt record_success record_failure
call (attempt now) c = (should_attempt now c).0
call success c = record_success c
call (failure now) c = record_failure default_threshold now c

unfoldable pub calls : List CircuitCall → ProviderCircuit → ProviderCircuit
calls [] c = c
calls (x ∷ xs) c = calls xs (call x c)

-- Repeated reads of `should_attempt`, with the answers.
unfoldable pub attempts : List ℕ → ProviderCircuit → ProviderCircuit × List Bool
unfolding should_attempt
attempts [] c = (c, [])
attempts (now ∷ rest) c =
    let (c', yes') = should_attempt now c in
    let (c'', answers) = attempts rest c' in (c'', yes' ∷ answers)
