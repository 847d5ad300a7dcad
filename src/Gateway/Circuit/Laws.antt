-- ===== src/Gateway/Circuit/Laws.antt =====
-- What the circuit breaker of llm_gateway/circuit_breaker.py guarantees.
use oriion.Prelude.{
  ℕ, ◌+◌, ◌≤◌, ◌<◌, ◌≡◌, ◌≢◌, refl, ◌↔◌, String, true, false, none, some, List, [], ◌∷◌, map, arith,
  ltb, length, All, if◌then◌else◌, is_some,
}
use oriion.Gateway.Circuit.{
  closed, opened, half_open, ProviderCircuit, new_circuit, seconds, should_attempt, record_failure,
  record_success, CircuitCall, attempt, failure, success, call, calls, attempts, default_threshold,
}

-- A closed circuit is below the threshold and has no opening time; any other has one.
pub record IsValid (c : ProviderCircuit) : Type 0 where
  pub below : c.state ≡ closed → c.consecutive_failures < default_threshold
  pub shut : c.state ≡ closed → c.opened_at ≡ none
  pub stamped : c.state ≢ closed → is_some c.opened_at ≡ true

call-IsValid : (x : CircuitCall) (c : ProviderCircuit) → IsValid c → IsValid (call x c)
unfolding call
call-IsValid (attempt now) c v = ground arith
call-IsValid (failure now) c v = ground arith
call-IsValid success c v = ground arith

calls-IsValid_from :
    (xs : List CircuitCall) (c : ProviderCircuit) → IsValid c → IsValid (calls xs c)
unfolding calls
calls-IsValid_from [] c v = v
calls-IsValid_from (x ∷ xs) c v = calls-IsValid_from xs (call x c) (call-IsValid x c v)

-- Whatever the calls and their times, a circuit that started closed is, while closed, below three
-- consecutive failures with no opening time, and in every other state has its opening time.
pub calls-IsValid :
    (p : String) (cd : ℕ) (xs : List CircuitCall) → IsValid (calls xs (new_circuit p cd))
calls-IsValid p cd xs = calls-IsValid_from xs (new_circuit p cd) (ground arith)

failing_opened :
    (ts : List ℕ) (c : ProviderCircuit)
    → c.state ≡ opened
    → (calls (map failure ts) c).state ≡ opened
unfolding calls call
failing_opened [] c e = e
failing_opened (t ∷ ts) c e =
    failing_opened ts (record_failure default_threshold t c) (unfold record_failure in ground arith)

-- One more failure of a closed circuit.
record_failure_closed :
    (t : ℕ) (c : ProviderCircuit)
    → c.state ≡ closed
    → let d = record_failure default_threshold t c in
      (d.consecutive_failures ≡ c.consecutive_failures + 1)
      × (d.state ≡ (if ltb (c.consecutive_failures + 1) default_threshold then closed else opened))
unfolding record_failure
record_failure_closed t c e = ground arith

failing :
    (ts : List ℕ) (c : ProviderCircuit)
    → c.consecutive_failures < default_threshold
    → c.state ≡ closed
    → (calls (map failure ts) c).state
      ≡ (if ltb (c.consecutive_failures + length ts) default_threshold then closed else opened)
unfolding calls call
failing [] c v e = ground arith
failing (t ∷ ts) c v e = ground (
  arith,
  record_failure_closed t c e,
  failing ts (record_failure default_threshold t c),
  failing_opened ts (record_failure default_threshold t c),
)

-- From closed with no failure on record, failures in a row leave the circuit closed exactly while
-- there are fewer than three; from the third on it is open.
pub failures_trip :
    (p : String) (cd : ℕ) (ts : List ℕ)
    → (calls (map failure ts) (new_circuit p cd)).state
      ≡ (if ltb (length ts) default_threshold then closed else opened)
failures_trip p cd ts = ground (arith, failing ts (new_circuit p cd) (omega arith) refl)

-- An open circuit lets a request through exactly when its cooldown has elapsed, and then is
-- half-open; otherwise nothing about it changes.
pub should_attempt_opened :
    (c : ProviderCircuit) (t now : ℕ)
    → c.state ≡ opened
    → c.opened_at ≡ some t
    → ((should_attempt now c).1 ≡ true ↔ t + seconds c.cooldown_seconds ≤ now)
      × ((should_attempt now c).1 ≡ true → (should_attempt now c).0.state ≡ half_open)
      × ((should_attempt now c).1 ≡ false → (should_attempt now c).0 ≡ c)
unfolding should_attempt
should_attempt_opened c t now e o = ground arith

refused :
    (n : ℕ) (c : ProviderCircuit) (t : ℕ)
    → c.state ≡ opened
    → c.opened_at ≡ some t
    → n < t + seconds c.cooldown_seconds
    → should_attempt n c ≡ (c, false)
unfolding should_attempt
refused n c t e o h = ground arith

admitted : (n : ℕ) (c : ProviderCircuit) → c.state ≡ half_open → should_attempt n c ≡ (c, true)
unfolding should_attempt
admitted n c e = ground arith

-- However often it is asked before the cooldown has passed, an open circuit refuses every time and
-- stays as it is.
pub attempts_refused :
    (now : List ℕ) (c : ProviderCircuit) (t : ℕ)
    → c.state ≡ opened
    → c.opened_at ≡ some t
    → All (λ n. n < t + seconds c.cooldown_seconds) now
    → ((attempts now c).0 ≡ c) × All (λ b. b ≡ false) (attempts now c).1
unfolding attempts
attempts_refused [] c t e o h = (refl, tt)
attempts_refused (n ∷ now) c t e o h =
    rw (refused n c t e o h.0) (ground (arith, attempts_refused now c t e o h.1))

-- A half-open circuit admits every request that asks, any number of them, and stays half-open.
pub half_open_unlimited :
    (now : List ℕ) (c : ProviderCircuit)
    → c.state ≡ half_open
    → ((attempts now c).0 ≡ c) × All (λ b. b ≡ true) (attempts now c).1
unfolding attempts
half_open_unlimited [] c e = (refl, tt)
half_open_unlimited (n ∷ now) c e =
    rw (admitted n c e) (ground (arith, half_open_unlimited now c e))

-- One answer settles a half-open circuit: a failure opens it again with a new cooldown from that
-- moment, a success closes it and clears the count.
pub half_open_settles :
    (c : ProviderCircuit) (k now : ℕ)
    → c.state ≡ half_open
    → ((record_failure k now c).state ≡ opened)
      × ((record_failure k now c).opened_at ≡ some now)
      × ((record_success c).state ≡ closed)
      × ((record_success c).consecutive_failures ≡ 0)
unfolding record_failure record_success
half_open_settles c k now e = ground arith

-- An open circuit refuses every request before its cooldown has passed and stays as it is. A request
-- from then on is let through and makes it half-open, where it admits every request that asks, any
-- number of them, and stays half-open until an answer settles it: a failure opens it again from that
-- moment, a success closes it and clears the count.
pub opened_cycle :
    (c : ProviderCircuit) (t : ℕ) (early : List ℕ) (now : ℕ) (late : List ℕ) (k failed : ℕ)
    → c.state ≡ opened
    → c.opened_at ≡ some t
    → All (λ n. n < t + seconds c.cooldown_seconds) early
    → t + seconds c.cooldown_seconds ≤ now
    → let (d, admits) = should_attempt now c in
      ((attempts early c).0 ≡ c)
      × All (λ b. b ≡ false) (attempts early c).1
      × (admits ≡ true)
      × ((attempts late d).0 ≡ d)
      × All (λ b. b ≡ true) (attempts late d).1
      × ((record_failure k failed d).state ≡ opened)
      × ((record_failure k failed d).opened_at ≡ some failed)
      × ((record_success d).state ≡ closed)
      × ((record_success d).consecutive_failures ≡ 0)
opened_cycle c t early now late k failed e o before after =
    let d = (should_attempt now c).0 in
    let (same, none_through) = attempts_refused early c t e o before in
    let asked = should_attempt_opened c t now e o in
    let half = asked.1 (asked.0.1 after) in
    let (kept, all_through) = half_open_unlimited late d half in
    let (again, from, over, clear) = half_open_settles d k failed half in
    (same, none_through, asked.0.1 after, kept, all_through, again, from, over, clear)
