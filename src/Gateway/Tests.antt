-- ===== src/Gateway/Tests.antt =====
-- The theorems about the circuit breaker and the router, at small concrete inputs.
use oriion.Prelude.{
  keep_if, not, ℕ, ◌≡◌, ◌≢◌, refl, String, true, false, none, some, List, [], ◌∷◌, ◌++◌, All,
  str_eq, if◌then◌else◌, arith, is_ok,
}
use mathlib.Core.List.{head?}
use oriion.Gateway.Circuit.{
  closed, opened, ProviderCircuit, new_circuit, should_attempt, record_success, record_failure,
  record_failure, attempt, failure, success, calls, attempts,
}
use oriion.Gateway.Circuit.Laws.{IsValid, calls-IsValid, opened_cycle}
use oriion.Gateway.Router.{
  first_admitted, plain, LlmRequest, Outcome, responds, http_error, World, Circuits, acomplete,
  route, would_use_native_tools, request_for, consult, walk, resume, visit, model_for,
}
use oriion.Gateway.Router.Models.{chain_starting_at, role_to_model, provider_default_model}
use oriion.Gateway.Router.Failover.{IsClosed, Failed, acomplete_answer, acomplete_available}
use oriion.Gateway.Router.Fallback.{is_excluded, failover_chain, failover_chain-first_admitted}
use oriion.Gateway.Router.Agreement.{Agrees, first_request-Agrees}

-- A circuit that opened at 5 with a cooldown of 60 seconds.
abbrev opened_circuit : ProviderCircuit
opened_circuit = record (new_circuit "deepseek" 60) {
  state = opened;
  consecutive_failures = 3;
  opened_at = some 5;
}

calls-IsValid_example : IsValid (
    calls
      (failure 1 ∷ success ∷ failure 2 ∷ failure 3 ∷ failure 4 ∷ attempt 9 ∷ [])
      (new_circuit "gigachat" 60))
calls-IsValid_example =
    calls-IsValid "gigachat" 60
      (failure 1 ∷ success ∷ failure 2 ∷ failure 3 ∷ failure 4 ∷ attempt 9 ∷ [])

-- DeepSeek is down and YandexGPT answers 42; a message is a number and a tool a text.
abbrev chat : String → LlmRequest ℕ String → Outcome ℕ
chat slug req = if str_eq slug "deepseek" then http_error else responds 42

abbrev world : World ℕ String ℕ
world = record {
  registered = λ _. true;
  chat = chat;
  consulted_at = λ _. 100;
  failed_at = λ _. 101;
}

abbrev circuits : Circuits
circuits slug = some (new_circuit slug 60)

never_other :
    (s : String) → chat s (request_for world "writer" none 1 8192 none s) ≢ Outcome.other_error
never_other s = ground arith

acomplete_available_example :
    is_ok (acomplete world "writer" (plain none) 1 8192 none circuits).result ≡ true
unfolding request_for chain_starting_at role_to_model consult should_attempt
acomplete_available_example =
    acomplete_available world "writer" none 1 8192 none circuits "yandexgpt" refl refl tt
      never_other

abbrev ask : String → LlmRequest ℕ String
ask = request_for world "writer" none 1 8192 (some "search")

acomplete_answer_example :
    (failures : List (String × LlmRequest ℕ String)) × ((acomplete world "writer"
        (plain none)
        1
        8192
        (some "search")
        circuits).asked
      ≡ failures ++ ("yandexgpt", ask "yandexgpt") ∷ [])
    × All (Failed world ask) failures
    × (chat "yandexgpt" (ask "yandexgpt") ≡ responds 42)
    × ("yandexgpt/rc" ≡ (ask "yandexgpt").model)
    × IsClosed (
        (acomplete world "writer" (plain none) 1 8192 (some "search") circuits).circuits
          "yandexgpt")
unfolding acomplete walk resume visit request_for chain_starting_at role_to_model consult
    should_attempt model_for provider_default_model
acomplete_answer_example =
    acomplete_answer world "writer" none 1 8192 (some "search") circuits 42 "yandexgpt/rc"
      "yandexgpt" refl

first_request-Agrees_example :
    Agrees world
      (route world "writer" (plain none) circuits).0
      (would_use_native_tools world "writer" (plain none) circuits).0
      (head? (acomplete world "writer" (plain none) 1 8192 (some "search") circuits).asked)
      (some "search")
first_request-Agrees_example =
    first_request-Agrees world "writer" none 1 8192 (some "search") circuits

failover_chain-first_admitted_example :
    failover_chain world "writer" ("deepseek" ∷ []) circuits
    ≡ first_admitted world
        (keep_if
          (λ s. not (is_excluded ("deepseek" ∷ []) s))
          (chain_starting_at (role_to_model "writer").0))
        circuits
failover_chain-first_admitted_example =
    failover_chain-first_admitted world "writer" ("deepseek" ∷ []) circuits

opened_cycle_example :
    let (d, admits) = should_attempt 60000005 opened_circuit in
    ((attempts (6 ∷ 60000004 ∷ []) opened_circuit).0 ≡ opened_circuit)
    × All (λ b. b ≡ false) (attempts (6 ∷ 60000004 ∷ []) opened_circuit).1
    × (admits ≡ true)
    × ((attempts (60000006 ∷ 60000007 ∷ []) d).0 ≡ d)
    × All (λ b. b ≡ true) (attempts (60000006 ∷ 60000007 ∷ []) d).1
    × ((record_failure 3 60000009 d).state ≡ opened)
    × ((record_failure 3 60000009 d).opened_at ≡ some 60000009)
    × ((record_success d).state ≡ closed)
    × ((record_success d).consecutive_failures ≡ 0)
opened_cycle_example =
    opened_cycle opened_circuit 5 (6 ∷ 60000004 ∷ []) 60000005 (60000006 ∷ 60000007 ∷ []) 3 60000009
      refl refl (omega arith, (omega arith, tt)) (omega arith)
