-- ===== src/Gateway/Router.antt =====
-- llm_gateway/services/router_service.py: which provider answers a role's request, and failover
-- over the chat chain. The circuits are one dictionary, which every consultation may change. What
-- the providers answer and when the clock is read belong to the environment `World`.
pub mod Models
pub mod Chain
pub mod Failover
pub mod Agreement
pub mod Fallback
use Prim.Native.String.{◌++◌ as text_append}
use oriion.Prelude.{
  ℕ, String, Bool, true, false, Option, none, some, List, [], ◌∷◌, ◌++◌, str_eq, if◌then◌else◌,
  Result, ok, err,
}
use oriion.Gateway.Circuit.{
  ProviderCircuit, should_attempt, record_success, record_failure, default_threshold,
}
use oriion.Gateway.Router.Models.{
  role_to_model, provider_default_model, provider_forwards_tools, chain_starting_at,
}

-- The `model_hint` of a call: a BYOK spec, by what `parse_byok_model` makes of it (`none` where it
-- raises), or else the name of a model, `none` where the hint is absent or empty.
pub data ModelHint : Type 0 where
  byok : Option (String × String) → ModelHint
  plain : Option String → ModelHint

-- A request in the parts that the router decides; `M` and `T` are the messages and the tools.
pub record LlmRequest (M T : Type 0) : Type 0 where
  pub messages : M
  pub model : String
  pub max_tokens : ℕ
  pub tools : Option T

-- What one `chat` does: it responds, raises an error that the router retries elsewhere
-- (`httpx.HTTPError`, `LLMProviderUnavailable`), or raises anything else.
pub data Outcome (R : Type 0) : Type 0 where
  responds : R → Outcome R
  http_error : Outcome R
  other_error : Outcome R

-- The surroundings of one call: the registered providers, their answers, and the clock when a
-- provider's circuit is consulted and when its failure is recorded.
pub record World (M T R : Type 0) : Type 0 where
  pub registered : String → Bool
  pub chat : String → LlmRequest M T → Outcome R
  pub consulted_at : String → ℕ
  pub failed_at : String → ℕ

abbrev pub Circuits : Type 0
Circuits = String → Option ProviderCircuit

abbrev pub put : String → ProviderCircuit → Circuits → Circuits
put slug c cs s = if str_eq s slug then some c else cs s

pub data GatewayError : Type 0 where
  unavailable : GatewayError
  bad_byok_spec : GatewayError
  byok_unregistered : GatewayError
  upstream : String → GatewayError
  raised_by : String → GatewayError

module _ {M T R : Type 0} where
  unfoldable pub consult_circuit :
      World M T R → String → Option ProviderCircuit → Circuits → Circuits × Bool
  consult_circuit w slug none cs = (cs, false)
  consult_circuit w slug (some c) cs =
      let (c', admitted) = should_attempt (w.consulted_at slug) c in (put slug c' cs, admitted)

  -- `candidate is None or circuit is None or not circuit.should_attempt`, negated; the property is
  -- read only when both are there.
  unfoldable pub consult : World M T R → String → Circuits → Circuits × Bool
  unfolding consult_circuit
  consult w slug cs = if w.registered slug then consult_circuit w slug (cs slug) cs else (cs, false)

  -- The first provider of a chain that may be tried, and the circuits as the search leaves them.
  unfoldable pub first_admitted : World M T R → List String → Circuits → Circuits × Option String
  first_admitted w [] cs = (cs, none)
  first_admitted w (slug ∷ rest) cs =
      let (cs', admitted) = consult w slug cs in
      elim admitted [ true ↦ (cs', some slug) | false ↦ first_admitted w rest cs' ]

-- `model_hint or default_model`.
abbrev pub hint_or : Option String → String → String
hint_or none d = d
hint_or (some m) d = m

-- The hint goes to the role's own provider only; any other gets its own default model.
unfoldable pub model_for : String → String → Option String → String → String
model_for default_provider default_model hint slug =
    if str_eq slug default_provider then hint_or hint default_model else provider_default_model slug

-- The registry's key of a workspace's own provider.
unfoldable pub byok_key : String → String
byok_key provider = text_append "byok-" provider

-- How a completion ended, and every `chat` that was made, in order.
pub record Completion (M T R : Type 0) : Type 0 where
  pub result : Result GatewayError (R × String × String)
  pub circuits : Circuits
  pub asked : List (String × LlmRequest M T)

-- One turn of the failover loop.
pub data Visit (M T R : Type 0) : Type 0 where
  skipped : Circuits → Visit M T R
  answered : Circuits → LlmRequest M T → R → Visit M T R
  failed : Circuits → LlmRequest M T → Visit M T R
  raised : Circuits → LlmRequest M T → Visit M T R

module _ {M T R : Type 0} (w : World M T R) where
  -- `record_success` and `record_failure` on the circuit that the loop holds.
  update : String → (ProviderCircuit → ProviderCircuit) → Circuits → Circuits
  update slug f cs = elim (cs slug) [ none ↦ cs | some c ↦ put slug (f c) cs ]

  after_chat : String → Circuits → LlmRequest M T → Outcome R → Visit M T R
  unfolding update
  after_chat slug cs req (responds r) = answered (update slug record_success cs) req r
  after_chat slug cs req http_error =
      failed (update slug (record_failure default_threshold (w.failed_at slug)) cs) req
  after_chat slug cs req other_error = raised cs req

  -- The body of the loop at one provider; `ask` makes the request for it.
  unfoldable pub visit : (String → LlmRequest M T) → String → Circuits → Visit M T R
  unfolding after_chat
  visit ask slug cs =
      let (cs', admitted) = consult w slug cs in
      if admitted then after_chat slug cs' (ask slug) (w.chat slug (ask slug)) else skipped cs'

  -- The request that a provider gets: its own model, and the tools only where they are forwarded.
  unfoldable pub request_for : String → Option String → M → ℕ → Option T → String → LlmRequest M T
  unfolding model_for
  request_for role_key hint messages max_tokens tools slug =
      let (default_provider, default_model) = role_to_model role_key in
      record {
        messages = messages;
        model = model_for default_provider default_model hint slug;
        max_tokens = max_tokens;
        tools = if provider_forwards_tools slug then tools else none;
      }

  -- What the loop does after one turn at `slug`; `rest` is the loop over what follows it, over the
  -- circuits, the last error so far and the requests made so far.
  unfoldable pub resume :
      (Circuits → GatewayError → List (String × LlmRequest M T) → Completion M T R)
      → String
      → GatewayError
      → List (String × LlmRequest M T)
      → Visit M T R
      → Completion M T R
  resume rest slug last asked (skipped cs) = rest cs last asked
  resume rest slug last asked (answered cs req r) = record {
    result = ok (r, req.model, slug);
    circuits = cs;
    asked = asked ++ (slug, req) ∷ [];
  }
  resume rest slug last asked (failed cs req) = rest cs (upstream slug) (asked ++ (slug, req) ∷ [])
  resume rest slug last asked (raised cs req) = record {
    result = err (raised_by slug);
    circuits = cs;
    asked = asked ++ (slug, req) ∷ [];
  }

  unfoldable pub walk :
      (String → LlmRequest M T)
      → List String
      → Circuits
      → GatewayError
      → List (String × LlmRequest M T)
      → Completion M T R
  walk ask [] cs last asked = record { result = err last; circuits = cs; asked = asked }
  walk ask (slug ∷ rest) cs last asked = resume (walk ask rest) slug last asked (visit ask slug cs)

  -- A BYOK request goes to the workspace's own provider alone, with no circuit and no tools.
  -- `BYOKProxyProvider.name` is "byok".
  byok_outcome : String → LlmRequest M T → Outcome R → Result GatewayError (R × String × String)
  byok_outcome key req (responds r) = ok (r, req.model, "byok")
  byok_outcome key req http_error = err (upstream key)
  byok_outcome key req other_error = err (raised_by key)

  complete_byok : M → ℕ → Option (String × String) → Circuits → Completion M T R
  unfolding byok_outcome byok_key
  complete_byok messages max_tokens none cs = record {
    result = err bad_byok_spec;
    circuits = cs;
    asked = [];
  }
  complete_byok messages max_tokens (some (provider, model)) cs =
      let key = byok_key provider in
      let req : LlmRequest M T = record {
        messages = messages;
        model = model;
        max_tokens = max_tokens;
        tools = none;
      } in
      if w.registered key
      then record {
        result = byok_outcome key req (w.chat key req);
        circuits = cs;
        asked = (key, req) ∷ [];
      }
      else record { result = err byok_unregistered; circuits = cs; asked = [] }

  unfoldable pub acomplete : String → ModelHint → M → ℕ → Option T → Circuits → Completion M T R
  unfolding complete_byok
  acomplete role_key (byok spec) messages max_tokens tools cs =
      complete_byok messages max_tokens spec cs
  acomplete role_key (plain hint) messages max_tokens tools cs =
      walk (request_for role_key hint messages max_tokens tools)
        (chain_starting_at (role_to_model role_key).0) cs unavailable []

  route_found :
      String
      → Option String
      → Circuits × Option String
      → Result GatewayError (String × String) × Circuits
  unfolding model_for
  route_found role_key hint (cs, none) = (err unavailable, cs)
  route_found role_key hint (cs, some slug) =
      let (default_provider, default_model) = role_to_model role_key in
      (ok (slug, model_for default_provider default_model hint slug), cs)

  route_byok : Option (String × String) → Result GatewayError (String × String)
  unfolding byok_key
  route_byok none = err bad_byok_spec
  route_byok (some (provider, model)) =
      if w.registered (byok_key provider)
      then ok (byok_key provider, model)
      else err byok_unregistered

  -- The provider's slug and the model, and the circuits after the search.
  unfoldable pub route :
      String → ModelHint → Circuits → Result GatewayError (String × String) × Circuits
  unfolding route_found route_byok
  route role_key (byok spec) cs = (route_byok spec, cs)
  route role_key (plain hint) cs =
      route_found role_key hint (first_admitted w (chain_starting_at (role_to_model role_key).0) cs)

  forwards : Option String → Bool
  forwards none = false
  forwards (some slug) = provider_forwards_tools slug

  unfoldable pub would_use_native_tools : String → ModelHint → Circuits → Bool × Circuits
  unfolding forwards
  would_use_native_tools role_key (byok _) cs = (false, cs)
  would_use_native_tools role_key (plain hint) cs =
      let (cs', found) = first_admitted w (chain_starting_at (role_to_model role_key).0) cs in
      (forwards found, cs')
