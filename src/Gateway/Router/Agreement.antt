-- ===== src/Gateway/Router/Agreement.antt =====
-- `route`, `would_use_native_tools` and `acomplete` search the chain alike: what the first two
-- say of a role is what the completion does first.
use mathlib.Core.List.{head?}
use mathlib.Core.Option
use oriion.Prelude.{
  ◌≡◌, refl, inl, inr, String, Bool, true, false, Option, none, some, List, [], ◌∷◌, ◌++◌, ℕ, arith,
  Bool-cases, Result, ok, err, if◌then◌else◌,
}
use oriion.Gateway.Router.{
  LlmRequest, World, Circuits, GatewayError, unavailable, Completion, Visit, skipped, answered,
  failed, raised, plain, consult, first_admitted, visit, resume, walk, request_for, acomplete,
  route, would_use_native_tools, route_found, forwards, after_chat, Outcome, responds, http_error,
  other_error, upstream,
}
use oriion.Gateway.Router.Models.{chain_starting_at, role_to_model}

module _ {M T R : Type 0} (w : World M T R) (ask : String → LlmRequest M T) where
  -- The first request stays the first.
  resume-head :
      (k : Circuits → GatewayError → List (String × LlmRequest M T) → Completion M T R)
      (x : String × LlmRequest M T)
      (ih : (cs : Circuits) (last : GatewayError) (xs : List (String × LlmRequest M T))
        → head? (k cs last (x ∷ xs)).asked ≡ some x)
      (s : String) (last : GatewayError) (xs : List (String × LlmRequest M T)) (v : Visit M T R)
      → head? (resume w k s last (x ∷ xs) v).asked ≡ some x
  unfolding resume
  resume-head k x ih s last xs (skipped cs) = ih cs last xs
  resume-head k x ih s last xs (answered cs req r) = refl
  resume-head k x ih s last xs (failed cs req) = ih cs _ (xs ++ (s, req) ∷ [])
  resume-head k x ih s last xs (raised cs req) = refl

  walk-head :
      (x : String × LlmRequest M T) (chain : List String) (cs : Circuits) (last : GatewayError)
      (xs : List (String × LlmRequest M T))
      → head? (walk w ask chain cs last (x ∷ xs)).asked ≡ some x
  unfolding walk
  walk-head x [] cs last xs = refl
  walk-head x (s ∷ rest) cs last xs =
      resume-head (walk w ask rest) x (walk-head x rest) s last xs (visit w ask s cs)

  asked_first :
      (chain : List String) (s : String) (cs : Circuits) (last : GatewayError) (o : Outcome R)
      → head? (resume w (walk w ask chain) s last [] (after_chat w s cs (ask s) o)).asked
        ≡ some (s, ask s)
  unfolding after_chat resume
  asked_first chain s cs last (responds r) = refl
  asked_first chain s cs last http_error = walk-head (s, ask s) chain _ (upstream s) []
  asked_first chain s cs last other_error = refl

  visit_admitted :
      (chain : List String) (s : String) (cs : Circuits) (last : GatewayError)
      → (consult w s cs).1 ≡ true
      → head? (resume w (walk w ask chain) s last [] (visit w ask s cs)).asked ≡ some (s, ask s)
  unfolding visit
  visit_admitted chain s cs last h =
      rw (h, visit) (asked_first chain s (consult w s cs).0 last (w.chat s (ask s)))

  visit_refused :
      (s : String) (cs : Circuits)
      → (consult w s cs).1 ≡ false
      → visit w ask s cs ≡ skipped (consult w s cs).0
  unfolding visit
  visit_refused s cs h = ground arith

  walk_first :
      (chain : List String) (cs : Circuits) (last : GatewayError)
      → head? (walk w ask chain cs last []).asked
        ≡ Option.map (λ s. (s, ask s)) (first_admitted w chain cs).1
  unfolding walk first_admitted resume
  walk_first [] cs last = refl
  walk_first (s ∷ rest) cs last = elim (Bool-cases (consult w s cs).1) [
    | inl yes' ↦ rw (yes', first_admitted) (visit_admitted rest s cs last yes')
    | inr no' ↦
        rw (no', first_admitted)
          (rw (visit_refused s cs no', resume) (walk_first rest (consult w s cs).0 last))
  ]

module _ {M T R : Type 0} (w : World M T R) where
  -- What the three searches of one request say together: where `route` finds no provider nothing
  -- is asked and the native tools are not used; where it finds one, the completion asks that one
  -- first, for the model that `route` named, and the request carries the tools exactly when
  -- `would_use_native_tools` says yes.
  abbrev pub Agrees :
      Result GatewayError (String × String)
      → Bool
      → Option (String × LlmRequest M T)
      → Option T
      → Type 0
  Agrees (err e) native first tools = (first ≡ none) × (native ≡ false)
  Agrees (ok (slug, model)) native none tools = ⊥
  Agrees (ok (slug, model)) native (some (asked, req)) tools =
      (asked ≡ slug) × (req.model ≡ model) × (req.tools ≡ (if native then tools else none))

  agree :
      (role_key : String) (hint : Option String) (messages : M) (max_tokens : ℕ) (tools : Option T)
      (cs : Circuits) (found : Option String)
      → Agrees
          (route_found w role_key hint (cs, found)).0
          (forwards w found)
          (Option.map (λ s. (s, request_for w role_key hint messages max_tokens tools s)) found)
          tools
  unfolding route_found forwards request_for
  agree role_key hint messages max_tokens tools cs none = (refl, refl)
  agree role_key hint messages max_tokens tools cs (some s) = (refl, refl, refl)

  -- For a request with no BYOK hint, over the same circuits and the same clock, `route`,
  -- `would_use_native_tools` and the first request of `acomplete` agree on the provider, the model
  -- and whether the tools are forwarded.
  pub first_request-Agrees :
      (role_key : String) (hint : Option String) (messages : M) (max_tokens : ℕ) (tools : Option T)
      (cs : Circuits)
      → Agrees
          (route w role_key (plain hint) cs).0
          (would_use_native_tools w role_key (plain hint) cs).0
          (head? (acomplete w role_key (plain hint) messages max_tokens tools cs).asked)
          tools
  unfolding route would_use_native_tools acomplete
  first_request-Agrees role_key hint messages max_tokens tools cs =
      let chain = chain_starting_at (role_to_model role_key).0 in
      let ask = request_for w role_key hint messages max_tokens tools in
      let (cs', found) = first_admitted w chain cs in
      rw (walk_first w ask chain cs unavailable)
        (agree role_key hint messages max_tokens tools cs' found)
