-- ===== src/Gateway/Router/Failover.antt =====
-- What a completion guarantees: who answers, who was asked before, and that somebody answers.
use oriion.Prelude.{
  ℕ, ◌≡◌, refl, inl, inr, String, true, false, Option, none, some, List, [], ◌∷◌, ◌++◌, str_eq,
  eq_iff, any, All, arith, Bool-cases, ok, ◌∙◌, sym, ap, is_ok, ◌≢◌,
}
use oriion.Gateway.Circuit.{ProviderCircuit, closed, record_success}
use oriion.Gateway.Router.{
  LlmRequest, Outcome, responds, http_error, other_error, World, Circuits, GatewayError, upstream,
  Completion, Visit, skipped, answered, failed, raised, consult, visit, walk, resume, request_for,
  acomplete, plain, unavailable,
}
use oriion.Gateway.Router.Models.{chain_starting_at, role_to_model}
use mathlib.Core.List.{append_assoc}
use mathlib.Core.Path.{subst}

abbrev pub IsClosed : Option ProviderCircuit → Type 0
IsClosed none = ⊥
IsClosed (some c) = (c.state ≡ closed) × (c.consecutive_failures ≡ 0)

abbrev pub IsResponse : {R : Type 0} → Outcome R → Type 0
IsResponse (responds r) = Unit
IsResponse http_error = ⊥
IsResponse other_error = ⊥

module _ {M T R : Type 0} (w : World M T R) (ask : String → LlmRequest M T) where
  visit_answered :
      (slug : String) (cs cs' : Circuits) (req : LlmRequest M T) (r : R)
      → visit w ask slug cs ≡ answered cs' req r
      → (req ≡ ask slug) × (w.chat slug (ask slug) ≡ responds r) × IsClosed (cs' slug)
  unfolding visit record_success consult
  visit_answered slug cs cs' req r h = ground (arith, eq_iff slug slug)

  visit_failed :
      (slug : String) (cs cs' : Circuits) (req : LlmRequest M T)
      → visit w ask slug cs ≡ failed cs' req
      → (req ≡ ask slug) × (w.chat slug (ask slug) ≡ http_error)
  unfolding visit
  visit_failed slug cs cs' req h = ground arith

  -- A request that was made as `ask` says, and that failed in a way that is retried elsewhere.
  abbrev pub Failed : String × LlmRequest M T → Type 0
  Failed (slug, req) = (req ≡ ask slug) × (w.chat slug (ask slug) ≡ http_error)

  -- A completion that began with the log `asked` and answered has added failed requests to it,
  -- and then the one that was answered.
  record IsAnswer (asked : List (String × LlmRequest M T)) (c : Completion M T R) (r : R)
      (model slug : String) : Type 0 where
    failures : List (String × LlmRequest M T)
    log : c.asked ≡ asked ++ (failures ++ (slug, ask slug) ∷ [])
    all_failed : All Failed failures
    answer : w.chat slug (ask slug) ≡ responds r
    model_asked : model ≡ (ask slug).model
    circuit : IsClosed (c.circuits slug)

  -- The rest of the loop, where one more request has failed before it.
  IsAnswer-Failed :
      (asked : List (String × LlmRequest M T)) (c : Completion M T R) (r : R)
      (model slug s : String) (req : LlmRequest M T)
      → Failed (s, req)
      → IsAnswer (asked ++ (s, req) ∷ []) c r model slug
      → IsAnswer asked c r model slug
  IsAnswer-Failed asked c r model slug s req f a = record {
    failures = (s, req) ∷ a.failures;
    log = a.log ∙ append_assoc asked ((s, req) ∷ []) (a.failures ++ (slug, ask slug) ∷ []);
    all_failed = (f, a.all_failed);
    answer = a.answer;
    model_asked = a.model_asked;
    circuit = a.circuit;
  }

  module _ (r : R) (model slug : String) where
    resume-IsAnswer :
        (k : Circuits → GatewayError → List (String × LlmRequest M T) → Completion M T R)
        (ih : (cs : Circuits) (last : GatewayError) (asked : List (String × LlmRequest M T))
          → (k cs last asked).result ≡ ok (r, model, slug)
          → IsAnswer asked (k cs last asked) r model slug)
        (s : String) (cs : Circuits) (last : GatewayError) (asked : List (String × LlmRequest M T))
        (v : Visit M T R)
        → visit w ask s cs ≡ v
        → (resume w k s last asked v).result ≡ ok (r, model, slug)
        → IsAnswer asked (resume w k s last asked v) r model slug
    unfolding resume
    resume-IsAnswer k ih s cs last asked (skipped cs') e h = ih cs' last asked h
    resume-IsAnswer k ih s cs last asked (answered cs' req r') e h =
        let facts = visit_answered s cs cs' req r' e in
        record {
          failures = [];
          log = ground (arith, facts, h);
          all_failed = tt;
          answer = ground (arith, facts, h);
          model_asked = ground (arith, facts, h);
          circuit = subst (λ t. IsClosed (cs' t)) (ground (arith, h)) facts.2;
        }
    resume-IsAnswer k ih s cs last asked (failed cs' req) e h =
        IsAnswer-Failed asked _ r model slug s req (visit_failed s cs cs' req e)
          (ih cs' (upstream s) (asked ++ (s, req) ∷ []) h)
    resume-IsAnswer k ih s cs last asked (raised cs' req) e h = cc

    walk-IsAnswer :
        (chain : List String) (cs : Circuits) (last : GatewayError)
        (asked : List (String × LlmRequest M T))
        → (walk w ask chain cs last asked).result ≡ ok (r, model, slug)
        → IsAnswer asked (walk w ask chain cs last asked) r model slug
    unfolding walk
    walk-IsAnswer [] cs last asked h = cc
    walk-IsAnswer (s ∷ rest) cs last asked h =
        resume-IsAnswer (walk w ask rest) (walk-IsAnswer rest) s cs last asked (visit w ask s cs)
          refl h

  visit_raised :
      (slug : String) (cs cs' : Circuits) (req : LlmRequest M T)
      → visit w ask slug cs ≡ raised cs' req
      → w.chat slug (ask slug) ≡ other_error
  unfolding visit
  visit_raised slug cs cs' req h = ground arith

  -- A provider that may be tried and responds ends the loop.
  willing_answers :
      (k : Circuits → GatewayError → List (String × LlmRequest M T) → Completion M T R) (s : String)
      (cs : Circuits) (last : GatewayError) (asked : List (String × LlmRequest M T))
      → IsResponse (w.chat s (ask s))
      → (consult w s cs).1 ≡ true
      → is_ok (resume w k s last asked (visit w ask s cs)).result ≡ true
  unfolding visit resume
  willing_answers k s cs last asked i h = ground arith

  -- The circuits after a turn.
  abbrev circuits_of : Visit M T R → Circuits
  circuits_of (skipped cs) = cs
  circuits_of (answered cs req r) = cs
  circuits_of (failed cs req) = cs
  circuits_of (raised cs req) = cs

  visit_other :
      (s slug : String) (cs : Circuits)
      → str_eq slug s ≡ false
      → circuits_of (visit w ask s cs) slug ≡ cs slug
  unfolding visit consult
  visit_other s slug cs ne = ground (arith, eq_iff slug s)

  consult_other :
      (slug : String) (cs cs' : Circuits)
      → cs slug ≡ cs' slug
      → (consult w slug cs).1 ≡ (consult w slug cs').1
  unfolding consult
  consult_other slug cs cs' e = ground arith

  module _ (slug : String) (willing : IsResponse (w.chat slug (ask slug)))
      (none_raises : (s : String) → w.chat s (ask s) ≢ other_error) where
    still_willing :
        (s : String) (cs cs' : Circuits)
        → circuits_of (visit w ask s cs) ≡ cs'
        → str_eq slug s ≡ false
        → (consult w slug cs).1 ≡ true
        → (consult w slug cs').1 ≡ true
    still_willing s cs cs' e ne h =
        consult_other slug cs' cs (sym (ap (λ (f : Circuits). f slug) e) ∙ visit_other s slug cs ne)
        ∙ h

    resume-is_ok :
        (k : Circuits → GatewayError → List (String × LlmRequest M T) → Completion M T R)
        (ih : (cs : Circuits) (last : GatewayError) (asked : List (String × LlmRequest M T))
          → (consult w slug cs).1 ≡ true
          → is_ok (k cs last asked).result ≡ true)
        (s : String) (cs : Circuits) (last : GatewayError) (asked : List (String × LlmRequest M T))
        (v : Visit M T R)
        → visit w ask s cs ≡ v
        → str_eq slug s ≡ false
        → (consult w slug cs).1 ≡ true
        → is_ok (resume w k s last asked v).result ≡ true
    unfolding resume
    resume-is_ok k ih s cs last asked (skipped cs') e ne h =
        ih cs' last asked (still_willing s cs cs' (ap circuits_of e) ne h)
    resume-is_ok k ih s cs last asked (answered cs' req r') e ne h = refl
    resume-is_ok k ih s cs last asked (failed cs' req) e ne h =
        ih cs' (upstream s) (asked ++ (s, req) ∷ [])
          (still_willing s cs cs' (ap circuits_of e) ne h)
    resume-is_ok k ih s cs last asked (raised cs' req) e ne h =
        absurd (none_raises s (visit_raised s cs cs' req e))

    walk-is_ok :
        (chain : List String) (cs : Circuits) (last : GatewayError)
        (asked : List (String × LlmRequest M T))
        → any (str_eq slug) chain ≡ true
        → (consult w slug cs).1 ≡ true
        → is_ok (walk w ask chain cs last asked).result ≡ true
    unfolding walk
    walk-is_ok [] cs last asked m h = cc
    walk-is_ok (s ∷ rest) cs last asked m h = elim (Bool-cases (str_eq slug s)) [
      | inl same ↦
          let e : slug ≡ s = (eq_iff slug s).0 same in
          willing_answers (walk w ask rest) s cs last asked
            (subst (λ t. IsResponse (w.chat t (ask t))) e willing)
            (subst (λ t. (consult w t cs).1 ≡ true) e h)
      | inr ne ↦
          resume-is_ok (walk w ask rest)
            (λ cs' l a. walk-is_ok rest cs' l a (ground (arith, m, ne))) s cs last asked
            (visit w ask s cs) refl ne h
    ]

module _ {M T R : Type 0} (w : World M T R) where
  -- A completion without a BYOK hint that returns an answer got it from the last provider that it
  -- asked, with that provider's model; every request before failed retryably; each request is the
  -- one made for its provider; and the circuit of the provider that answered is closed and clear.
  pub acomplete_answer :
      (role_key : String) (hint : Option String) (messages : M) (max_tokens : ℕ) (tools : Option T)
      (cs : Circuits) (r : R) (model slug : String)
      → let c = acomplete w role_key (plain hint) messages max_tokens tools cs in
        let ask = request_for w role_key hint messages max_tokens tools in
        c.result ≡ ok (r, model, slug)
        → (failures : List (String × LlmRequest M T)) × (c.asked
            ≡ failures ++ (slug, ask slug) ∷ [])
          × All (Failed w ask) failures
          × (w.chat slug (ask slug) ≡ responds r)
          × (model ≡ (ask slug).model)
          × IsClosed (c.circuits slug)
  unfolding acomplete
  acomplete_answer role_key hint messages max_tokens tools cs r model slug h =
      let ask = request_for w role_key hint messages max_tokens tools in
      let a =
        walk-IsAnswer w ask r model slug (chain_starting_at (role_to_model role_key).0) cs
          unavailable [] h in
      (a.failures, a.log, a.all_failed, a.answer, a.model_asked, a.circuit)

  -- A request does not fail while a provider of the chain can serve it: where some provider of the
  -- role's chain has a circuit that admits a request now and responds to it, and no provider raises
  -- an error that is not retried, the completion returns an answer.
  pub acomplete_available :
      (role_key : String) (hint : Option String) (messages : M) (max_tokens : ℕ) (tools : Option T)
      (cs : Circuits) (slug : String)
      → let ask = request_for w role_key hint messages max_tokens tools in
        any (str_eq slug) (chain_starting_at (role_to_model role_key).0) ≡ true
        → (consult w slug cs).1 ≡ true
        → IsResponse (w.chat slug (ask slug))
        → ((s : String) → w.chat s (ask s) ≢ other_error)
        → is_ok (acomplete w role_key (plain hint) messages max_tokens tools cs).result ≡ true
  unfolding acomplete
  acomplete_available role_key hint messages max_tokens tools cs slug on_chain admits willing calm =
      walk-is_ok w (request_for w role_key hint messages max_tokens tools) slug willing calm
        (chain_starting_at (role_to_model role_key).0) cs unavailable [] on_chain admits
