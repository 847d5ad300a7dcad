-- ===== src/Gateway/Router/Fallback.antt =====
-- `failover_chain` of llm_gateway/services/router_service.py: the next provider for a role, past
-- those that are excluded.
use oriion.Prelude.{
  ℕ, ◌≡◌, refl, ap, sym, ◌∙◌, String, Bool, true, false, not, Option, none, some, List, [], ◌∷◌,
  str_eq, any, keep_if, arith, if◌then◌else◌, Bool-cases, inl, inr,
}
use oriion.Gateway.Circuit.{
  CircuitState, closed, opened, half_open, ProviderCircuit, try_half_open, should_attempt,
  should_attempt_in,
}
use oriion.Gateway.Router.{World, Circuits, put, consult, consult_circuit, first_admitted}
use oriion.Gateway.Router.Models.{chain_starting_at, role_to_model}

abbrev pub is_excluded : List String → String → Bool
is_excluded exclude slug = any (str_eq slug) exclude

-- `state is OPEN and not try_half_open()`, negated.
usable_in : CircuitState → ℕ → ProviderCircuit → ProviderCircuit × Bool
usable_in opened now c = try_half_open now c
usable_in _ now c = (c, true)

module _ {M T R : Type 0} (w : World M T R) where
  take_up : String → Option ProviderCircuit → Circuits → Circuits × Bool
  unfolding usable_in
  take_up slug none cs = (cs, false)
  take_up slug (some c) cs =
      let (c', ready) = usable_in c.state (w.consulted_at slug) c in (put slug c' cs, ready)

  consider : List String → String → Circuits → Circuits × Bool
  unfolding take_up
  consider exclude slug cs =
      if is_excluded exclude slug
      then (cs, false)
      else if w.registered slug
      then take_up slug (cs slug) cs
      else (cs, false)

  fall_back : List String → List String → Circuits → Circuits × Option String
  unfolding consider
  fall_back exclude [] cs = (cs, none)
  fall_back exclude (slug ∷ rest) cs =
      let (cs', ready) = consider exclude slug cs in
      elim ready [ true ↦ (cs', some slug) | false ↦ fall_back exclude rest cs' ]

  unfoldable pub failover_chain : String → List String → Circuits → Circuits × Option String
  unfolding fall_back
  failover_chain role_key exclude cs =
      fall_back exclude (chain_starting_at (role_to_model role_key).0) cs

usable_same :
    (s : CircuitState) (now : ℕ) (c : ProviderCircuit)
    → usable_in s now c ≡ should_attempt_in s now c
unfolding usable_in should_attempt_in
usable_same closed now c = refl
usable_same opened now c = refl
usable_same half_open now c = refl

module _ {M T R : Type 0} (w : World M T R) where
  take_up_same :
      (slug : String) (o : Option ProviderCircuit) (cs : Circuits)
      → take_up w slug o cs ≡ consult_circuit w slug o cs
  unfolding take_up consult_circuit should_attempt
  take_up_same slug none cs = refl
  take_up_same slug (some c) cs =
      ap (λ (r : ProviderCircuit × Bool). (put slug r.0 cs, r.1))
        (usable_same c.state (w.consulted_at slug) c)

  consider_excluded :
      (exclude : List String) (slug : String) (cs : Circuits)
      → is_excluded exclude slug ≡ true
      → consider w exclude slug cs ≡ (cs, false)
  unfolding consider
  consider_excluded exclude slug cs h = rw h refl

  consider_same :
      (exclude : List String) (slug : String) (cs : Circuits)
      → is_excluded exclude slug ≡ false
      → consider w exclude slug cs ≡ consult w slug cs
  unfolding consider consult
  consider_same exclude slug cs h = rw h (rw (take_up_same slug (cs slug) cs) refl)

  kept : List String → List String → List String
  kept exclude = keep_if (λ s. not (is_excluded exclude s))

  -- The same turn, by what the provider's circuit answers.
  turn : (Circuits → Circuits × Option String) → String → Circuits × Bool → Circuits × Option String
  turn next slug (cs, true) = (cs, some slug)
  turn next slug (cs, false) = next cs

  fall_back-turn :
      (exclude rest : List String) (slug : String) (cs : Circuits)
      → fall_back w exclude (slug ∷ rest) cs
        ≡ turn (fall_back w exclude rest) slug (consider w exclude slug cs)
  unfolding fall_back turn
  fall_back-turn exclude rest slug cs = elim (Bool-cases (consider w exclude slug cs).1) [
    | inl y ↦ rw (y, fall_back, turn) refl
    | inr n ↦ rw (n, fall_back, turn) refl
  ]

  first_admitted-turn :
      (rest : List String) (slug : String) (cs : Circuits)
      → first_admitted w (slug ∷ rest) cs ≡ turn (first_admitted w rest) slug (consult w slug cs)
  unfolding first_admitted turn
  first_admitted-turn rest slug cs = elim (Bool-cases (consult w slug cs).1) [
    | inl y ↦ rw (y, first_admitted, turn) refl
    | inr n ↦ rw (n, first_admitted, turn) refl
  ]

  turn_same :
      (f g : Circuits → Circuits × Option String) (slug : String) (r : Circuits × Bool)
      → ((cs : Circuits) → f cs ≡ g cs)
      → turn f slug r ≡ turn g slug r
  unfolding turn
  turn_same f g slug (cs, true) h = refl
  turn_same f g slug (cs, false) h = h cs

  turn_refused :
      (f : Circuits → Circuits × Option String) (slug : String) (cs : Circuits)
      → turn f slug (cs, false) ≡ f cs
  unfolding turn
  turn_refused f slug cs = refl

  kept_out :
      (exclude rest : List String) (slug : String)
      → is_excluded exclude slug ≡ true
      → kept exclude (slug ∷ rest) ≡ kept exclude rest
  unfolding kept
  kept_out exclude rest slug h = ground (arith, h)

  kept_in :
      (exclude rest : List String) (slug : String)
      → is_excluded exclude slug ≡ false
      → kept exclude (slug ∷ rest) ≡ slug ∷ kept exclude rest
  unfolding kept
  kept_in exclude rest slug h = ground (arith, h)

  fall_back-first_admitted :
      (exclude chain : List String) (cs : Circuits)
      → fall_back w exclude chain cs ≡ first_admitted w (kept exclude chain) cs
  fall_back-first_admitted exclude [] cs = unfold fall_back first_admitted kept in refl
  fall_back-first_admitted exclude (slug ∷ rest) cs = elim (Bool-cases (is_excluded exclude slug)) [
    | inl out ↦
        fall_back-turn exclude rest slug cs
        ∙ ap (turn (fall_back w exclude rest) slug) (consider_excluded exclude slug cs out)
        ∙ turn_refused (fall_back w exclude rest) slug cs
        ∙ fall_back-first_admitted exclude rest cs
        ∙ ap (λ chain. first_admitted w chain cs) (sym (kept_out exclude rest slug out))
    | inr stays ↦
        fall_back-turn exclude rest slug cs
        ∙ ap (turn (fall_back w exclude rest) slug) (consider_same exclude slug cs stays)
        ∙ turn_same (fall_back w exclude rest) (first_admitted w (kept exclude rest)) slug
            (consult w slug cs) (λ cs'. fall_back-first_admitted exclude rest cs')
        ∙ sym (first_admitted-turn (kept exclude rest) slug cs)
        ∙ ap (λ chain. first_admitted w chain cs) (sym (kept_in exclude rest slug stays))
  ]

  -- Whatever is excluded, failover_chain finds what the search of `route` and `acomplete` finds on the
  -- role's chain without the excluded providers, and leaves the circuits in the same state: it writes
  -- the state test out, but admits the same circuits as should_attempt.
  pub failover_chain-first_admitted :
      (role_key : String) (exclude : List String) (cs : Circuits)
      → failover_chain w role_key exclude cs
        ≡ first_admitted w
            (keep_if
              (λ s. not (is_excluded exclude s))
              (chain_starting_at (role_to_model role_key).0))
            cs
  unfolding failover_chain kept
  failover_chain-first_admitted role_key exclude cs =
      fall_back-first_admitted exclude (chain_starting_at (role_to_model role_key).0) cs
