-- ===== src/Billing/Pricing/Rounding.antt =====
-- llm_gateway/services/pricing_service.py: how far the stored costs are from the exact ones.
use oriion.Prelude.{ℕ, ◌+◌, ◌*◌, ◌≤◌, ◌≡◌, refl, Option, none, some, String, arith}
use oriion.Billing.Pricing.{
  pricing_table, find_prices, exact_usd, round_half_even, priced, calculate_cost_usd_and_rub,
}

-- Both stored costs are within half a unit of their last place of the exact ones; what has no price
-- costs nothing.
abbrev pub IsRounded : Option (ℕ × ℕ) → ℕ → ℕ → ℕ → ℕ × ℕ → Type 0
IsRounded none tokens_in tokens_out fx (usd, rub) = (usd ≡ 0) × (rub ≡ 0)
IsRounded (some prices) tokens_in tokens_out fx (usd, rub) =
    let exact = exact_usd prices tokens_in tokens_out in
    (200 * usd ≤ 2 * exact + 100)
    × (2 * exact ≤ 200 * usd + 100)
    × (20000000000 * rub ≤ 2 * (exact * fx) + 10000000000)
    × (2 * (exact * fx) ≤ 20000000000 * rub + 10000000000)

cents :
    (n : ℕ)
    → (200 * round_half_even n 100 ≤ 2 * n + 100) × (2 * n ≤ 200 * round_half_even n 100 + 100)
unfolding round_half_even
cents n = ground arith

kopecks :
    (n : ℕ)
    → (20000000000 * round_half_even n 10000000000 ≤ 2 * n + 10000000000)
      × (2 * n ≤ 20000000000 * round_half_even n 10000000000 + 10000000000)
unfolding round_half_even
kopecks n = ground arith

priced-IsRounded :
    (p : Option (ℕ × ℕ)) (tokens_in tokens_out fx : ℕ)
    → IsRounded p tokens_in tokens_out fx (priced p tokens_in tokens_out fx)
unfolding priced
priced-IsRounded none tokens_in tokens_out fx = (refl, refl)
priced-IsRounded (some p) tokens_in tokens_out fx =
    let e = exact_usd p tokens_in tokens_out in
    let (a, b) = cents e in let (c, d) = kopecks (e * fx) in (a, b, c, d)

-- For every provider, model, token counts and exchange rate the dollars (in millionths) and the
-- roubles (in ten-thousandths) that the code computes are each within half a unit of the exact
-- cost by the price table; a provider or model that is not in the table costs nothing.
pub calculate_cost-IsRounded :
    (provider model : String) (tokens_in tokens_out fx : ℕ)
    → IsRounded
        (find_prices provider model pricing_table)
        tokens_in
        tokens_out
        fx
        (calculate_cost_usd_and_rub provider model tokens_in tokens_out fx)
unfolding calculate_cost_usd_and_rub
calculate_cost-IsRounded provider model tokens_in tokens_out fx =
    priced-IsRounded (find_prices provider model pricing_table) tokens_in tokens_out fx
