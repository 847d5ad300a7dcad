-- ===== src/Billing/Pricing.antt =====
-- llm_gateway/services/pricing_service.py: what a call costs. A price is in hundred-thousandths of a
-- dollar for 1000 tokens, the exchange rate in millionths of a rouble.
pub mod Rounding
use oriion.Prelude.{
  ℕ, ◌+◌, ◌*◌, ◌/◌, ◌%◌, ◌≤◌, ◌≡◌, String, Option, none, some, List, [], ◌∷◌, str_eq, ◌==◌, ltb,
  arith, if◌then◌else◌,
}

abbrev pub PriceTable : Type 0
PriceTable = List (String × List (String × (ℕ × ℕ)))

abbrev pub get {ℓ} : {A : Type ℓ} → String → List (String × A) → Option A
get k [] = none
get k ((j, v) ∷ m) = if str_eq j k then some v else get k m

-- `PROVIDER_PRICING_USD_PER_1K_TOKENS`: the input price and the output price of each model.
unfoldable pub pricing_table : PriceTable
pricing_table =
    (
      "deepseek",
      ("deepseek-chat", (27, 110))
          ∷ ("deepseek-v4-flash", (27, 110))
          ∷ ("deepseek-reasoner", (55, 219))
          ∷ ("deepseek-v4-pro", (55, 219))
          ∷ [],
    )
    ∷ ("yandexgpt", ("yandexgpt-pro", (1200, 1200)) ∷ ("yandexgpt-lite", (200, 200)) ∷ [])
    ∷ ("gigachat", ("GigaChat-Pro", (1500, 1500)) ∷ ("GigaChat-Max", (1950, 1950)) ∷ [])
    ∷ (
      "openai",
      ("gpt-4o", (250, 1000)) ∷ ("gpt-4o-mini", (15, 60)) ∷ ("text-embedding-3-small", (2, 0)) ∷ [],
    )
    ∷ ("anthropic", ("claude-sonnet-4-6", (300, 1500)) ∷ ("claude-opus-4-7", (1500, 7500)) ∷ [])
    ∷ []

-- `Decimal.quantize` with its default rounding: to the nearest, and from the middle to the even one.
unfoldable pub round_half_even : ℕ → ℕ → ℕ
round_half_even n d =
    let q = n / d in
    let r = n % d in
    if ltb (2 * r) d then q else if ltb d (2 * r) then q + 1 else if q % 2 == 0 then q else q + 1

unfoldable pub find_prices : String → String → PriceTable → Option (ℕ × ℕ)
find_prices provider model table = elim (get provider table) [
  | none ↦ none
  | some models ↦ get model models
]

-- The dollars of a call before rounding, in units of 10^-8.
abbrev pub exact_usd : ℕ × ℕ → ℕ → ℕ → ℕ
exact_usd (input_price, output_price) tokens_in tokens_out =
    tokens_in * input_price + tokens_out * output_price

priced : Option (ℕ × ℕ) → ℕ → ℕ → ℕ → ℕ × ℕ
priced none tokens_in tokens_out fx = (0, 0)
priced (some prices) tokens_in tokens_out fx =
    let usd = exact_usd prices tokens_in tokens_out in
    (round_half_even usd 100, round_half_even (usd * fx) 10000000000)

-- Dollars in millionths and roubles in ten-thousandths; an unknown provider or model costs nothing.
unfoldable pub calculate_cost_usd_and_rub : String → String → ℕ → ℕ → ℕ → ℕ × ℕ
unfolding find_prices priced
calculate_cost_usd_and_rub provider model tokens_in tokens_out fx =
    priced (find_prices provider model pricing_table) tokens_in tokens_out fx
