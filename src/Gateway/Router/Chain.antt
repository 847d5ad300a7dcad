-- ===== src/Gateway/Router/Chain.antt =====
-- The failover order of `_chain_starting_at`.
use oriion.Prelude.{◌≡◌, String, true, false, some, List, [], ◌∷◌, str_eq, eq_iff, any, All, arith}
use mathlib.Core.List.{head?}
use oriion.Gateway.Router.Models.{chat_chain, chain_starting_at}

-- No two entries are the same text.
abbrev pub IsDistinct : List String → Type 0
IsDistinct [] = Unit
IsDistinct (x ∷ xs) = All (λ y. str_eq y x ≡ false) xs × IsDistinct xs

abbrev pub Fits : String → List String → Type 0
Fits primary chain =
    IsDistinct chain
    × All (λ s. any (str_eq s) chain ≡ true) chat_chain
    × (head? chain ≡ some primary)

-- Whatever the role's own provider is, the chain asks it first, then every other provider of the
-- chat chain, and none twice.
pub chain_starting_at-Fits : (primary : String) → Fits primary (chain_starting_at primary)
unfolding chain_starting_at
chain_starting_at-Fits primary = ground (
  arith,
  eq_iff "deepseek" primary,
  eq_iff "yandexgpt" primary,
  eq_iff "gigachat" primary,
  eq_iff primary "deepseek",
  eq_iff primary "yandexgpt",
  eq_iff primary "gigachat",
)
