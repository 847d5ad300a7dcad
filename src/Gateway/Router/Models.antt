-- ===== src/Gateway/Router/Models.antt =====
-- The tables of llm_gateway/services/router_service.py: models and output budgets by role, the
-- chat chain, and each provider's default model.
use oriion.Prelude.{
  ℕ, ◌+◌, String, Bool, Option, none, some, List, [], ◌∷◌, ◌++◌, str_eq, take, drop, if◌then◌else◌,
}

-- `ROLE_TO_MODEL.get(role_key, ROLE_TO_MODEL["default"])`.
unfoldable pub role_to_model : String → String × String
role_to_model role_key =
    if str_eq role_key "master_synthesis"
    then ("deepseek", "deepseek-reasoner")
    else if str_eq role_key "embedder"
    then ("yandexgpt", "text-search-doc")
    else ("deepseek", "deepseek-chat")

-- `resolve_max_tokens`: the role's output budget, or the default one.
unfoldable pub resolve_max_tokens : String → ℕ
resolve_max_tokens role_key =
    if str_eq role_key "coordinator"
    then 2048
    else if str_eq role_key "writer"
    then 8192
    else if str_eq role_key "master"
    then 2048
    else if str_eq role_key "master_synthesis"
    then 8192
    else if str_eq role_key "memory_filter"
    then 1024
    else if str_eq role_key "memory_summary"
    then 1024
    else 4096

unfoldable pub provider_default_model : String → String
provider_default_model slug =
    if str_eq slug "deepseek"
    then "deepseek-chat"
    else if str_eq slug "yandexgpt"
    then "yandexgpt/rc"
    else if str_eq slug "gigachat"
    then "GigaChat-Pro"
    else if str_eq slug "openai"
    then "gpt-4o"
    else if str_eq slug "anthropic"
    then "claude-sonnet-4-6"
    else "default"

unfoldable pub provider_forwards_tools : String → Bool
provider_forwards_tools slug = str_eq slug "deepseek"

abbrev pub chat_chain : List String
chat_chain = "deepseek" ∷ "yandexgpt" ∷ "gigachat" ∷ []

-- `primary in chain`, and its index.
index_of : String → List String → Option ℕ
index_of s [] = none
index_of s (x ∷ xs) =
    if str_eq x s then some 0 else elim (index_of s xs) [ none ↦ none | some i ↦ some (i + 1) ]

rotated : String → Option ℕ → List String
rotated primary none = primary ∷ chat_chain
rotated primary (some i) = drop i chat_chain ++ take i chat_chain

-- The chat chain with the primary first; an unknown primary is put before the whole chain.
unfoldable pub chain_starting_at : String → List String
unfolding index_of rotated
chain_starting_at primary = rotated primary (index_of primary chat_chain)
