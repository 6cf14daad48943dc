-- ===== src/Config.antt =====
-- The parts of src/symphony/config.py that the coordinator reads.
use openhands_symphony.Base.{
  ℕ, String, Bool, Option, none, some, List, [], ◌∷◌, ◌==◌, string_eq, if◌then◌else◌,
}
use openhands_symphony.Intake.{contains}

pub record RepositoryConfig : Type 0 where
  pub concurrency_scope : String
  pub concurrency_key : String
  pub concurrency_labels : List (String × String)
  pub validation_commands : List (List String)

-- `RepositoryConfig()`, of an unlisted repository
abbrev pub default_repository : RepositoryConfig
default_repository = record {
  concurrency_scope = "repository";
  concurrency_key = "";
  concurrency_labels = [];
  validation_commands = [];
}

pub record Config : Type 0 where
  pub allowed_repositories : List String
  pub private_only : Bool
  pub provider_concurrency : List (String × ℕ)
  pub global_concurrency : ℕ
  pub lease_seconds : ℕ
  pub reconcile_seconds : ℕ
  pub max_attempts : ℕ
  pub max_implementation_corrections : ℕ
  pub max_review_repairs : ℕ
  pub provider_backoff_base_seconds : ℕ
  pub provider_backoff_max_seconds : ℕ
  pub repositories : List (String × RepositoryConfig)

unfoldable pub lookup_repository : List (String × RepositoryConfig) → String → RepositoryConfig
lookup_repository [] name = default_repository
lookup_repository ((k, r) ∷ rest) name = if k == name then r else lookup_repository rest name

-- The keys whose label is on the issue.
unfoldable pub selected_keys : List (String × String) → List String → List String
selected_keys [] labels = []
selected_keys ((label, key) ∷ table) labels =
    let rest = selected_keys table labels in if contains labels label then key ∷ rest else rest

-- `none` is the ValueError "exactly one configured concurrency-scope label is required". `join` puts
-- the repository, a colon and the key together.
unfoldable pub scoped_key :
    (join : String → String → String) → RepositoryConfig → String → List String → Option String
scoped_key join cfg repository labels =
    if cfg.concurrency_scope == "configured"
    then some cfg.concurrency_key
    else if cfg.concurrency_scope == "label"
    then elim (selected_keys cfg.concurrency_labels labels) [
      | key ∷ [] ↦ some (join repository key)
      | _ ↦ none
    ]
    else some repository

unfoldable pub concurrency_key :
    (join : String → String → String) → Config → String → List String → Option String
unfolding lookup_repository scoped_key selected_keys
concurrency_key join config repository labels =
    scoped_key join (lookup_repository config.repositories repository) repository labels

-- `provider_concurrency.get(name, 1)`
unfoldable pub slots : List (String × ℕ) → String → ℕ
slots [] name = 1
slots ((k, n) ∷ rest) name = if k == name then n else slots rest name
