-- ===== src/Providers.antt =====
-- The provider registry's data model, src/providers/provider.model.ts.
pub mod Paths
pub mod Registry
pub mod Resolution
pub mod Aliases
pub mod Positions
pub mod AliasChains
pub mod Writes
pub mod AliasWrites
pub mod AliasCalls
pub mod AliasTests
pub mod Chains
pub mod Tests
use ms_gatgeway_llm.Base.{ℕ, String, Bool, Option}

pub record Overrides : Type 0 where
  pub max_tokens : Option ℕ
  pub disable_thinking : Option Bool

-- `ResolvedModel`; timeouts and priorities are non-negative integers, as the admin API's schemas
-- demand.
pub record ResolvedModel : Type 0 where
  pub requested_as : String
  pub provider_id : String
  pub model_key : String
  pub upstream_model : String
  pub api_key : String
  pub base_url : String
  pub overrides : Overrides
  pub supports_stream : Bool
  pub timeout_ms : ℕ
  pub priority : ℕ

-- `RoutingStrategySchema`.
pub data RoutingStrategy : Type 0 where
  primary round_robin fallback weighted priority_grouped : RoutingStrategy
