-- ===== src/Rules/Types.antt =====
-- controller/internal/rules/service.go: the records of a rule.
use mosdns_controller.Base.{ℕ, String, Bool, Option, List}
use mosdns_controller.Go.Int.{ℤ}

-- Identifiers and times are counters and clock readings, hence natural numbers.
pub record Rule : Type 0 where
  pub id : ℕ
  pub category : String
  pub action : String
  pub upstream_group_id : String
  pub match_type : String
  pub pattern : String
  pub priority : ℤ
  pub source : String
  pub comment : String
  pub enabled : Bool
  pub created_at_ms : ℕ
  pub updated_at_ms : ℕ
  pub expected_registry_version : Option ℕ
  pub ipv4_addresses : List String
  pub ipv6_addresses : List String
  pub ttl : ℕ
