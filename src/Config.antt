-- ===== src/Config.antt =====
-- internal/config/config.go: the records of the configuration.
pub mod Access
pub mod Validate
pub mod Load
use outcome_router.Base.{String, List, Map}
use outcome_router.Base.Int.{ℤ}
use outcome_router.Domain.{Model, Policy}

pub record Provider : Type 0 where
  pub id : String
  pub base_url : String
  pub base_url_env : String
  pub api_key_env : String
  pub api_key : String
  pub headers : Map String
  pub timeout_ms : ℤ
  pub max_retries : ℤ
  pub circuit_failures : ℤ
  pub circuit_open_ms : ℤ

pub record Tenant : Type 0 where
  pub id : String
  pub router_api_key_env : String
  pub router_api_key : String
  pub default_policy_id : String
  pub providers : Map Provider

pub record Config (F : Type 0) : Type 0 where
  pub listen_address : String
  pub data_directory : String
  pub admin_key_env : String
  pub admin_key : String
  pub catalog : Map (Model F)
  pub policies : List (Policy F)
  pub tenants : List Tenant
