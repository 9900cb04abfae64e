-- ===== src/Domain/Policies.antt =====
-- internal/domain/types.go: model scores, snapshots and policies. A time is a number of nanoseconds
-- since Go's zero time, so `IsZero` is a test for 0.
use outcome_router.Base.{ℕ, String, Bool, List, Map}
use outcome_router.Base.Int.{ℤ}
use outcome_router.Domain.Catalog.{Mode, PolicyConstraints}

abbrev pub Time : Type 0
Time = ℕ

pub record ModelScore (F : Type 0) : Type 0 where
  pub success_rate : F
  pub uncertainty : F
  pub samples : ℤ
  pub weights : Map F
  pub bias : F

pub record Snapshot (F : Type 0) : Type 0 where
  pub version : String
  pub catalog_version : String
  pub trained_at : Time
  pub global : Map (ModelScore F)
  pub by_workflow : Map (Map (ModelScore F))

pub record Policy (F : Type 0) : Type 0 where
  pub id : String
  pub tenant_id : String
  pub version : String
  pub mode : Mode
  pub incumbent_model : String
  pub candidate_models : List String
  pub fallback_models : List String
  pub quality_tolerance : F
  pub confidence_z : F
  pub minimum_samples : ℤ
  pub control_percent : F
  pub canary_percent : F
  pub exploration_percent : F
  pub shadow_budget_usd_per_day : F
  pub primary_outcome : String
  pub constraints : PolicyConstraints F
  pub snapshot : Snapshot F
  pub drifted : Bool
  pub created_at : Time
