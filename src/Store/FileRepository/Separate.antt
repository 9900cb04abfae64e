-- ===== src/Store/FileRepository/Separate.antt =====
-- What a tenant reads from the file store is its own.
use outcome_router.Base.{String, List, values, ◌==◌}
use outcome_router.Config.{Config}
use outcome_router.Domain.{RouteDecision, Outcome}
use outcome_router.Double.{Double}
use outcome_router.Routing.Registry.{Registry}
use outcome_router.Server.Reads.{decision}
use outcome_router.Store.FileRepository.{FileWorld}
use outcome_router.Store.Postgres.Agrees.{keep_if}

-- The records of one tenant.
abbrev pub own_decisions : {F : Type 0} → String → FileWorld F → List (RouteDecision F)
own_decisions tenant_id w =
    keep_if (λ decision. decision.tenant_id == tenant_id) (values w.files.store.decisions)

abbrev pub own_outcomes : {F : Type 0} → String → FileWorld F → List (Outcome F)
own_outcomes tenant_id w = keep_if (λ o. o.tenant_id == tenant_id) w.files.store.outcomes
