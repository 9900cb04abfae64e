-- ===== src/Startup/Restart.antt =====
-- A policy that is put is there again after a restart.
use outcome_router.Config.{Config}
use outcome_router.Double.{Double}
use outcome_router.Routing.Registry.{Registry}
use outcome_router.Store.Files.{Files}
