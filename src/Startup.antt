-- ===== src/Startup.antt =====
-- cmd/router/main.go: from the environment to the server that is ready to serve. The HTTP listener,
-- signals and logging are outside.
pub mod Policies
pub mod Restart
use outcome_router.Base.{
  String, Option, none, some, List, [], ◌∷◌, ◌++◌, Map, if◌then◌else◌, ◌==◌, ◌⊎◌, inl, inr,
}
use outcome_router.Config.{Config}
use outcome_router.Config.Load.{LoadError}
use outcome_router.Double.{Double}
use outcome_router.Domain.{Policy}
use outcome_router.Provider.{new_client}
use outcome_router.Routing.Registry.{Registry, new_registry}
use outcome_router.Server.Api.{Api}
use outcome_router.Server.Outside.{Repository}
use outcome_router.Store.Files.{OpenError}

-- A repository with its state.
pub record Backend (F : Type 0) : Type 1 where
  pub State : Type 0
  pub repository : Repository F State
  pub state : State

-- The errors that end the process.
pub data StartError : Type 0 where
  config_failed : LoadError → StartError
  postgres_failed : String → StartError
  files_failed : OpenError → StartError
  policies_failed : String → StartError

abbrev pub config_path : (String → String) → String
config_path env =
    if env "OUTCOME_ROUTER_CONFIG" == "" then "config/demo.json" else env "OUTCOME_ROUTER_CONFIG"

module _ {F : Type 0} where
  abbrev from_postgres : String ⊎ Backend F → StartError ⊎ Backend F
  from_postgres (inl e) = inl (postgres_failed e)
  from_postgres (inr backend) = inr backend

  abbrev from_files : OpenError ⊎ Backend F → StartError ⊎ Backend F
  from_files (inl e) = inl (files_failed e)
  from_files (inr backend) = inr backend

  -- PostgreSQL where there is an address of a database, else the files.
  abbrev choose_backend :
      (String → String)
      → (String → String ⊎ Backend F)
      → OpenError ⊎ Backend F
      → StartError ⊎ Backend F
  choose_backend env open_postgres files =
      if env "DATABASE_URL" == ""
      then from_files files
      else from_postgres (open_postgres (env "DATABASE_URL"))

  -- The configured policies first, so that the persisted ones replace them.
  abbrev pub start_registry :
      {S : Type 0} → Config F → Repository F S → List (Policy F) → Registry F S
  start_registry config repository persisted =
      new_registry config.catalog (config.policies ++ persisted) (some repository.save_policy)

  abbrev start_api :
      {S : Type 0} → Config F → Repository F S → S → String ⊎ List (Policy F) → StartError ⊎ Api F S
  start_api config repository store (inl e) = inl (policies_failed e)
  start_api config repository store (inr persisted) = inr (record {
    world = record { client = new_client; store = store; shadow_spend = []; launched = [] };
    registry = start_registry config repository persisted;
  })

  -- From a configuration and a repository on.
  unfoldable pub start_server : {S : Type 0} → Config F → Repository F S → S → StartError ⊎ Api F S
  start_server config repository store =
      start_api config repository store (repository.load_policies store)

-- The server with the repository that was chosen.
pub record Running (F : Type 0) : Type 1 where
  pub backend : Backend F
  pub api : Api F (Backend.State backend)

module _ {F : Type 0} where
  abbrev running :
      (backend : Backend F) → StartError ⊎ Api F (Backend.State backend) → StartError ⊎ Running F
  running backend (inl e) = inl e
  running backend (inr api) = inr (record { backend = backend; api = api })

  abbrev with_backend : Config F → StartError ⊎ Backend F → StartError ⊎ Running F
  with_backend config (inl e) = inl e
  with_backend config (inr backend) =
      running backend (start_server config (Backend.repository backend) (Backend.state backend))

  abbrev with_config :
      (String → String)
      → (String → String ⊎ Backend F)
      → (String → OpenError ⊎ Backend F)
      → LoadError ⊎ Config F
      → StartError ⊎ Running F
  with_config env open_postgres open_directory (inl e) = inl (config_failed e)
  with_config env open_postgres open_directory (inr config) =
      with_backend config (choose_backend env open_postgres (open_directory config.data_directory))

  -- `main` up to the listener. `load_file` is `Load` of a path.
  unfoldable pub start :
      (String → String)
      → (String → LoadError ⊎ Config F)
      → (String → String ⊎ Backend F)
      → (String → OpenError ⊎ Backend F)
      → StartError ⊎ Running F
  start env load_file open_postgres open_directory =
      with_config env open_postgres open_directory (load_file (config_path env))
