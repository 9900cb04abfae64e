-- ===== src/Lib.antt =====
-- Outcome Router: the Go service that decides which language model answers a request, calls it, and
-- keeps an audit trail.
--
-- A request comes in at internal/api/server.go, is authenticated against internal/config, parsed by
-- internal/routing/request.go, and routed by the engine (internal/routing/engine.go) under a policy of
-- the registry (internal/routing/registry.go). The decision is saved, the models to try are called one
-- after the other through internal/provider/client.go, whose circuit breaker the engine also asks, and
-- the decision is saved again with what happened. Shadow requests go out in the background within a
-- daily budget, and outcomes are recorded for decisions.
--
-- Files and code:
--   Base: shared types, tests, lists, texts, maps (association lists, at most one entry for a key) and
--   Go's `int` with its 64-bit wrap-around.
--   Double: float64 as an interface of operations. Double/Laws and Double/Monotone have the laws
--   that theorems take as hypotheses, and Double/Fixed is a fixed-point instance that meets them and runs the code.
--   Domain: internal/domain/types.go. Catalog, Policies, Requests, Decisions and Outcomes hold the
--   structs, one record each, under the field names of the Go struct; Validate is `Policy.Validate`.
--   Config: internal/config/config.go. Access authenticates, Validate is `Config.Validate`, Load is
--   `Load` from the decoded file on.
--   Routing: internal/routing. Hash is `hashPercent` over FNV-1a; Feasible is `infeasibleReason` and
--   its helpers; Predict is `predict`, `workflowScore`, `estimateCost`; Select is the candidates'
--   filter, the comparator, `sort.Slice` and the choice; Route is `Route`, in the pieces that its early
--   returns mark off; Registry is registry.go; Parse is `ParseRequest`, Body is `BodyForModel`.
--   Provider: internal/provider/client.go. Provider is the circuit breaker, Provider/Calls is `Do`
--   with its errors, Failing several calls after each other.
--   Server: internal/api/server.go. Attempts is the loop over the models, Shadows the shadow requests
--   and their budget, Settle the record and the answer at the end of `chatCompletions`, Chat is
--   `chatCompletions` from the policy on, Handle from the HTTP request to the policy, and the outcomes;
--   Reads has the handlers that read and `putPolicy`, Params the number of days and the error texts; Mux
--   is the table of `Handler`, Api the whole server as a step on its state, and Events runs requests and
--   background tasks in any order. Outside has the repository (the interface of
--   internal/store/store.go) and the answers.
--   Store: internal/store. Lines are the bytes of a log and what the scanner makes of them, Files is
--   `FileStore` with its three logs, FileRepository that store as the repository of the server;
--   Tally is the loop of `summarize` over the decisions and Summary the rest of it with `wilson`;
--   Postgres is internal/store/postgres.go over a database that is a parameter.
--   Startup: cmd/router/main.go from the environment to the server that is ready.
--   Examples: runs on the inputs of internal/routing/engine_test.go and others.
--
-- What a call takes from its surroundings is an argument: the clock, the ids of `newID`, the order in
-- which Go visits a map, Unicode's case folding, encoding/json, the environment, the state of a store
-- and its errors, the network at each call. `route` returns `none` where Go would panic. Every loop is a
-- recursion on the list that it visits, so no fuel is needed. A method that holds its mutex to the end
-- is one step; a call of a provider asks the breaker first and records the answer later. The questions
-- of one call of `Route` to the breaker are asked at the time at which it starts, with no other request
-- between them; what they change of the breaker stands in the server's state.
--
-- `sort.Slice` is the insertion sort that Go runs on at most 12 entries.
--
-- A save of the file store has what goes wrong at its write as an argument: the file does not open, a
-- part of the line is written, or the file does not close. Reading allows every content of the logs.
-- The server relies on a repository by the laws of `IsStore`, which the file store meets.
--
-- Not modelled: the mock provider (cmd/mock-provider), a demonstration server with canned answers; the
-- listener, signals and logging of cmd/router; the set-up of the connection pool of pgx; what net/http
-- adds to answers; the fused multiply-add that Go may use for `x*y + z` on some machines; the dashboard
-- and the Python package.
pub mod Base
pub mod Double
pub mod Domain
pub mod Config
pub mod Routing
pub mod Provider
pub mod Store
pub mod Server
pub mod Startup
pub mod Examples
