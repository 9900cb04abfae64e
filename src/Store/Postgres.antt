-- ===== src/Store/Postgres.antt =====
-- internal/store/postgres.go: the same repository over a PostgreSQL database.
pub mod Agrees
use outcome_router.Base.{
  ℕ, String, Bool, true, false, Option, none, some, List, [], ◌∷◌, ◌++◌, if◌then◌else◌, ◌==◌, ◌<>◌,
  ◌⊎◌, inl, inr,
}
use outcome_router.Double.{Double, zero_float}
use outcome_router.Domain.{Time, Policy, RouteDecision, Outcome, Interval, AuditSummary}
use outcome_router.Server.Outside.{Repository}
use outcome_router.Store.Files.{Codec, Codecs}
use outcome_router.Store.Summary.{summarize}
use outcome_router.Store.Tally.{Query}

-- An argument of a statement.
pub data SqlValue (F : Type 0) : Type 0 where
  text : String → SqlValue F
  double : F → SqlValue F
  time : Time → SqlValue F
  json : List ℕ → SqlValue F

-- What a query gives: for each row the bytes of its first column or the error of its scan, and the
-- error that ends the rows.
pub record Rows : Type 0 where
  pub rows : List (String ⊎ List ℕ)
  pub error : Option String

-- `sql.DB`: a statement that changes the database, and one that reads it.
pub record Database (F S : Type 0) : Type 0 where
  pub exec : String → List (SqlValue F) → S → Option String × S
  pub query : String → List (SqlValue F) → S → String ⊎ Rows
  pub query_row : String → List (SqlValue F) → S → String ⊎ List ℕ

abbrev pub upsert_decision : String
upsert_decision =
    "\n\t\tINSERT INTO routing_decisions (\n\t\t\tid, tenant_id, trace_id, policy_id, policy_version, selected_model,\n\t\t\tfinal_model, bucket, estimated_cost_usd, actual_cost_usd, created_at, data\n\t\t) VALUES ($1,$2,$3,$4,$5,$6,$7,$8,$9,$10,$11,$12)\n\t\tON CONFLICT (id) DO UPDATE SET\n\t\t\tfinal_model = EXCLUDED.final_model,\n\t\t\tbucket = EXCLUDED.bucket,\n\t\t\testimated_cost_usd = EXCLUDED.estimated_cost_usd,\n\t\t\tactual_cost_usd = EXCLUDED.actual_cost_usd,\n\t\t\tdata = EXCLUDED.data"

abbrev pub insert_outcome : String
insert_outcome =
    "\n\t\tINSERT INTO routing_outcomes (\n\t\t\tid, tenant_id, decision_id, trace_id, outcome_type, occurred_at, created_at, data\n\t\t) VALUES ($1,$2,NULLIF($3,''),NULLIF($4,''),$5,$6,$7,$8)\n\t\tON CONFLICT (id) DO NOTHING"

abbrev pub upsert_policy : String
upsert_policy =
    "\n\t\tINSERT INTO routing_policies (id, tenant_id, version, created_at, data)\n\t\tVALUES ($1,$2,$3,$4,$5)\n\t\tON CONFLICT (id) DO UPDATE SET\n\t\t\tversion=EXCLUDED.version, created_at=EXCLUDED.created_at, data=EXCLUDED.data"

abbrev pub select_decision : String
select_decision = "SELECT data FROM routing_decisions WHERE tenant_id=$1 AND id=$2"

abbrev pub select_decisions : String → String
select_decisions policy_filter =
    "SELECT data FROM routing_decisions WHERE tenant_id=$1 AND created_at >= $2" <> policy_filter

abbrev pub select_outcomes : String
select_outcomes =
    "SELECT data FROM routing_outcomes WHERE tenant_id=$1 AND created_at >= $2 AND outcome_type=$3"

abbrev pub select_policies : String
select_policies = "SELECT data FROM routing_policies ORDER BY id"

-- The rows that scan and decode; the others are left out.
abbrev add_row : {V : Type 0} → String ⊎ V → List V → List V
add_row (inl e) vs = vs
add_row (inr v) vs = v ∷ vs

abbrev decoded_row : {V : Type 0} → Codec V → String ⊎ List ℕ → String ⊎ V
decoded_row codec (inl e) = inl e
decoded_row codec (inr bytes) = codec.decode bytes

unfoldable pub read_rows : {V : Type 0} → Codec V → List (String ⊎ List ℕ) → List V
read_rows codec [] = []
read_rows codec (row ∷ rows) =
    let rest = read_rows codec rows in add_row (decoded_row codec row) rest

-- The rows of `LoadPolicies`, where each error ends the reading.
abbrev all_read : {V : Type 0} → String ⊎ V → String ⊎ List V → String ⊎ List V
all_read (inl e) rest = inl e
all_read (inr v) (inl e) = inl e
all_read (inr v) (inr vs) = inr (v ∷ vs)

unfoldable pub read_all :
    {V : Type 0} → Codec V → List (String ⊎ List ℕ) → Option String → String ⊎ List V
read_all codec [] none = inr []
read_all codec [] (some e) = inl e
read_all codec (row ∷ rows) error =
    let rest = read_all codec rows error in all_read (decoded_row codec row) rest

module _ {F S : Type 0} (db : Database F S) (codecs : Codecs F) where
  abbrev exec_encoded :
      String → (List ℕ → List (SqlValue F)) → String ⊎ List ℕ → S → Option String × S
  exec_encoded statement arguments (inl e) s = (some e, s)
  exec_encoded statement arguments (inr data_bytes) s = db.exec statement (arguments data_bytes) s

  -- `SaveDecision`.
  unfoldable pub save_decision : RouteDecision F → S → Option String × S
  save_decision decision s =
      exec_encoded upsert_decision
        (λ data_bytes.
          text decision.id
          ∷ text decision.tenant_id
          ∷ text decision.trace_id
          ∷ text decision.policy_id
          ∷ text decision.policy_version
          ∷ text decision.selected_model
          ∷ text decision.final_model
          ∷ text decision.bucket
          ∷ double decision.estimated_cost_usd
          ∷ double decision.actual_cost_usd
          ∷ time decision.created_at
          ∷ json data_bytes
          ∷ [])
        (codecs.decision.encode decision) s

  -- `SaveOutcome`.
  unfoldable pub save_outcome : Outcome F → S → Option String × S
  save_outcome outcome s =
      exec_encoded insert_outcome
        (λ data_bytes.
          text outcome.id
          ∷ text outcome.tenant_id
          ∷ text outcome.decision_id
          ∷ text outcome.trace_id
          ∷ text outcome.type
          ∷ time outcome.occurred_at
          ∷ time outcome.created_at
          ∷ json data_bytes
          ∷ [])
        (codecs.outcome.encode outcome) s

  -- `SavePolicy`.
  unfoldable pub save_policy : Policy F → S → Option String × S
  save_policy policy s =
      exec_encoded upsert_policy
        (λ data_bytes.
          text policy.id
          ∷ text policy.tenant_id
          ∷ text policy.version
          ∷ time policy.created_at
          ∷ json data_bytes
          ∷ [])
        (codecs.policy.encode policy) s

  abbrev some_decoded : String ⊎ RouteDecision F → Option (RouteDecision F)
  some_decoded (inl e) = none
  some_decoded (inr decision) = some decision

  -- `GetDecision`.
  unfoldable pub get_decision : S → String → String → Option (RouteDecision F)
  get_decision s tenant_id id =
      some_decoded (
        decoded_row codecs.decision
          (db.query_row select_decision (text tenant_id ∷ text id ∷ []) s))

  abbrev policies_of : String ⊎ Rows → String ⊎ List (Policy F)
  policies_of (inl e) = inl e
  policies_of (inr found) = read_all codecs.policy found.rows found.error

  -- `LoadPolicies`.
  unfoldable pub load_policies : S → String ⊎ List (Policy F)
  load_policies s = policies_of (db.query select_policies [] s)

abbrev policy_filter : Query → String
policy_filter q = if q.policy_id == "" then "" else " AND policy_id=$3"

abbrev policy_arguments : {F : Type 0} → Query → List (SqlValue F)
policy_arguments q = if q.policy_id == "" then [] else text q.policy_id ∷ []

module _ {F S : Type 0} (db : Database F S) where
  abbrev pub query_decisions : S → Query → String ⊎ Rows
  query_decisions s q =
      db.query (select_decisions (policy_filter q))
        ((text q.tenant_id ∷ time q.since ∷ []) ++ policy_arguments q) s

  abbrev pub query_outcomes : S → Query → String → String ⊎ Rows
  query_outcomes s q primary =
      db.query select_outcomes (text q.tenant_id ∷ time q.since ∷ text primary ∷ []) s

module _ {F : Type 0} ⦃d : Double F⦄ where
  abbrev no_interval : Interval F
  no_interval = record { estimate = zero_float; lower = zero_float; upper = zero_float; n = 0 }

  -- What is answered when the decisions cannot be read.
  abbrev pub empty_summary : Query → Time → AuditSummary F
  empty_summary q now = record {
    tenant_id = q.tenant_id;
    policy_id = q.policy_id;
    since = q.since;
    requests = 0;
    routed_requests = 0;
    control_requests = 0;
    shadow_requests = 0;
    actual_cost_usd = zero_float;
    estimated_cost_usd = zero_float;
    incumbent_cost_usd = zero_float;
    verified_gross_savings_usd = zero_float;
    savings_percent = zero_float;
    primary_outcome = "";
    treatment_outcome = no_interval;
    control_outcome = no_interval;
    non_inferiority_delta = zero_float;
    by_model = [];
    by_bucket = [];
    generated_at = now;
  }

module _ {F S : Type 0} ⦃d : Double F⦄ (db : Database F S) (codecs : Codecs F) where
  -- The outcomes are none where they cannot be read. The errors that end the rows are not looked at.
  abbrev with_outcomes :
      Query → String → Time → List (RouteDecision F) → String ⊎ Rows → AuditSummary F
  with_outcomes q primary now decisions (inl e) = summarize q primary now decisions []
  with_outcomes q primary now decisions (inr found) =
      summarize q primary now decisions (read_rows codecs.outcome found.rows)

  abbrev with_decisions : S → Query → String → Time → String ⊎ Rows → AuditSummary F
  with_decisions s q primary now (inl e) = empty_summary q now
  with_decisions s q primary now (inr found) =
      with_outcomes q primary now (read_rows codecs.decision found.rows)
        (query_outcomes db s q primary)

  -- `Summary`.
  unfoldable pub summary : S → Query → String → Time → AuditSummary F
  summary s q primary now = with_decisions s q primary now (query_decisions db s q)

  abbrev pub postgres_repository : Repository F S
  postgres_repository = record {
    save_decision = save_decision db codecs;
    save_outcome = save_outcome db codecs;
    get_decision = get_decision db codecs;
    summary = summary;
    save_policy = save_policy db codecs;
    load_policies = load_policies db codecs;
  }
