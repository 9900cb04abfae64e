-- ===== src/Store/Files.antt =====
-- internal/store/store.go: `FileStore`, the records in memory with a log file for each kind. The
-- mutex makes each method one step.
pub mod Recovery
pub mod Refines
pub mod Policies
pub mod Torn
use outcome_router.Base.{
  ℕ, String, Bool, Option, none, some, List, [], ◌∷◌, ◌++◌, Map, values, lookup, insert,
  if◌then◌else◌, ◌⊎◌, inl, inr, ◌==◌, ◌&&◌, false,
}
use outcome_router.Domain.{RouteDecision, Outcome, Policy}
use outcome_router.Routing.Registry.{text_lt}
use outcome_router.Routing.Select.{sort_slice}
use outcome_router.Store.Lines.{
  WriteFault, Log, append_json_line, FileRead, read_log, LoadError, load_json_lines,
}

-- What encoding/json does with one kind of record: its bytes or the error, and back.
pub record Codec (V : Type 0) : Type 0 where
  pub encode : V → String ⊎ List ℕ
  pub decode : List ℕ → String ⊎ V

pub record Codecs (F : Type 0) : Type 0 where
  pub decision : Codec (RouteDecision F)
  pub outcome : Codec (Outcome F)
  pub policy : Codec (Policy F)

pub record FileStore (F : Type 0) : Type 0 where
  pub directory : String
  pub decisions : Map (RouteDecision F)
  pub outcomes : List (Outcome F)
  pub policies : Map (Policy F)

-- The files decisions.jsonl, outcomes.jsonl and policies.jsonl of the directory.
pub record Disk : Type 0 where
  pub decision_log : Log
  pub outcome_log : Log
  pub policy_log : Log

-- The store with the files that it writes.
pub record Files (F : Type 0) : Type 0 where
  pub store : FileStore F
  pub disk : Disk

pub data OpenError : Type 0 where
  no_directory : OpenError
  directory_error : String → OpenError
  decisions_error : LoadError → OpenError
  outcomes_error : LoadError → OpenError
  policies_error : LoadError → OpenError

-- How the three files are read.
pub record Reads : Type 0 where
  pub decision_read : FileRead
  pub outcome_read : FileRead
  pub policy_read : FileRead

abbrev pub read_disk : Disk → Reads
read_disk disk = record {
  decision_read = read_log disk.decision_log;
  outcome_read = read_log disk.outcome_log;
  policy_read = read_log disk.policy_log;
}

-- A record that is decoded is added, else the error goes on.
abbrev pub add_decoded : {V S : Type 0} → (V → S → S) → S → String ⊎ V → String ⊎ S
add_decoded add s (inl e) = inl e
add_decoded add s (inr v) = inr (add v s)

abbrev pub consume : {V S : Type 0} → Codec V → (V → S → S) → List ℕ → S → String ⊎ S
consume codec add line s = add_decoded add s (codec.decode line)

-- One call of a save, with what goes wrong as its line is written.
pub data Save (F : Type 0) : Type 0 where
  of_decision : WriteFault → RouteDecision F → Save F
  of_outcome : WriteFault → Outcome F → Save F
  of_policy : WriteFault → Policy F → Save F

module _ {F : Type 0} where
  abbrev pub put_decision : RouteDecision F → Map (RouteDecision F) → Map (RouteDecision F)
  put_decision decision decisions = insert decision.id decision decisions

  abbrev pub put_outcome : Outcome F → List (Outcome F) → List (Outcome F)
  put_outcome outcome outcomes = outcomes ++ outcome ∷ []

  abbrev pub put_policy_entry : Policy F → Map (Policy F) → Map (Policy F)
  put_policy_entry policy policies = insert policy.id policy policies

  abbrev pub opened :
      String
      → LoadError ⊎ Map (RouteDecision F)
      → LoadError ⊎ List (Outcome F)
      → LoadError ⊎ Map (Policy F)
      → OpenError ⊎ FileStore F
  opened directory (inl e) outcomes policies = inl (decisions_error e)
  opened directory (inr decisions) (inl e) policies = inl (outcomes_error e)
  opened directory (inr decisions) (inr outcomes) (inl e) = inl (policies_error e)
  opened directory (inr decisions) (inr outcomes) (inr policies) = inr (record {
    directory = directory;
    decisions = decisions;
    outcomes = outcomes;
    policies = policies;
  })

  abbrev pub open_files : Codecs F → String → Reads → OpenError ⊎ FileStore F
  open_files codecs directory reads =
      opened directory
        (load_json_lines (consume codecs.decision put_decision) reads.decision_read [])
        (load_json_lines (consume codecs.outcome put_outcome) reads.outcome_read [])
        (load_json_lines (consume codecs.policy put_policy_entry) reads.policy_read [])

  abbrev with_directory : Codecs F → String → Reads → Option String → OpenError ⊎ FileStore F
  with_directory codecs directory reads (some e) = inl (directory_error e)
  with_directory codecs directory reads none = open_files codecs directory reads

  -- `NewFileStore`, with the error of `os.MkdirAll`.
  unfoldable pub new_file_store :
      Codecs F → String → Option String → Reads → OpenError ⊎ FileStore F
  new_file_store codecs directory made reads =
      if directory == "" then inl no_directory else with_directory codecs directory reads made

  abbrev pub decision_saved :
      RouteDecision F → Files F → Option String × Log → Option String × Files F
  decision_saved decision s (some e, log) =
      (some e, record s { disk = record s.disk { decision_log = log } })
  decision_saved decision s (none, log) = (
    none,
    record {
      store = record s.store { decisions = put_decision decision s.store.decisions };
      disk = record s.disk { decision_log = log };
    },
  )

  -- `SaveDecision`.
  unfoldable pub save_decision :
      Codecs F → WriteFault → RouteDecision F → Files F → Option String × Files F
  save_decision codecs fault decision s =
      decision_saved decision s
        (append_json_line codecs.decision.encode fault decision s.disk.decision_log)

  abbrev outcome_saved : Outcome F → Files F → Option String × Log → Option String × Files F
  outcome_saved outcome s (some e, log) =
      (some e, record s { disk = record s.disk { outcome_log = log } })
  outcome_saved outcome s (none, log) = (
    none,
    record {
      store = record s.store { outcomes = put_outcome outcome s.store.outcomes };
      disk = record s.disk { outcome_log = log };
    },
  )

  -- `SaveOutcome`.
  unfoldable pub save_outcome :
      Codecs F → WriteFault → Outcome F → Files F → Option String × Files F
  save_outcome codecs fault outcome s =
      outcome_saved outcome s
        (append_json_line codecs.outcome.encode fault outcome s.disk.outcome_log)

  abbrev pub policy_saved : Policy F → Files F → Option String × Log → Option String × Files F
  policy_saved policy s (some e, log) =
      (some e, record s { disk = record s.disk { policy_log = log } })
  policy_saved policy s (none, log) = (
    none,
    record {
      store = record s.store { policies = put_policy_entry policy s.store.policies };
      disk = record s.disk { policy_log = log };
    },
  )

  -- `SavePolicy`.
  unfoldable pub save_policy : Codecs F → WriteFault → Policy F → Files F → Option String × Files F
  save_policy codecs fault policy s =
      policy_saved policy s (append_json_line codecs.policy.encode fault policy s.disk.policy_log)

  unfoldable pub run_save : Codecs F → Save F → Files F → Option String × Files F
  run_save codecs (of_decision fault decision) s = save_decision codecs fault decision s
  run_save codecs (of_outcome fault outcome) s = save_outcome codecs fault outcome s
  run_save codecs (of_policy fault policy) s = save_policy codecs fault policy s

  -- Calls one after the other, whatever each returns.
  unfoldable pub run_saves : Codecs F → List (Save F) → Files F → Files F
  unfolding run_save
  run_saves codecs [] s = s
  run_saves codecs (save ∷ saves) s = run_saves codecs saves (run_save codecs save s).1

  -- `GetDecision`. Go returns the decision of another tenant too, with `false`.
  unfoldable pub get_decision : FileStore F → String → String → Option (RouteDecision F) × Bool
  get_decision s tenant_id id = elim (lookup id s.decisions) [
    | none ↦ (none, false)
    | some decision ↦ (some decision, decision.tenant_id == tenant_id)
  ]

  abbrev before : Policy F → Policy F → Bool
  before p q = text_lt p.id q.id

  -- `LoadPolicies`, which has no error.
  unfoldable pub load_policies : FileStore F → List (Policy F)
  unfolding values
  load_policies s = sort_slice before (values s.policies)
