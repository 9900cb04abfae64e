-- ===== src/Store/Files/Recovery.antt =====
-- A store that is opened again has what the one before had in memory.
use mathlib.Core.Sum.{inr-injective, inl-ne-inr}
use outcome_router.Base.{
  ℕ, String, ◌≡◌, refl, ap, false, Option, none, some, List, [], ◌∷◌, Map, ◌⊎◌, inl, inr, All,
  get_or, ◌==◌, Bool-cases,
}
use outcome_router.Domain.{RouteDecision, Outcome, Policy}
use outcome_router.Store.Lines.{
  WriteFault, no_fault, open_fails, write_fails, close_fails, Log, append_json_line, write_line,
  read_log, LoadError, load_json_lines,
}
use outcome_router.Store.Lines.Replay.{EndsLine, IsLine, load_json_lines-append}
use outcome_router.Store.Files.{
  Codec, Codecs, FileStore, Files, read_disk, consume, put_decision, put_outcome, put_policy_entry,
  opened, decision_saved, outcome_saved, policy_saved, with_directory, Reads, open_files,
  new_file_store, save_decision, save_outcome, save_policy, Save, of_decision, of_outcome,
  of_policy, run_save, run_saves,
}

-- A fault that writes nothing.
abbrev pub IsClean : WriteFault → Type 0
IsClean no_fault = Unit
IsClean (open_fails e) = Unit
IsClean (write_fails n e) = ⊥
IsClean (close_fails e) = ⊥

-- If the record encodes, it does so in one line that the scanner hands on, and that decodes as it.
abbrev pub IsRecoverable : {V : Type 0} → Codec V → V → Type 0
IsRecoverable codec v =
    (bytes : List ℕ) → codec.encode v ≡ inr bytes → IsLine bytes × (codec.decode bytes ≡ inr v)

abbrev pub IsSafe : {F : Type 0} → Codecs F → Save F → Type 0
IsSafe codecs (of_decision fault v) = IsClean fault × IsRecoverable codecs.decision v
IsSafe codecs (of_outcome fault v) = IsClean fault × IsRecoverable codecs.outcome v
IsSafe codecs (of_policy fault v) = IsClean fault × IsRecoverable codecs.policy v

module _ {V S : Type 0} (codec : Codec V) (add : V → S → S) (init : S) where
  -- The log is whole and loads as the state.
  abbrev IsLoaded : Log → S → Type 0
  IsLoaded log s =
      EndsLine (get_or log []) × (load_json_lines (consume codec add) (read_log log) init ≡ inr s)

  -- The state behind a save that returned this error.
  abbrev after_save : V → S → Option String → S
  after_save v s none = add v s
  after_save v s (some e) = s

  touched : (log : Log) (s : S) → IsLoaded log s → IsLoaded (some (get_or log [])) s
  unfolding load_json_lines outcome_router.Store.Lines.scan
  touched none s (whole, loaded) = (whole, loaded)
  touched (some bytes) s (whole, loaded) = (whole, loaded)

  write_line-IsLoaded :
      (fault : WriteFault) (v : V) (line : String ⊎ List ℕ) (log : Log) (s : S)
      → IsClean fault
      → codec.encode v ≡ line
      → IsRecoverable codec v
      → IsLoaded log s
      → IsLoaded (write_line fault line log).1 (after_save v s (write_line fault line log).0)
  write_line-IsLoaded (open_fails e) v line log s clean encoded back loaded = loaded
  write_line-IsLoaded no_fault v (inl e) log s clean encoded back loaded = touched log s loaded
  write_line-IsLoaded no_fault v (inr bytes) log s clean encoded back (whole, loaded) =
      let (line, decoded) = back bytes encoded in
      load_json_lines-append (consume codec add) log bytes init s (add v s) whole line loaded
        (rw decoded refl)
  write_line-IsLoaded (write_fails n e) v line log s clean encoded back loaded = absurd clean
  write_line-IsLoaded (close_fails e) v line log s clean encoded back loaded = absurd clean

module _ {F : Type 0} (codecs : Codecs F) where
  abbrev AreLoaded : String → Files F → Type 0
  AreLoaded directory s =
      IsLoaded codecs.decision put_decision [] s.disk.decision_log s.store.decisions
      × IsLoaded codecs.outcome put_outcome [] s.disk.outcome_log s.store.outcomes
      × IsLoaded codecs.policy put_policy_entry [] s.disk.policy_log s.store.policies
      × (s.store.directory ≡ directory)

  decision_saved-AreLoaded :
      (dir : String) (v : RouteDecision F) (s : Files F) (r : Option String × Log)
      → AreLoaded dir s
      → IsLoaded codecs.decision put_decision [] r.1
          (after_save codecs.decision put_decision [] v s.store.decisions r.0)
      → AreLoaded dir (decision_saved v s r).1
  decision_saved-AreLoaded dir v s (some failure, log) (ds, os, ps, e) h = (h, os, ps, e)
  decision_saved-AreLoaded dir v s (none, log) (ds, os, ps, e) h = (h, os, ps, e)

  outcome_saved-AreLoaded :
      (dir : String) (v : Outcome F) (s : Files F) (r : Option String × Log)
      → AreLoaded dir s
      → IsLoaded codecs.outcome put_outcome [] r.1
          (after_save codecs.outcome put_outcome [] v s.store.outcomes r.0)
      → AreLoaded dir (outcome_saved v s r).1
  outcome_saved-AreLoaded dir v s (some failure, log) (ds, os, ps, e) h = (ds, h, ps, e)
  outcome_saved-AreLoaded dir v s (none, log) (ds, os, ps, e) h = (ds, h, ps, e)

  policy_saved-AreLoaded :
      (dir : String) (v : Policy F) (s : Files F) (r : Option String × Log)
      → AreLoaded dir s
      → IsLoaded codecs.policy put_policy_entry [] r.1
          (after_save codecs.policy put_policy_entry [] v s.store.policies r.0)
      → AreLoaded dir (policy_saved v s r).1
  policy_saved-AreLoaded dir v s (some failure, log) (ds, os, ps, e) h = (ds, os, h, e)
  policy_saved-AreLoaded dir v s (none, log) (ds, os, ps, e) h = (ds, os, h, e)

  run_save-AreLoaded :
      (dir : String) (save : Save F) (s : Files F)
      → IsSafe codecs save
      → AreLoaded dir s
      → AreLoaded dir (run_save codecs save s).1
  unfolding run_save save_decision save_outcome save_policy append_json_line
  run_save-AreLoaded dir (of_decision fault v) s (clean, back) all =
      decision_saved-AreLoaded dir v s _ all (
        write_line-IsLoaded codecs.decision put_decision [] fault v (codecs.decision.encode v)
          s.disk.decision_log s.store.decisions clean refl back all.0)
  run_save-AreLoaded dir (of_outcome fault v) s (clean, back) all =
      outcome_saved-AreLoaded dir v s _ all (
        write_line-IsLoaded codecs.outcome put_outcome [] fault v (codecs.outcome.encode v)
          s.disk.outcome_log s.store.outcomes clean refl back all.1)
  run_save-AreLoaded dir (of_policy fault v) s (clean, back) all =
      policy_saved-AreLoaded dir v s _ all (
        write_line-IsLoaded codecs.policy put_policy_entry [] fault v (codecs.policy.encode v)
          s.disk.policy_log s.store.policies clean refl back all.2)

  run_saves-AreLoaded :
      (dir : String) (saves : List (Save F)) (s : Files F)
      → All (IsSafe codecs) saves
      → AreLoaded dir s
      → AreLoaded dir (run_saves codecs saves s)
  unfolding run_saves
  run_saves-AreLoaded dir [] s safe all = all
  run_saves-AreLoaded dir (save ∷ saves) s (safe, rest) all =
      run_saves-AreLoaded dir saves (run_save codecs save s).1 rest
        (run_save-AreLoaded dir save s safe all)

  -- The logs are empty or end with a newline, and opening the directory gives what is in memory.
  abbrev pub IsRestartable : Files F → Type 0
  IsRestartable s =
      EndsLine (get_or s.disk.decision_log [])
      × EndsLine (get_or s.disk.outcome_log [])
      × EndsLine (get_or s.disk.policy_log [])
      × (new_file_store codecs s.store.directory none (read_disk s.disk) ≡ inr s.store)

  pub opened-parts :
      (directory : String) (ds : LoadError ⊎ Map (RouteDecision F))
      (os : LoadError ⊎ List (Outcome F)) (ps : LoadError ⊎ Map (Policy F)) (store : FileStore F)
      → opened directory ds os ps ≡ inr store
      → (ds ≡ inr store.decisions) × (os ≡ inr store.outcomes) × (ps ≡ inr store.policies)
  opened-parts directory (inl e) os ps store h = cc
  opened-parts directory (inr ds) (inl e) ps store h = cc
  opened-parts directory (inr ds) (inr os) (inl e) store h = cc
  opened-parts directory (inr ds) (inr os) (inr ps) store h =
      let e = inr-injective _ _ h in
      (
        ap (λ t. inr (FileStore.decisions t)) e,
        ap (λ t. inr (FileStore.outcomes t)) e,
        ap (λ t. inr (FileStore.policies t)) e,
      )

  -- A store that opens has a directory, and its files load.
  pub new_file_store-inr :
      (directory : String) (made : Option String) (reads : Reads) (store : FileStore F)
      → new_file_store codecs directory made reads ≡ inr store
      → ((directory == "") ≡ false) × (open_files codecs directory reads ≡ inr store)
  unfolding new_file_store
  new_file_store-inr directory made reads store h = elim (Bool-cases (directory == "")) [
    | inl e ↦ absurd (inl-ne-inr (rw (e) at h))
    | inr e ↦ (e, made_or_not made (rw (e) at h))
  ]
    where
      made_or_not :
          (made : Option String)
          → with_directory codecs directory reads made ≡ inr store
          → open_files codecs directory reads ≡ inr store
      made_or_not none h = h
      made_or_not (some e) h = absurd (inl-ne-inr h)

  restarts :
      (directory : String) (s : Files F)
      → (directory == "") ≡ false
      → AreLoaded directory s
      → IsRestartable s
  unfolding new_file_store
  restarts directory s full ((wd, ld), (wo, lo), (wp, lp), e) =
      (wd, wo, wp, rw (e, full, ld, lo, lp) refl)

  -- What the store had in memory after any saves, failed ones and ones of every kind among them, a
  -- new store of the directory has, where each record that encodes is one line that decodes as the
  -- record, and no write stops within a line or fails behind it.
  pub restart_lem :
      (saves : List (Save F)) (s : Files F)
      → All (IsSafe codecs) saves
      → IsRestartable s
      → IsRestartable (run_saves codecs saves s)
  restart_lem saves s safe (wd, wo, wp, reopened) =
      let (full, loads) =
        new_file_store-inr s.store.directory none (read_disk s.disk) s.store reopened in
      let (ld, lo, lp) = opened-parts s.store.directory _ _ _ s.store loads in
      restarts s.store.directory (run_saves codecs saves s) full
        (run_saves-AreLoaded s.store.directory saves s safe ((wd, ld), (wo, lo), (wp, lp), refl))
