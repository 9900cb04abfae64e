-- ===== src/Store/Files/Refines.antt =====
-- The file store keeps a book: the last decision and the last policy that were saved under each id,
-- and the outcomes in order.
use outcome_router.Base.{
  ℕ, String, ◌≡◌, refl, ap, ◌∙◌, Bool, true, false, Option, none, some, List, [], ◌∷◌, ◌++◌, ◌⊎◌,
  inl, inr, lookup, lookup-insert, ◌==◌, if◌then◌else◌,
}
use outcome_router.Domain.{RouteDecision, Outcome, Policy}
use outcome_router.Store.Lines.{
  WriteFault, no_fault, open_fails, write_fails, close_fails, Log, append_json_line, write_line,
}
use outcome_router.Store.Files.{
  Codecs, FileStore, Files, decision_saved, outcome_saved, policy_saved, save_decision,
  save_outcome, save_policy, get_decision, Save, of_decision, of_outcome, of_policy, run_save,
  run_saves,
}

pub record Book (F : Type 0) : Type 0 where
  pub decision_of : String → Option (RouteDecision F)
  pub outcomes : List (Outcome F)
  pub policy_of : String → Option (Policy F)

-- A save succeeds when nothing goes wrong and the record encodes.
abbrev succeeds : {V : Type 0} → WriteFault → String ⊎ V → Bool
succeeds no_fault (inr v) = true
succeeds fault line = false

abbrev replaced : {V : Type 0} → String → V → (String → Option V) → String → Option V
replaced at value entries id = if at == id then some value else entries id

module _ {F : Type 0} where
  abbrev pub read_decision : String → Option (RouteDecision F) → Option (RouteDecision F) × Bool
  read_decision tenant_id none = (none, false)
  read_decision tenant_id (some decision) = (some decision, decision.tenant_id == tenant_id)

  abbrev pub book_of : FileStore F → Book F
  book_of store = record {
    decision_of = λ id. lookup id store.decisions;
    outcomes = store.outcomes;
    policy_of = λ id. lookup id store.policies;
  }

  -- What a save does to the book.
  abbrev pub note : Codecs F → Save F → Book F → Book F
  note codecs (of_decision fault v) book =
      if succeeds fault (codecs.decision.encode v)
      then record book { decision_of = replaced v.id v book.decision_of }
      else book
  note codecs (of_outcome fault v) book =
      if succeeds fault (codecs.outcome.encode v)
      then record book { outcomes = book.outcomes ++ v ∷ [] }
      else book
  note codecs (of_policy fault v) book =
      if succeeds fault (codecs.policy.encode v)
      then record book { policy_of = replaced v.id v book.policy_of }
      else book

  abbrev pub note_all : Codecs F → List (Save F) → Book F → Book F
  note_all codecs [] book = book
  note_all codecs (save ∷ saves) book = note_all codecs saves (note codecs save book)

  write_decision :
      (fault : WriteFault) (v : RouteDecision F) (line : String ⊎ List ℕ) (s : Files F) (log : Log)
      → book_of (decision_saved v s (write_line fault line log)).1.store ≡ (
          if succeeds fault line
          then record (book_of s.store) {
            decision_of = replaced v.id v (book_of s.store).decision_of;
          }
          else book_of s.store)
  write_decision (open_fails e) v line s log = refl
  write_decision no_fault v (inl e) s log = refl
  write_decision no_fault v (inr bytes) s log = λ i. record (book_of s.store) {
    decision_of = λ id. lookup-insert v.id id v s.store.decisions i;
  }
  write_decision (write_fails n e) v (inl error) s log = refl
  write_decision (write_fails n e) v (inr bytes) s log = refl
  write_decision (close_fails e) v (inl error) s log = refl
  write_decision (close_fails e) v (inr bytes) s log = refl

  write_outcome :
      (fault : WriteFault) (v : Outcome F) (line : String ⊎ List ℕ) (s : Files F) (log : Log)
      → book_of (outcome_saved v s (write_line fault line log)).1.store ≡ (
          if succeeds fault line
          then record (book_of s.store) { outcomes = s.store.outcomes ++ v ∷ [] }
          else book_of s.store)
  write_outcome (open_fails e) v line s log = refl
  write_outcome no_fault v (inl e) s log = refl
  write_outcome no_fault v (inr bytes) s log = refl
  write_outcome (write_fails n e) v (inl error) s log = refl
  write_outcome (write_fails n e) v (inr bytes) s log = refl
  write_outcome (close_fails e) v (inl error) s log = refl
  write_outcome (close_fails e) v (inr bytes) s log = refl

  write_policy :
      (fault : WriteFault) (v : Policy F) (line : String ⊎ List ℕ) (s : Files F) (log : Log)
      → book_of (policy_saved v s (write_line fault line log)).1.store ≡ (
          if succeeds fault line
          then record (book_of s.store) { policy_of = replaced v.id v (book_of s.store).policy_of }
          else book_of s.store)
  write_policy (open_fails e) v line s log = refl
  write_policy no_fault v (inl e) s log = refl
  write_policy no_fault v (inr bytes) s log =
      λ i. record (book_of s.store) { policy_of = λ id. lookup-insert v.id id v s.store.policies i }
  write_policy (write_fails n e) v (inl error) s log = refl
  write_policy (write_fails n e) v (inr bytes) s log = refl
  write_policy (close_fails e) v (inl error) s log = refl
  write_policy (close_fails e) v (inr bytes) s log = refl

  run_save-note :
      (codecs : Codecs F) (save : Save F) (s : Files F)
      → book_of (run_save codecs save s).1.store ≡ note codecs save (book_of s.store)
  unfolding run_save save_decision save_outcome save_policy append_json_line
  run_save-note codecs (of_decision fault v) s =
      write_decision fault v (codecs.decision.encode v) s s.disk.decision_log
  run_save-note codecs (of_outcome fault v) s =
      write_outcome fault v (codecs.outcome.encode v) s s.disk.outcome_log
  run_save-note codecs (of_policy fault v) s =
      write_policy fault v (codecs.policy.encode v) s s.disk.policy_log

  run_saves-note :
      (codecs : Codecs F) (saves : List (Save F)) (s : Files F)
      → book_of (run_saves codecs saves s).store ≡ note_all codecs saves (book_of s.store)
  unfolding run_saves
  run_saves-note codecs [] s = refl
  run_saves-note codecs (save ∷ saves) s =
      run_saves-note codecs saves (run_save codecs save s).1
      ∙ ap (note_all codecs saves) (run_save-note codecs save s)

  pub get_decision-read :
      (store : FileStore F) (tenant_id id : String)
      → get_decision store tenant_id id ≡ read_decision tenant_id ((book_of store).decision_of id)
  unfolding get_decision
  get_decision-read store tenant_id id = found (lookup id store.decisions)
    where
      found :
          (entry : Option (RouteDecision F))
          → (elim entry [
            | none ↦ (none, false)
            | some decision ↦ (some decision, decision.tenant_id == tenant_id)
          ])
            ≡ read_decision tenant_id entry
      found none = refl
      found (some decision) = refl

  -- After any saves, whatever goes wrong in some, the store answers as the book does that takes over
  -- the record of each save without a fault whose record encodes, and of no other: a decision is the
  -- last one of its id, with `true` exactly for its own tenant, the outcomes stand in their order,
  -- and a policy is the last one of its id.
  pub run_saves-Book :
      (codecs : Codecs F) (saves : List (Save F)) (s : Files F) (tenant_id id : String)
      → let book = note_all codecs saves (book_of s.store) in
        let store = (run_saves codecs saves s).store in
        (get_decision store tenant_id id ≡ read_decision tenant_id (book.decision_of id))
        × (store.outcomes ≡ book.outcomes)
        × (lookup id store.policies ≡ book.policy_of id)
  run_saves-Book codecs saves s tenant_id id =
      let same = run_saves-note codecs saves s in
      (
        get_decision-read (run_saves codecs saves s).store tenant_id id
            ∙ ap (λ book. read_decision tenant_id (Book.decision_of book id)) same,
        ap (λ book. Book.outcomes book) same,
        ap (λ book. Book.policy_of book id) same,
      )
