-- ===== src/Store/Files/Policies.antt =====
-- `LoadPolicies` lists the last version of every policy.
use outcome_router.Base.{
  ℕ, ◌+◌, String, ◌≡◌, refl, sym, ◌↔◌, Option, none, some, List, [], ◌∷◌, ◌⊎◌, inl, inr, Map, subst,
  values, lookup, insert, lookup-insert, ◌==◌, eq_iff, eq_refl, arith, In, Bool-cases, leb, length,
  is_empty,
}
use outcome_router.Domain.{Policy, RouteDecision, Outcome}
use outcome_router.Routing.Select.Members.{In-sort_slice}
use outcome_router.Routing.Select.Sort.{sort_slice-In}
use outcome_router.Store.Lines.{
  FileRead, missing, unreadable, contents, LoadError, max_line_bytes, raw_lines, drop_return,
  at_line, scan_line, scan, scan_end, load_json_lines, Log,
}
use outcome_router.Store.Files.{
  Codec, Codecs, FileStore, Files, Reads, add_decoded, consume, decision_saved, outcome_saved,
  policy_saved, Disk, run_save, save_decision, save_outcome, save_policy, of_decision, of_outcome,
  of_policy, put_policy_entry, before, load_policies, new_file_store, Save, run_saves,
}
use outcome_router.Store.Files.Recovery.{new_file_store-inr, opened-parts}
use outcome_router.Store.Files.Refines.{book_of, note_all, run_saves-Book}

module _ {F : Type 0} where
  -- Every policy stands under its own id, and no id stands twice.
  abbrev pub IsKeyed : Map (Policy F) → Type 0
  IsKeyed [] = Unit
  IsKeyed ((key, p) ∷ rest) = (p.id ≡ key) × (lookup key rest ≡ none) × IsKeyed rest

  insert-IsKeyed :
      (p : Policy F) (entries : Map (Policy F)) → IsKeyed entries → IsKeyed (insert p.id p entries)
  unfolding insert lookup
  insert-IsKeyed p [] keyed = (refl, refl, tt)
  insert-IsKeyed p ((key, q) ∷ rest) (same, fresh, keyed) = elim (Bool-cases (key == p.id)) [
    | inl here ↦ rw here (refl, (let e = (eq_iff key p.id).0 here in rw (← e) fresh), keyed)
    | inr later ↦ rw later (
      same,
      (rw (lookup-insert p.id key p rest) (ground (arith, eq_iff p.id key, eq_iff key p.id))),
      insert-IsKeyed p rest keyed,
    )
  ]

  In-values :
      (entries : Map (Policy F)) (p : Policy F)
      → IsKeyed entries
      → In p (values entries) ↔ (lookup p.id entries ≡ some p)
  unfolding values lookup
  In-values [] p keyed = ground arith
  In-values ((key, q) ∷ rest) p (same, fresh, keyed) = elim (Bool-cases (key == p.id)) [
    | inl here ↦ rw here (
        let e : key ≡ p.id = (eq_iff key p.id).0 here in
        let gone : lookup p.id rest ≡ none = rw (← e) fresh in
        let inside = In-values rest p keyed in ground (arith, inside))
    | inr later ↦ rw later (let inside = In-values rest p keyed in ground (arith, eq_refl p.id))
  ]

module _ {V S : Type 0} (codec : Codec V) (add : V → S → S) (Ok : S → Type 0)
    (keeps : (v : V) (s : S) → Ok s → Ok (add v s)) where
  abbrev AllOk : LoadError ⊎ S → Type 0
  AllOk (inl e) = Unit
  AllOk (inr s) = Ok s

  at_line-AllOk :
      (n : ℕ) (line : List ℕ) (s : S) (o : String ⊎ V)
      → Ok s
      → AllOk (at_line (consume codec add) n (add_decoded add s o))
  at_line-AllOk n line s (inl e) ok = tt
  at_line-AllOk n line s (inr v) ok = keeps v s ok

  scan_line-AllOk :
      (n : ℕ) (line : List ℕ) (s : S) → Ok s → AllOk (scan_line (consume codec add) n line s)
  unfolding scan_line
  scan_line-AllOk n line s ok = elim (Bool-cases (leb max_line_bytes (length line))) [
    | inl long ↦ rw long tt
    | inr fits ↦ elim (Bool-cases (is_empty (drop_return line))) [
      | inl blank ↦ rw (fits, blank) ok
      | inr full ↦ rw (fits, full) (at_line-AllOk n line s (codec.decode (drop_return line)) ok)
    ]
  ]

  scan-AllOk :
      (n : ℕ) (lines : List (List ℕ)) (s : S) → Ok s → AllOk (scan (consume codec add) n lines s)
  unfolding scan
  scan-AllOk n [] s ok = ok
  scan-AllOk n (line ∷ lines) s ok =
      next (scan_line (consume codec add) n line s) (scan_line-AllOk n line s ok)
        (λ t. scan-AllOk (n + 1) lines t)
    where
      next :
          (first : LoadError ⊎ S)
          → AllOk first
          → ((t : S) → Ok t → AllOk (scan (consume codec add) (n + 1) lines t))
          → AllOk (elim first [ inl e ↦ inl e | inr t ↦ scan (consume codec add) (n + 1) lines t ])
      next (inl e) ok later = tt
      next (inr t) ok later = later t ok

  load_json_lines-AllOk :
      (read : FileRead) (s : S) → Ok s → AllOk (load_json_lines (consume codec add) read s)
  unfolding load_json_lines
  load_json_lines-AllOk missing s ok = ok
  load_json_lines-AllOk (unreadable e) s ok = tt
  load_json_lines-AllOk (contents bytes after) s ok =
      ended after (scan (consume codec add) 1 (raw_lines bytes) s)
        (scan-AllOk 1 (raw_lines bytes) s ok)
    where
      ended :
          (after : Option String) (o : LoadError ⊎ S)
          → AllOk o
          → AllOk (scan_end (consume codec add) after o)
      ended after (inl e) ok = tt
      ended none (inr t) ok = ok
      ended (some e) (inr t) ok = tt

module _ {F : Type 0} (codecs : Codecs F) where
  pub new_file_store-IsKeyed :
      (directory : String) (made : Option String) (reads : Reads) (store : FileStore F)
      → new_file_store codecs directory made reads ≡ inr store
      → IsKeyed store.policies
  new_file_store-IsKeyed directory made reads store h =
      let (full, loads) = new_file_store-inr codecs directory made reads store h in
      let (ds, os, ps) = opened-parts codecs directory _ _ _ store loads in
      subst (AllOk codecs.policy put_policy_entry IsKeyed insert-IsKeyed) ps (
        load_json_lines-AllOk codecs.policy put_policy_entry IsKeyed insert-IsKeyed
          reads.policy_read [] tt)

  policy_saved-IsKeyed :
      (p : Policy F) (s : Files F) (r : Option String × Log)
      → IsKeyed s.store.policies
      → IsKeyed (policy_saved p s r).1.store.policies
  policy_saved-IsKeyed p s (some e, log) keyed = keyed
  policy_saved-IsKeyed p s (none, log) keyed = insert-IsKeyed p s.store.policies keyed

  decision_saved-policies :
      (v : RouteDecision F) (s : Files F) (r : Option String × Log)
      → (decision_saved v s r).1.store.policies ≡ s.store.policies
  decision_saved-policies v s (some e, log) = refl
  decision_saved-policies v s (none, log) = refl

  outcome_saved-policies :
      (v : Outcome F) (s : Files F) (r : Option String × Log)
      → (outcome_saved v s r).1.store.policies ≡ s.store.policies
  outcome_saved-policies v s (some e, log) = refl
  outcome_saved-policies v s (none, log) = refl

  pub run_save-IsKeyed :
      (save : Save F) (s : Files F)
      → IsKeyed s.store.policies
      → IsKeyed (run_save codecs save s).1.store.policies
  unfolding run_save save_decision save_outcome save_policy
  run_save-IsKeyed (of_decision fault v) s keyed =
      subst IsKeyed (sym (decision_saved-policies v s _)) keyed
  run_save-IsKeyed (of_outcome fault v) s keyed =
      subst IsKeyed (sym (outcome_saved-policies v s _)) keyed
  run_save-IsKeyed (of_policy fault v) s keyed = policy_saved-IsKeyed v s _ keyed

  run_saves-IsKeyed :
      (saves : List (Save F)) (s : Files F)
      → IsKeyed s.store.policies
      → IsKeyed (run_saves codecs saves s).store.policies
  unfolding run_saves
  run_saves-IsKeyed [] s keyed = keyed
  run_saves-IsKeyed (save ∷ saves) s keyed =
      run_saves-IsKeyed saves (run_save codecs save s).1 (run_save-IsKeyed save s keyed)

  pub sorted-In :
      (store : FileStore F) (p : Policy F)
      → IsKeyed store.policies
      → In p (load_policies store) ↔ (lookup p.id store.policies ≡ some p)
  unfolding load_policies
  sorted-In store p keyed =
      let sorted = In-sort_slice before (values store.policies) p in
      let kept = sort_slice-In before (values store.policies) p in
      let inside = In-values store.policies p keyed in ground arith

  -- Of a directory that opens, whatever its files hold and whatever is saved after, `LoadPolicies`
  -- lists a policy exactly when it is the last one that was loaded or saved under its id.
  pub load_policies_iff :
      (directory : String) (made : Option String) (reads : Reads) (store : FileStore F)
      (disk : Disk) (saves : List (Save F)) (p : Policy F)
      → new_file_store codecs directory made reads ≡ inr store
      → let s : Files F = record { store = store; disk = disk } in
        In p (load_policies (run_saves codecs saves s).store)
        ↔ ((note_all codecs saves (book_of store)).policy_of p.id ≡ some p)
  load_policies_iff directory made reads store disk saves p opens =
      let s : Files F = record { store = store; disk = disk } in
      let keyed =
        run_saves-IsKeyed saves s (new_file_store-IsKeyed directory made reads store opens) in
      let (_, _, entry) = run_saves-Book codecs saves s "" p.id in
      rw (← entry) (sorted-In (run_saves codecs saves s).store p keyed)
