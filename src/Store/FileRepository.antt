-- ===== src/Store/FileRepository.antt =====
-- internal/store/store.go: the file store as the `Repository` of the server.
pub mod Separate
use mathlib.Core.Option.{some-injective, some-ne-none}
use outcome_router.Base.{
  String, ◌≡◌, refl, sym, ap, ◌∙◌, Bool, true, false, Option, none, some, List, [], ◌∷◌, inl, inr,
  lookup, lookup-insert_self, ◌==◌, eq_iff, eq_refl, Bool-cases,
}
use outcome_router.Domain.{Time, RouteDecision}
use outcome_router.Double.{Double}
use outcome_router.Server.Outside.{Repository}
use outcome_router.Server.Reads.Isolated.{IsStore}
use outcome_router.Store.Lines.{WriteFault, no_fault, Log}
use outcome_router.Store.Files.{
  Codecs, FileStore, Files, save_decision, save_outcome, save_policy, get_decision, load_policies,
  decision_saved,
}
use outcome_router.Store.Files.Refines.{read_decision, get_decision-read}
use outcome_router.Store.Summary.{summary, summarize}
use outcome_router.Store.Tally.{Query}

-- The store, and what will go wrong at its next writes. Nothing does when the list is at its end.
pub record FileWorld (F : Type 0) : Type 0 where
  pub files : Files F
  pub faults : List WriteFault

abbrev pub next_fault : List WriteFault → WriteFault
next_fault [] = no_fault
next_fault (fault ∷ faults) = fault

abbrev pub later_faults : List WriteFault → List WriteFault
later_faults [] = []
later_faults (fault ∷ faults) = faults

abbrev with_files :
    {F : Type 0} → FileWorld F → Option String × Files F → Option String × FileWorld F
with_files w (error, files) = (error, record { files = files; faults = later_faults w.faults })

-- A decision with Go's second result true.
abbrev pub owned : {F : Type 0} → Option (RouteDecision F) × Bool → Option (RouteDecision F)
owned (decision, true) = decision
owned (decision, false) = none

module _ {F : Type 0} ⦃d : Double F⦄ (codecs : Codecs F) where
  abbrev pub file_repository : Repository F (FileWorld F)
  file_repository = record {
    save_decision =
        λ decision w. with_files w (save_decision codecs (next_fault w.faults) decision w.files);
    save_outcome =
        λ outcome w. with_files w (save_outcome codecs (next_fault w.faults) outcome w.files);
    get_decision = λ w tenant_id id. owned (get_decision w.files.store tenant_id id);
    summary = λ w q primary now. summary w.files.store q primary now;
    save_policy =
        λ policy w. with_files w (save_policy codecs (next_fault w.faults) policy w.files);
    load_policies = λ w. inr (load_policies w.files.store);
  }

  saved-found :
      (decision : RouteDecision F) (s : Files F) (r : Option String × Log)
      → (decision_saved decision s r).0 ≡ none
      → owned (get_decision (decision_saved decision s r).1.store decision.tenant_id decision.id)
        ≡ some decision
  saved-found decision s (some e, log) h = cc
  saved-found decision s (none, log) h =
      let store = (decision_saved decision s (none, log)).1.store in
      ap owned (get_decision-read store decision.tenant_id decision.id)
      ∙ ap (λ entry. owned (read_decision decision.tenant_id entry))
          (lookup-insert_self decision.id decision s.store.decisions)
      ∙ rw (eq_refl decision.tenant_id) refl

  unsaved-same :
      (decision : RouteDecision F) (s : Files F) (r : Option String × Log) (e : String)
      → (decision_saved decision s r).0 ≡ some e
      → (decision_saved decision s r).1.store ≡ s.store
  unsaved-same decision s (some failure, log) e h = refl
  unsaved-same decision s (none, log) e h = cc

  -- The file store, whatever goes wrong at its writes, is what the handlers rely on.
  pub file_repository-IsStore : IsStore file_repository
  unfolding save_decision
  file_repository-IsStore = record {
    get_saved = λ w saved h. saved-found saved w.files _ h;
    get_unsaved = λ w saved e tenant_id id h.
        ap (λ store. owned (get_decision store tenant_id id)) (unsaved-same saved w.files _ e h);
  }
