-- ===== src/Examples/Stored.antt =====
-- A directory that is written and opened again.
use mathlib.Core.Sum.{inr-injective}
use outcome_router.Base.{
  ◌+◌, ◌≡◌, ◌↔◌, refl, subst, none, some, List, [], ◌∷◌, inl, inr, lookup, arith, In, get_or,
  length, if◌then◌else◌, same_codes,
}
use outcome_router.Double.Fixed.{Fixed, fixed_double}
use outcome_router.Domain.{RouteDecision}
use outcome_router.Store.Lines.{
  no_fault, open_fails, write_fails, line_error, raw_lines, drop_return, load_json_lines,
}
use outcome_router.Store.Lines.Replay.{IsLine}
use outcome_router.Store.Files.{
  Codec, Codecs, Files, decisions_error, read_disk, new_file_store, save_decision, get_decision,
  load_policies, Save, of_decision, of_outcome, of_policy, run_saves,
}
use outcome_router.Store.Files.Recovery.{IsRecoverable, IsRestartable, restart_lem}
use outcome_router.Store.Files.Refines.{book_of, note_all, read_decision, run_saves-Book}
use outcome_router.Store.Files.Policies.{load_policies_iff}
use outcome_router.Store.Files.Torn.{save_decision-torn}
use outcome_router.Examples.World.{policy, request}
use outcome_router.Examples.Routes.{decision_of}
use outcome_router.Examples.Serving.{posted}

-- Every record is written as `{}`, and `{}` is read as one record.
abbrev pub codec_of : {V : Type 0} → V → Codec V
codec_of v = record {
  encode = λ x. inr (123 ∷ 125 ∷ []);
  decode = λ bytes. if same_codes bytes (123 ∷ 125 ∷ []) then inr v else inl "no object";
}

abbrev pub made : RouteDecision Fixed
made = decision_of policy request

abbrev pub codecs : Codecs Fixed
codecs = record {
  decision = codec_of made;
  outcome = codec_of posted.outcome;
  policy = codec_of policy;
}

abbrev pub empty_files : Files Fixed
empty_files = record {
  store = record { directory = "data"; decisions = []; outcomes = []; policies = [] };
  disk = record { decision_log = none; outcome_log = none; policy_log = none };
}

braces-IsLine : IsLine (123 ∷ 125 ∷ [])
unfolding drop_return
braces-IsLine = ((omega arith, (omega arith, tt)), refl, refl, omega arith)

pub recoverable : {V : Type 0} (v : V) → IsRecoverable (codec_of v) v
recoverable v bytes e =
    subst (λ b. IsLine b × ((codec_of v).decode b ≡ inr v)) (inr-injective _ _ e)
      (braces-IsLine, refl)

pub restartable : IsRestartable codecs empty_files
unfolding new_file_store load_json_lines
restartable = (tt, tt, tt, refl)

abbrev saves : List (Save Fixed)
saves =
    of_decision no_fault made
    ∷ of_policy (open_fails "disk is full") policy
    ∷ of_outcome no_fault posted.outcome
    ∷ of_policy no_fault policy
    ∷ []

restart_lem_example : IsRestartable codecs (run_saves codecs saves empty_files)
restart_lem_example =
    restart_lem codecs saves empty_files
      (
        (tt, recoverable made),
        (
          (tt, recoverable policy),
          ((tt, recoverable posted.outcome), ((tt, recoverable policy), tt)),
        ),
      )
      restartable

run_saves-Book_example :
    (get_decision (run_saves codecs saves empty_files).store "tenant" "id"
      ≡ read_decision "tenant"
          ((note_all codecs saves (book_of empty_files.store)).decision_of "id"))
    × ((run_saves codecs saves empty_files).store.outcomes
        ≡ (note_all codecs saves (book_of empty_files.store)).outcomes)
    × (lookup "id" (run_saves codecs saves empty_files).store.policies
        ≡ (note_all codecs saves (book_of empty_files.store)).policy_of "id")
run_saves-Book_example = run_saves-Book codecs saves empty_files "tenant" "id"

opens : new_file_store codecs "data" none (read_disk empty_files.disk) ≡ inr empty_files.store
unfolding new_file_store load_json_lines
opens = refl

load_policies_iff_example :
    In policy (load_policies (run_saves codecs saves empty_files).store)
    ↔ ((note_all codecs saves (book_of empty_files.store)).policy_of policy.id ≡ some policy)
load_policies_iff_example =
    load_policies_iff codecs "data" none (read_disk empty_files.disk) empty_files.store
      empty_files.disk saves policy opens

part-IsLine : IsLine (123 ∷ [])
unfolding drop_return
part-IsLine = ((omega arith, tt), refl, refl, omega arith)

save_decision-torn_example :
    ((save_decision codecs (write_fails 1 "disk is full") made empty_files).0 ≡ some "disk is full")
    × ((save_decision codecs (write_fails 1 "disk is full") made empty_files).1.store
        ≡ empty_files.store)
    × (new_file_store codecs "data" none
          (read_disk (save_decision codecs (write_fails 1 "disk is full") made empty_files).1.disk)
        ≡ inl (
            decisions_error (
              line_error
                (1 + length (raw_lines (get_or empty_files.disk.decision_log [])))
                "no object")))
save_decision-torn_example =
    save_decision-torn codecs made empty_files 1 "disk is full" "no object" (123 ∷ 125 ∷ [])
      restartable refl part-IsLine refl
