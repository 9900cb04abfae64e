-- ===== src/Store/Files/Torn.antt =====
-- A write that stops within a line.
use outcome_router.Base.{
  ℕ, ◌+◌, String, ◌≡◌, refl, none, some, List, [], ◌∷◌, ◌++◌, inl, inr, get_or, length, take,
}
use outcome_router.Domain.{RouteDecision}
use outcome_router.Store.Lines.{newline, write_fails, append_json_line, line_error, raw_lines}
use outcome_router.Store.Lines.Replay.{IsLine, load_json_lines-torn}
use outcome_router.Store.Files.{
  Codecs, Files, decisions_error, put_decision, consume, new_file_store, read_disk, save_decision,
}
use outcome_router.Store.Files.Recovery.{IsRestartable, new_file_store-inr, opened-parts}

module _ {F : Type 0} (codecs : Codecs F) where
  -- Where the write of a decision stops within its line, the error comes back and the memory stays as
  -- it was; but the store does not open again, with the error of the line that the part makes, if the
  -- part does not decode.
  pub save_decision-torn :
      (decision : RouteDecision F) (s : Files F) (n : ℕ) (failure e : String) (bytes : List ℕ)
      → IsRestartable codecs s
      → codecs.decision.encode decision ≡ inr bytes
      → IsLine (take n (bytes ++ newline ∷ []))
      → codecs.decision.decode (take n (bytes ++ newline ∷ [])) ≡ inl e
      → let after = save_decision codecs (write_fails n failure) decision s in
        (after.0 ≡ some failure)
        × (after.1.store ≡ s.store)
        × (new_file_store codecs s.store.directory none (read_disk after.1.disk)
            ≡ inl (
                decisions_error
                  (line_error (1 + length (raw_lines (get_or s.disk.decision_log []))) e)))
  unfolding save_decision append_json_line new_file_store
  save_decision-torn decision s n failure e bytes (wd, _, _, reopened) encoded line refused =
      let (full, loads) =
        new_file_store-inr codecs s.store.directory none (read_disk s.disk) s.store reopened in
      let (ld, _, _) = opened-parts codecs s.store.directory _ _ _ s.store loads in
      let torn =
        load_json_lines-torn (consume codecs.decision put_decision) s.disk.decision_log
          (take n (bytes ++ newline ∷ [])) [] s.store.decisions e wd line ld (rw refused refl) in
      rw encoded (refl, refl, rw (full, torn) refl)
