-- ===== src/Store/Postgres/Agrees.antt =====
-- The summary over the database is that over the records.
use outcome_router.Base.{
  ℕ, String, ◌≡◌, refl, Bool, false, none, List, [], ◌∷◌, All, Map, if◌then◌else◌, ◌⊎◌, inl, inr,
  Bool-cases,
}
use outcome_router.Double.{Double}
use outcome_router.Domain.{Time, RouteDecision, Outcome}
use outcome_router.Store.Files.{Codec, Codecs}
use outcome_router.Store.Postgres.{Database, read_rows, query_decisions, query_outcomes, summary}
use outcome_router.Store.Summary.{
  OutcomeTally, is_primary, tally_outcome, tally_outcomes, summarize,
}
use outcome_router.Store.Tally.{Query, Tally, is_counted, tally_one, tally, no_tally}

-- The records that pass the test, in order.
abbrev pub keep_if : {V : Type 0} → (V → Bool) → List V → List V
keep_if test [] = []
keep_if test (v ∷ vs) = let rest = keep_if test vs in if test v then v ∷ rest else rest

-- The rows of records that scan.
abbrev pub scanned : {V : Type 0} → (V → List ℕ) → List V → List (String ⊎ List ℕ)
scanned bytes_of [] = []
scanned bytes_of (v ∷ vs) = inr (bytes_of v) ∷ scanned bytes_of vs

read_rows-scanned :
    {V : Type 0} (codec : Codec V) (bytes_of : V → List ℕ) (vs : List V)
    → All (λ v. codec.decode (bytes_of v) ≡ inr v) vs
    → read_rows codec (scanned bytes_of vs) ≡ vs
unfolding read_rows
read_rows-scanned codec bytes_of [] back = refl
read_rows-scanned codec bytes_of (v ∷ vs) (here, back) =
    rw (here, read_rows-scanned codec bytes_of vs back) refl

module _ {F : Type 0} ⦃d : Double F⦄ (q : Query) where
  tally_one-skipped :
      (decision : RouteDecision F) (t : Tally F)
      → is_counted q decision ≡ false
      → tally_one q decision t ≡ t
  unfolding tally_one
  tally_one-skipped decision t skipped = rw skipped refl

  -- The loop skips what the database leaves out.
  tally-keep_if :
      (decisions : List (RouteDecision F)) (t : Tally F)
      → tally q (keep_if (is_counted q) decisions) t ≡ tally q decisions t
  unfolding tally
  tally-keep_if [] t = refl
  tally-keep_if (decision ∷ decisions) t = elim (Bool-cases (is_counted q decision)) [
    | inl counted ↦ rw counted (tally-keep_if decisions (tally_one q decision t))
    | inr skipped ↦ rw (skipped, tally_one-skipped decision t skipped) (tally-keep_if decisions t)
  ]

  tally_outcome-skipped :
      (primary : String) (decisions : Map (RouteDecision F)) (o : Outcome F) (t : OutcomeTally F)
      → is_primary q primary o ≡ false
      → tally_outcome q primary decisions o t ≡ t
  unfolding tally_outcome
  tally_outcome-skipped primary decisions o t skipped = rw skipped refl

  tally_outcomes-keep_if :
      (primary : String) (decisions : Map (RouteDecision F)) (outcomes : List (Outcome F))
      (t : OutcomeTally F)
      → tally_outcomes q primary decisions (keep_if (is_primary q primary) outcomes) t
        ≡ tally_outcomes q primary decisions outcomes t
  unfolding tally_outcomes
  tally_outcomes-keep_if primary decisions [] t = refl
  tally_outcomes-keep_if primary decisions (o ∷ outcomes) t =
      elim (Bool-cases (is_primary q primary o)) [
        | inl counted ↦ rw counted (
            tally_outcomes-keep_if primary decisions outcomes
              (tally_outcome q primary decisions o t))
        | inr skipped ↦
            rw (skipped, tally_outcome-skipped primary decisions o t skipped)
              (tally_outcomes-keep_if primary decisions outcomes t)
      ]

  pub summarize-keep_if :
      (primary : String) (now : Time) (decisions : List (RouteDecision F))
      (outcomes : List (Outcome F))
      → summarize q primary now
          (keep_if (is_counted q) decisions)
          (keep_if (is_primary q primary) outcomes)
        ≡ summarize q primary now decisions outcomes
  unfolding summarize
  summarize-keep_if primary now decisions outcomes =
      rw
        (
          tally-keep_if decisions no_tally,
          tally_outcomes-keep_if primary (tally q decisions no_tally).decisions outcomes
              (record { by_model = (tally q decisions no_tally).by_model; primary_by_trace = [] }),
        )
        refl

  -- Where the database answers the two queries with the rows of the records that they select, and each
  -- row decodes as its record, the summary is what `summarize` makes of all the records, selected or not,
  -- in the order of the rows.
  pub summary-agrees :
      {S : Type 0} (db : Database F S) (codecs : Codecs F) (s : S) (primary : String) (now : Time)
      (decisions : List (RouteDecision F)) (outcomes : List (Outcome F))
      (decision_bytes : RouteDecision F → List ℕ) (outcome_bytes : Outcome F → List ℕ)
      → All
          (λ v. codecs.decision.decode (decision_bytes v) ≡ inr v)
          (keep_if (is_counted q) decisions)
      → All
          (λ v. codecs.outcome.decode (outcome_bytes v) ≡ inr v)
          (keep_if (is_primary q primary) outcomes)
      → query_decisions db s q
        ≡ inr (record {
          rows = scanned decision_bytes (keep_if (is_counted q) decisions);
          error = none;
        })
      → query_outcomes db s q primary
        ≡ inr (record {
          rows = scanned outcome_bytes (keep_if (is_primary q primary) outcomes);
          error = none;
        })
      → summary db codecs s q primary now ≡ summarize q primary now decisions outcomes
  unfolding summary
  summary-agrees db codecs s primary now decisions outcomes decision_bytes outcome_bytes back_d
        back_o found_d found_o =
      rw
        (
          found_d,
          found_o,
          read_rows-scanned codecs.decision decision_bytes (keep_if (is_counted q) decisions)
              back_d,
          read_rows-scanned codecs.outcome outcome_bytes (keep_if (is_primary q primary) outcomes)
              back_o,
        )
        (summarize-keep_if primary now decisions outcomes)
