-- ===== src/Store/Lines/Replay.antt =====
-- A line that is appended to a whole log is read as one more call of the consumer.
use outcome_router.Base.{
  ℕ, ◌+◌, ◌<◌, String, ◌≡◌, ◌≢◌, refl, ◌∙◌, ap, if◌then◌else◌, none, some, List, [], ◌∷◌, ◌++◌, ◌⊎◌,
  inl, inr, arith, All, length, is_empty, leb, get_or, Bool-cases, nat_eq, false,
}
use outcome_router.Store.Lines.{
  Log, newline, read_log, LoadError, line_error, max_line_bytes, add_byte, raw_lines, drop_return,
  scan_line, scan, scan_end, load_json_lines,
}

-- The log is empty or ends with a newline.
abbrev pub EndsLine : List ℕ → Type 0
EndsLine [] = Unit
EndsLine (b ∷ []) = b ≡ newline
EndsLine (b ∷ c ∷ bytes) = EndsLine (c ∷ bytes)

-- A line that the scanner hands on as it is.
abbrev pub IsLine : List ℕ → Type 0
IsLine bytes =
    All (λ b. b ≢ newline) bytes
    × (drop_return bytes ≡ bytes)
    × (is_empty bytes ≡ false)
    × (length bytes < max_line_bytes)

abbrev with_byte : ℕ → List (List ℕ) → List (List ℕ)
with_byte b rest = if nat_eq b newline then [] ∷ rest else add_byte b rest

raw_lines-nil : raw_lines [] ≡ []
unfolding raw_lines
raw_lines-nil = refl

raw_lines-cons : (b : ℕ) (bytes : List ℕ) → raw_lines (b ∷ bytes) ≡ with_byte b (raw_lines bytes)
unfolding raw_lines
raw_lines-cons b bytes = refl

raw_lines-some :
    (b : ℕ) (bytes : List ℕ)
    → (line : List ℕ) × (lines : List (List ℕ)) × (raw_lines (b ∷ bytes) ≡ line ∷ lines)
raw_lines-some b bytes = rw (raw_lines-cons b bytes) (first (raw_lines bytes))
  where
    first :
        (rest : List (List ℕ))
        → (line : List ℕ) × (lines : List (List ℕ)) × (with_byte b rest ≡ line ∷ lines)
    first [] = elim (Bool-cases (nat_eq b newline)) [
      | inl end ↦ ([], [], rw end refl)
      | inr inside ↦ (b ∷ [], [], rw inside refl)
    ]
    first (l ∷ ls) = elim (Bool-cases (nat_eq b newline)) [
      | inl end ↦ ([], l ∷ ls, rw end refl)
      | inr inside ↦ (b ∷ l, ls, rw inside refl)
    ]

with_byte-append :
    (b : ℕ) (lines more : List (List ℕ)) (l : List ℕ) (ls : List (List ℕ))
    → lines ≡ l ∷ ls
    → with_byte b (lines ++ more) ≡ with_byte b lines ++ more
with_byte-append b lines more l ls e = elim (Bool-cases (nat_eq b newline)) [
  | inl end ↦ rw (end, e) refl
  | inr inside ↦ rw (inside, e) refl
]

pub raw_lines-append :
    (log bytes : List ℕ)
    → EndsLine log
    → raw_lines (log ++ bytes) ≡ raw_lines log ++ raw_lines bytes
raw_lines-append [] bytes whole = rw raw_lines-nil refl
raw_lines-append (b ∷ []) bytes whole =
    rw whole (raw_lines-cons newline bytes ∙ rw (raw_lines-cons newline [], raw_lines-nil) refl)
raw_lines-append (b ∷ c ∷ log) bytes whole =
    let (line, lines, e) = raw_lines-some c log in
    raw_lines-cons b ((c ∷ log) ++ bytes)
    ∙ ap (with_byte b) (raw_lines-append (c ∷ log) bytes whole)
    ∙ with_byte-append b (raw_lines (c ∷ log)) (raw_lines bytes) line lines e
    ∙ rw (raw_lines-cons b (c ∷ log)) refl

raw_lines-line :
    (bytes : List ℕ) → All (λ b. b ≢ newline) bytes → raw_lines (bytes ++ newline ∷ []) ≡ bytes ∷ []
unfolding raw_lines
raw_lines-line [] h = refl
raw_lines-line (b ∷ bytes) (h, hs) = rw (raw_lines-line bytes hs) (ground arith)

raw_lines-part :
    (bytes : List ℕ)
    → All (λ b. b ≢ newline) bytes
    → is_empty bytes ≡ false
    → raw_lines bytes ≡ bytes ∷ []
raw_lines-part [] h full = cc
raw_lines-part (b ∷ []) (h, hs) full = raw_lines-cons b [] ∙ rw raw_lines-nil (ground arith)
raw_lines-part (b ∷ c ∷ bytes) (h, hs) full =
    raw_lines-cons b (c ∷ bytes) ∙ rw (raw_lines-part (c ∷ bytes) hs refl) (ground arith)

EndsLine-append : (log bytes : List ℕ) → EndsLine (log ++ (bytes ++ newline ∷ []))
EndsLine-append [] [] = refl
EndsLine-append [] (b ∷ []) = refl
EndsLine-append [] (b ∷ c ∷ bytes) = EndsLine-append [] (c ∷ bytes)
EndsLine-append (b ∷ []) [] = refl
EndsLine-append (b ∷ []) (c ∷ bytes) = EndsLine-append [] (c ∷ bytes)
EndsLine-append (b ∷ c ∷ log) bytes = EndsLine-append (c ∷ log) bytes

module _ {S : Type 0} (consume : List ℕ → S → String ⊎ S) where
  -- Scanning goes on from the state behind the lines before.
  abbrev scan_from : ℕ → List (List ℕ) → LoadError ⊎ S → LoadError ⊎ S
  scan_from n lines (inl e) = inl e
  scan_from n lines (inr s) = scan consume n lines s

  scan-nil : (n : ℕ) (s : S) → scan consume n [] s ≡ inr s
  unfolding scan
  scan-nil n s = refl

  scan-cons :
      (n : ℕ) (line : List ℕ) (lines : List (List ℕ)) (s : S)
      → scan consume n (line ∷ lines) s ≡ scan_from (n + 1) lines (scan_line consume n line s)
  unfolding scan
  scan-cons n line lines s = next (scan_line consume n line s)
    where
      next :
          (first : LoadError ⊎ S)
          → (elim first [ inl e ↦ inl e | inr after ↦ scan consume (n + 1) lines after ])
            ≡ scan_from (n + 1) lines first
      next (inl e) = refl
      next (inr after) = refl

  scan-append :
      (n : ℕ) (lines more : List (List ℕ)) (s : S)
      → scan consume n (lines ++ more) s
        ≡ scan_from (n + length lines) more (scan consume n lines s)
  scan-append n [] more s = let same : n + 0 ≡ n = omega arith in rw (same, scan-nil n s) refl
  scan-append n (l ∷ lines) more s =
      scan-cons n l (lines ++ more) s
      ∙ after_line (λ t. scan-append (n + 1) lines more t) (scan_line consume n l s)
      ∙ rw (scan-cons n l lines s) refl
    where
      after_line :
          ((t : S)
            → scan consume (n + 1) (lines ++ more) t
              ≡ scan_from (n + 1 + length lines) more (scan consume (n + 1) lines t))
          → (first : LoadError ⊎ S)
          → scan_from (n + 1) (lines ++ more) first
            ≡ scan_from (n + length (l ∷ lines)) more (scan_from (n + 1) lines first)
      after_line later (inl e) = refl
      after_line later (inr t) =
          later t ∙ ap (λ k. scan_from k more (scan consume (n + 1) lines t)) (omega arith)

  -- One line that decodes.
  -- One line that decodes.
  scan_line-decoded :
      (n : ℕ) (bytes : List ℕ) (mid after : S)
      → IsLine bytes
      → consume bytes mid ≡ inr after
      → scan_line consume n bytes mid ≡ inr after
  unfolding scan_line
  scan_line-decoded n bytes mid after (_, same, full, short) decoded =
      let fits : leb max_line_bytes (length bytes) ≡ false = ground arith in
      rw (fits, same, full, decoded) refl

  scan-one :
      (n : ℕ) (bytes : List ℕ) (mid after : S)
      → IsLine bytes
      → consume bytes mid ≡ inr after
      → scan consume n (bytes ∷ []) mid ≡ inr after
  scan-one n bytes mid after line decoded =
      scan-cons n bytes [] mid
      ∙ rw (scan_line-decoded n bytes mid after line decoded) (scan-nil (n + 1) after)

  -- What a log that loads without an error scans to.
  scan-loaded :
      (log : Log) (s mid : S)
      → load_json_lines consume (read_log log) s ≡ inr mid
      → scan consume 1 (raw_lines (get_or log [])) s ≡ inr mid
  unfolding load_json_lines scan
  scan-loaded none s mid h = h
  scan-loaded (some bytes) s mid h = ended (scan consume 1 (raw_lines bytes) s) h
    where
      ended : (o : LoadError ⊎ S) → scan_end consume none o ≡ inr mid → o ≡ inr mid
      ended (inl e) h = h
      ended (inr t) h = h

  -- After a line that decodes is appended to a whole log, the log is whole, and loading it goes on
  -- from the state that loading the log before gave.
  pub load_json_lines-append :
      (log : Log) (bytes : List ℕ) (s mid after : S)
      → EndsLine (get_or log [])
      → IsLine bytes
      → load_json_lines consume (read_log log) s ≡ inr mid
      → consume bytes mid ≡ inr after
      → EndsLine (get_or log [] ++ (bytes ++ newline ∷ []))
        × (load_json_lines consume (read_log (some (get_or log [] ++ (bytes ++ newline ∷ [])))) s
            ≡ inr after)
  unfolding load_json_lines
  load_json_lines-append log bytes s mid after whole line loaded decoded =
      let scanned : scan consume 1 (raw_lines (get_or log [] ++ (bytes ++ newline ∷ []))) s
          ≡ inr after =
        rw
          (
            raw_lines-append (get_or log []) (bytes ++ newline ∷ []) whole,
            raw_lines-line bytes line.0,
            scan-append 1 (raw_lines (get_or log [])) (bytes ∷ []) s,
            scan-loaded log s mid loaded,
            scan-one (1 + length (raw_lines (get_or log []))) bytes mid after line decoded,
          )
          refl in
      (EndsLine-append (get_or log []) bytes, ap (scan_end consume none) scanned)

  scan_line-refused :
      (n : ℕ) (bytes : List ℕ) (mid : S) (e : String)
      → IsLine bytes
      → consume bytes mid ≡ inl e
      → scan_line consume n bytes mid ≡ inl (line_error n e)
  unfolding scan_line
  scan_line-refused n bytes mid e (_, same, full, short) refused =
      let fits : leb max_line_bytes (length bytes) ≡ false = ground arith in
      rw (fits, same, full, refused) refl

  -- A part of a line that stands behind a whole log and does not decode makes the loading fail.
  pub load_json_lines-torn :
      (log : Log) (part : List ℕ) (s mid : S) (e : String)
      → EndsLine (get_or log [])
      → IsLine part
      → load_json_lines consume (read_log log) s ≡ inr mid
      → consume part mid ≡ inl e
      → load_json_lines consume (read_log (some (get_or log [] ++ part))) s
        ≡ inl (line_error (1 + length (raw_lines (get_or log []))) e)
  unfolding load_json_lines
  load_json_lines-torn log part s mid e whole line loaded refused =
      let n = 1 + length (raw_lines (get_or log [])) in
      let scanned : scan consume 1 (raw_lines (get_or log [] ++ part)) s ≡ inl (line_error n e) =
        rw
          (
            raw_lines-append (get_or log []) part whole,
            raw_lines-part part line.0 line.2,
            scan-append 1 (raw_lines (get_or log [])) (part ∷ []) s,
            scan-loaded log s mid loaded,
            scan-cons n part [] mid,
            scan_line-refused n part mid e line refused,
          )
          refl in
      ap (scan_end consume none) scanned
