-- ===== src/Store/Lines.antt =====
-- internal/store/store.go: `appendJSONLine` and `loadJSONLines`, with what bufio.Scanner makes of the
-- bytes of a file.
pub mod Replay
use outcome_router.Base.{
  ℕ, ◌+◌, ◌*◌, ◌^◌, String, Bool, Option, none, some, List, [], ◌∷◌, ◌++◌, if◌then◌else◌, ◌⊎◌, inl,
  inr, leb, nat_eq, length, take, is_empty, get_or,
}

-- What may go wrong as a line is written: the file does not open, only so many bytes are written, or
-- all are and the file does not close.
pub data WriteFault : Type 0 where
  no_fault : WriteFault
  open_fails : String → WriteFault
  write_fails : ℕ → String → WriteFault
  close_fails : String → WriteFault

-- A log file, `none` where it does not exist.
abbrev pub Log : Type 0
Log = Option (List ℕ)

abbrev pub newline : ℕ
newline = 10

abbrev pub carriage_return : ℕ
carriage_return = 13

-- `appendJSONLine` behind the encoding, which fails with nothing written; the file is there then.
abbrev pub write_line : WriteFault → String ⊎ List ℕ → Log → Option String × Log
write_line (open_fails e) line log = (some e, log)
write_line fault (inl e) log = (some e, some (get_or log []))
write_line no_fault (inr bytes) log = (none, some (get_or log [] ++ (bytes ++ newline ∷ [])))
write_line (write_fails n e) (inr bytes) log =
    (some e, some (get_or log [] ++ take n (bytes ++ newline ∷ [])))
write_line (close_fails e) (inr bytes) log =
    (some e, some (get_or log [] ++ (bytes ++ newline ∷ [])))

-- `appendJSONLine`.
unfoldable pub append_json_line :
    {V : Type 0} → (V → String ⊎ List ℕ) → WriteFault → V → Log → Option String × Log
append_json_line encode fault value log = write_line fault (encode value) log

-- The file as it is read: not there, not to be opened, or its bytes and the error behind them.
pub data FileRead : Type 0 where
  missing : FileRead
  unreadable : String → FileRead
  contents : List ℕ → Option String → FileRead

abbrev pub read_log : Log → FileRead
read_log none = missing
read_log (some bytes) = contents bytes none

pub data LoadError : Type 0 where
  line_error : ℕ → String → LoadError
  line_too_long : LoadError
  read_error : String → LoadError

-- The largest buffer of the scanner, which holds a line and its newline.
abbrev pub max_line_bytes : ℕ
max_line_bytes = 32 * 2 ^ 20

abbrev pub add_byte : ℕ → List (List ℕ) → List (List ℕ)
add_byte b [] = (b ∷ []) ∷ []
add_byte b (line ∷ lines) = (b ∷ line) ∷ lines

-- The lines of the bytes. What follows the last newline is a line if it is not empty.
unfoldable pub raw_lines : List ℕ → List (List ℕ)
raw_lines [] = []
raw_lines (b ∷ bytes) =
    let rest = raw_lines bytes in if nat_eq b newline then [] ∷ rest else add_byte b rest

-- The scanner drops one carriage return at the end of a line.
unfoldable pub drop_return : List ℕ → List ℕ
drop_return [] = []
drop_return (b ∷ []) = if nat_eq b carriage_return then [] else b ∷ []
drop_return (b ∷ c ∷ bytes) = b ∷ drop_return (c ∷ bytes)

module _ {S : Type 0} (consume : List ℕ → S → String ⊎ S) where
  abbrev pub at_line : ℕ → String ⊎ S → LoadError ⊎ S
  at_line n (inl e) = inl (line_error n e)
  at_line n (inr s) = inr s

  -- One turn of the loop of `loadJSONLines`.
  unfoldable pub scan_line : ℕ → List ℕ → S → LoadError ⊎ S
  unfolding drop_return
  scan_line n line s =
      if leb max_line_bytes (length line)
      then inl line_too_long
      else if is_empty (drop_return line)
      then inr s
      else at_line n (consume (drop_return line) s)

  unfoldable pub scan : ℕ → List (List ℕ) → S → LoadError ⊎ S
  scan n [] s = inr s
  scan n (line ∷ lines) s = elim (scan_line n line s) [
    | inl e ↦ inl e
    | inr after ↦ scan (n + 1) lines after
  ]

  abbrev pub scan_end : Option String → LoadError ⊎ S → LoadError ⊎ S
  scan_end after (inl e) = inl e
  scan_end none (inr s) = inr s
  scan_end (some e) (inr s) = inl (read_error e)

  -- `loadJSONLines`, with the state that the function `consume` changes.
  unfoldable pub load_json_lines : FileRead → S → LoadError ⊎ S
  unfolding raw_lines
  load_json_lines missing s = inr s
  load_json_lines (unreadable e) s = inl (read_error e)
  load_json_lines (contents bytes after) s = scan_end after (scan 1 (raw_lines bytes) s)
