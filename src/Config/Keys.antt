-- ===== src/Config/Keys.antt =====
-- `LoadKeys` of internal/config/config.go: the file's text, or `none` if it cannot be opened, and its
-- permissions are arguments. `trim` is `strings.TrimSpace`; `is_broken` is whether a read of the file
-- fails behind the text.
pub mod Printed
use rc_wnzzer.Base.{
  ℕ, suc, ◌+◌, ◌≡◌, ◌≢◌, refl, sym, ap, ◌∙◌, Bool, true, false, not, ◌||◌, Bytes, str_eq, eq_iff,
  Option, none, some, Option-cases, Bool-cases, inl, inr, List, [], ◌∷◌, ◌++◌, ◌==◌, leb, length,
  if◌then◌else◌, arith,
}
use rc_wnzzer.Base.Table.{Table, lookup, lookup-nil, insert, lookup-insert, HasUniqueKeys}
use rc_wnzzer.Store.Codec.{newline, HasNoNewline}

pub data KeysError : Type 0 where
  cannot_open too_open cannot_read no_entry : KeysError
  bad_line : (line : ℕ) → KeysError

pub data Loaded : Type 0 where
  keys : Table Bytes → Loaded
  refused : KeysError → Loaded

-- `bufio.Scanner` with its default split, before the carriage return at the end of a line is dropped:
-- the last line has no newline, and is no line if it is empty.
abbrev last_line : Bytes → List Bytes
last_line [] = []
last_line (c ∷ cur) = (c ∷ cur) ∷ []

unfoldable pub text_lines : Bytes → Bytes → List Bytes
text_lines cur [] = last_line cur
text_lines cur (b ∷ s) =
    let next = text_lines [] s in
    let more = text_lines (cur ++ b ∷ []) s in if b == newline then cur ∷ next else more

-- `dropCR` of package bufio
abbrev pub drop_cr : Bytes → Bytes
drop_cr [] = []
drop_cr (b ∷ []) = if b == 13 then [] else b ∷ []
drop_cr (b ∷ c ∷ s) = b ∷ drop_cr (c ∷ s)

-- `strings.Cut` at a colon
unfoldable pub cut_colon : Bytes → Option (Bytes × Bytes)
cut_colon [] = none
cut_colon (b ∷ s) =
    if b == b':'
    then some ([], s)
    else elim (cut_colon s) [ none ↦ none | some p ↦ some (b ∷ p.0, p.1) ]

-- `bufio.MaxScanTokenSize`: the scanner has no room for a line of as many bytes.
abbrev pub max_scan_token_size : ℕ
max_scan_token_size = 65536

abbrev pub is_comment : Bytes → Bool
is_comment [] = true
is_comment (b ∷ s) = b == b'#'

abbrev pub entry_of : Option (Bytes × Bytes) → Option (Bytes × Bytes)
entry_of none = none
entry_of (some ([], secret)) = none
entry_of (some (b ∷ id, [])) = none
entry_of (some (b ∷ id, c ∷ secret)) = some (b ∷ id, c ∷ secret)

module _ (trim : Bytes → Bytes) where
  load_line : ℕ → Option (Bytes × Bytes) → (Table Bytes → Loaded) → Table Bytes → Loaded
  load_line n none next m = refused (bad_line n)
  load_line n (some e) next m = next (insert e.0 e.1 m)

  -- The loop over the lines, with the number of the first, and `sc.Err()` behind it.
  unfoldable pub load_lines : (is_broken : Bool) → ℕ → List Bytes → Table Bytes → Loaded
  unfolding load_line
  load_lines is_broken n [] m = if is_broken then refused cannot_read else keys m
  load_lines is_broken n (l ∷ ls) m =
      let s = trim (drop_cr l) in
      let next = λ (x : Table Bytes). load_lines is_broken (n + 1) ls x in
      if leb max_scan_token_size (length l)
      then refused cannot_read
      else if is_comment s
      then next m
      else load_line n (entry_of (cut_colon s)) next m

  not_empty : Loaded → Loaded
  not_empty (keys []) = refused no_entry
  not_empty r = r

  -- `LoadKeys`
  unfoldable pub load_keys : Option Bytes → (is_too_open is_broken : Bool) → Loaded
  unfolding not_empty
  load_keys none is_too_open is_broken = refused cannot_open
  load_keys (some text) true is_broken = refused too_open
  load_keys (some text) false is_broken = not_empty (load_lines is_broken 1 (text_lines [] text) [])
