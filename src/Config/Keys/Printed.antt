-- ===== src/Config/Keys/Printed.antt =====
-- A key file as an operator writes it, read by `LoadKeys` of internal/config/config.go.
use rc_wnzzer.Base.{
  ℕ, ◌+◌, ◌≡◌, ◌≢◌, refl, sym, ap, ◌∙◌, false, leb, length, ◌<◌, Bytes, str_eq, eq_iff, none, some,
  [], ◌∷◌, ◌++◌, map, append-nil, subst, append_assoc, arith,
}
use rc_wnzzer.Base.Table.{Table, lookup, insert, HasUniqueKeys}
use rc_wnzzer.Store.Codec.{newline, HasNoNewline}
use rc_wnzzer.Config.Keys.{
  keys, text_lines, drop_cr, cut_colon, is_comment, max_scan_token_size, entry_of, load_lines,
  not_empty, load_keys,
}

-- A line of the file.
abbrev pub key_line : Bytes × Bytes → Bytes
key_line e = e.0 ++ b':' ∷ e.1

unfoldable pub print_keys : Table Bytes → Bytes
print_keys [] = []
print_keys (e ∷ es) = key_line e ++ newline ∷ print_keys es

abbrev pub HasNoColon : Bytes → Type 0
HasNoColon [] = Unit
HasNoColon (b ∷ s) = (b ≢ b':') × HasNoColon s

-- An entry that a line can hold: both parts stand on one line, the id has no colon, and the line is
-- short enough for the scanner, neither a comment, nor changed by the trimming of its ends.
pub record IsEntry (trim : Bytes → Bytes) (e : Bytes × Bytes) : Type 0 where
  pub has_id : e.0 ≢ []
  pub has_secret : e.1 ≢ []
  pub id_line : HasNoColon e.0
  pub one_line : HasNoNewline (key_line e)
  pub no_comment : is_comment (key_line e) ≡ false
  pub fits : length (key_line e) < max_scan_token_size
  pub trimmed : trim (drop_cr (key_line e)) ≡ key_line e

abbrev pub AreEntries : (Bytes → Bytes) → Table Bytes → Type 0
AreEntries trim [] = Unit
AreEntries trim (e ∷ es) = IsEntry trim e × AreEntries trim es

text_lines-line :
    (l cur s : Bytes)
    → HasNoNewline l
    → text_lines cur (l ++ newline ∷ s) ≡ (cur ++ l) ∷ text_lines [] s
unfolding text_lines
text_lines-line [] cur s h = rw append-nil refl
text_lines-line (b ∷ l) cur s h =
    ground (arith, text_lines-line l (cur ++ b ∷ []) s h.1, append_assoc cur (b ∷ []) l, h.0)

text_lines-print_keys :
    (trim : Bytes → Bytes) (es : Table Bytes)
    → AreEntries trim es
    → text_lines [] (print_keys es) ≡ map key_line es
unfolding text_lines print_keys
text_lines-print_keys trim [] h = refl
text_lines-print_keys trim (e ∷ es) h =
    text_lines-line (key_line e) [] (print_keys es) h.0.one_line
    ∙ ap (◌∷◌ (key_line e)) (text_lines-print_keys trim es h.1)

cut_colon-key_line :
    (id secret : Bytes) → HasNoColon id → cut_colon (id ++ b':' ∷ secret) ≡ some (id, secret)
unfolding cut_colon
cut_colon-key_line [] secret h = refl
cut_colon-key_line (b ∷ id) secret h = ground (arith, h.0, cut_colon-key_line id secret h.1)

insert-new : (k v : Bytes) (m : Table Bytes) → lookup k m ≡ none → insert k v m ≡ m ++ (k, v) ∷ []
unfolding insert lookup
insert-new k v [] h = refl
insert-new k v (e ∷ m) h = ground (arith, h, insert-new k v m)

lookup-append :
    (k j v : Bytes) (m es : Table Bytes) → lookup j (m ++ (k, v) ∷ es) ≡ none → str_eq k j ≡ false
unfolding lookup
lookup-append k j v [] es h = ground (arith, h)
lookup-append k j v (e ∷ m) es h = lookup-append k j v m es (ground (arith, h))

-- A key in the middle of a map does not stand before.
unique_middle :
    (k v : Bytes) (m es : Table Bytes) → HasUniqueKeys (m ++ (k, v) ∷ es) → lookup k m ≡ none
unfolding lookup
unique_middle k v [] es u = refl
unique_middle k v ((j, w) ∷ m) es u =
    ground (arith, unique_middle k v m es u.1, lookup-append k j v m es u.0, eq_iff k j, eq_iff j k)

module _ (trim : Bytes → Bytes) where
  read_entry :
      (e : Bytes × Bytes)
      → IsEntry trim e
      → entry_of (cut_colon (trim (drop_cr (key_line e)))) ≡ some e
  read_entry ([], secret) g = absurd (g.has_id refl)
  read_entry (b ∷ id, []) g = absurd (g.has_secret refl)
  read_entry (b ∷ id, c ∷ secret) g =
      ap (λ s. entry_of (cut_colon s)) g.trimmed
      ∙ ap entry_of (cut_colon-key_line (b ∷ id) (c ∷ secret) g.id_line)

  load_lines-entries :
      (n : ℕ) (es m : Table Bytes)
      → AreEntries trim es
      → HasUniqueKeys (m ++ es)
      → load_lines trim false n (map key_line es) m ≡ keys (m ++ es)
  unfolding load_lines
  load_lines-entries n [] m g u = ap keys (sym (append-nil m))
  load_lines-entries n (e ∷ es) m g u =
      let text : is_comment (trim (drop_cr (key_line e))) ≡ false =
        ap is_comment g.0.trimmed ∙ g.0.no_comment in
      let new = insert-new e.0 e.1 m (unique_middle e.0 e.1 m es u) in
      let shift : (m ++ e ∷ []) ++ es ≡ m ++ e ∷ es = append_assoc m (e ∷ []) es in
      let room : leb max_scan_token_size (length (key_line e)) ≡ false = ground (arith, g.0.fits) in
      rw (room, text, read_entry e g.0, new, load_lines)
        (load_lines-entries (n + 1) es (m ++ e ∷ []) g.1 (subst HasUniqueKeys (sym shift) u)
          ∙ ap keys shift)

  -- A file that has each entry on a line of its own, at least one, no key id twice, and permissions for
  -- its owner only, each line being short enough for the scanner, is read as these entries, if no read
  -- fails.
  pub load_keys-print_keys :
      (e : Bytes × Bytes) (es : Table Bytes)
      → AreEntries trim (e ∷ es)
      → HasUniqueKeys (e ∷ es)
      → load_keys trim (some (print_keys (e ∷ es))) false false ≡ keys (e ∷ es)
  unfolding load_keys not_empty
  load_keys-print_keys e es g u =
      rw (text_lines-print_keys trim (e ∷ es) g ∙ refl, load_lines-entries 1 (e ∷ es) [] g u) refl
