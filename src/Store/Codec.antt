-- ===== src/Store/Codec.antt =====
-- encoding/json as the journal uses it, a parameter of the model: `json.Marshal` writes a record on
-- one line, and `json.Unmarshal` reads it back without the fields marked `json:"-"`. Text that is
-- not UTF-8 comes back with replacement characters, so such a record is read back as another one.
use rc_wnzzer.Base.{
  ℕ, ◌+◌, ◌≡◌, ◌≢◌, Bool, true, Bytes, Option, some, List, [], ◌∷◌, ◌++◌, length, bit,
}
use rc_wnzzer.Store.Record.{Record, Stats, is_terminal, on_wire}

abbrev pub newline : ℕ
newline = 10

abbrev pub HasNoNewline : Bytes → Type 0
HasNoNewline [] = Unit
HasNoNewline (b ∷ s) = (b ≢ newline) × HasNoNewline s

pub record Codec : Type 0 where
  pub encode : Record → Bytes
  pub decode : Bytes → Option Record
  pub reread : Record → Record
  pub is_utf8 : Record → Bool
  pub decode-encode : (r : Record) → decode (encode r) ≡ some (reread r)
  pub reread_utf8 : (r : Record) → is_utf8 r ≡ true → reread r ≡ on_wire r
  pub one_line : (r : Record) → HasNoNewline (encode r)

module _ (c : Codec) where
  -- A record as `append` writes it.
  unfoldable pub line : Record → Bytes
  line r = c.encode r ++ newline ∷ []

  unfoldable pub lines : List Record → Bytes
  lines [] = []
  lines (r ∷ rs) = line r ++ lines rs

  -- The statistics after one more record.
  abbrev pub count_record : Record → Stats → Stats
  count_record r s = record {
    records = s.records + 1;
    terminal = s.terminal + bit (is_terminal r.kind);
    bytes = s.bytes + length (line r);
  }

  unfoldable pub stats_of : List Record → Stats → Stats
  stats_of [] s = s
  stats_of (r ∷ rs) s = stats_of rs (count_record r s)
