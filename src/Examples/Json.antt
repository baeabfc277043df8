-- ===== src/Examples/Json.antt =====
-- A codec for tests: a record is written as the list of its numbers, each moved up by 11, so that no
-- byte is a newline.
use rc_wnzzer.Base.{
  ℕ, zero, suc, ◌+◌, ◌-◌, ◌≡◌, refl, ap, ◌∙◌, true, Bytes, Option, none, some, List, [], ◌∷◌, ◌++◌,
  append-nil, append_assoc, arith, length, sym,
}
use rc_wnzzer.Base.Table.{Table}
use rc_wnzzer.Model.{Task, unset, persisted}
use rc_wnzzer.Store.Record.{Kind, enq, att, done, dead, other, Record, map_task, on_wire}
use rc_wnzzer.Store.Codec.{HasNoNewline, Codec}

record Coder (A : Type 0) : Type 0 where
  put : A → List ℕ
  parse : List ℕ → Option (A × List ℕ)
  law : (a : A) (s : List ℕ) → parse (put a ++ s) ≡ some (a, s)

get_number : List ℕ → Option (ℕ × List ℕ)
get_number [] = none
get_number (n ∷ s) = some (n, s)

abbrev number : Coder ℕ
unfolding get_number
number = record { put = λ n. n ∷ []; parse = get_number; law = λ n s. refl }

module _ {A B : Type 0} (x : Coder A) (y : Coder B) where
  put_pair : A × B → List ℕ
  put_pair (a, b) = x.put a ++ y.put b

  get_pair : List ℕ → Option ((A × B) × List ℕ)
  get_pair s = elim (x.parse s) [
    | none ↦ none
    | some (a, s₁) ↦ elim (y.parse s₁) [ none ↦ none | some (b, s₂) ↦ some ((a, b), s₂) ]
  ]

  pair_law : (p : A × B) (s : List ℕ) → get_pair (put_pair p ++ s) ≡ some (p, s)
  unfolding put_pair get_pair
  pair_law (a, b) s =
      rw (append_assoc (x.put a) (y.put b) s, x.law a (y.put b ++ s), y.law b s, get_pair) refl

  abbrev pair : Coder (A × B)
  pair = record { put = put_pair; parse = get_pair; law = pair_law }

module _ {A : Type 0} (x : Coder A) where
  put_all : List A → List ℕ
  put_all [] = []
  put_all (a ∷ xs) = x.put a ++ put_all xs

  get_all : ℕ → List ℕ → Option (List A × List ℕ)
  get_all zero s = some ([], s)
  get_all (suc n) s = elim (x.parse s) [
    | none ↦ none
    | some (a, s₁) ↦ elim (get_all n s₁) [ none ↦ none | some (xs, s₂) ↦ some (a ∷ xs, s₂) ]
  ]

  get_all-put_all :
      (xs : List A) (s : List ℕ) → get_all (length xs) (put_all xs ++ s) ≡ some (xs, s)
  unfolding put_all get_all
  get_all-put_all [] s = refl
  get_all-put_all (a ∷ xs) s =
      rw (append_assoc (x.put a) (put_all xs) s, x.law a (put_all xs ++ s), get_all-put_all xs s)
        refl

  put_list : List A → List ℕ
  put_list xs = length xs ∷ put_all xs

  get_list : List ℕ → Option (List A × List ℕ)
  get_list [] = none
  get_list (n ∷ s) = get_all n s

  list_law : (xs : List A) (s : List ℕ) → get_list (put_list xs ++ s) ≡ some (xs, s)
  unfolding put_list get_list
  list_law xs s = get_all-put_all xs s

  abbrev list : Coder (List A)
  list = record { put = put_list; parse = get_list; law = list_law }

  put_option : Option A → List ℕ
  put_option none = 0 ∷ []
  put_option (some a) = 1 ∷ x.put a

  get_option : List ℕ → Option (Option A × List ℕ)
  get_option [] = none
  get_option (zero ∷ s) = some (none, s)
  get_option (suc _ ∷ s) = elim (x.parse s) [ none ↦ none | some (a, s₁) ↦ some (some a, s₁) ]

  option_law : (o : Option A) (s : List ℕ) → get_option (put_option o ++ s) ≡ some (o, s)
  unfolding put_option get_option
  option_law none s = refl
  option_law (some a) s = rw (x.law a s) refl

  abbrev option : Coder (Option A)
  option = record { put = put_option; parse = get_option; law = option_law }

abbrev text : Coder Bytes
text = list number

abbrev TargetRow : Type 0
TargetRow = Bytes × (Bytes × (Table Bytes × (Bytes × Bytes)))

abbrev TaskRow : Type 0
TaskRow = Bytes × (Bytes × (TargetRow × ((ℕ × (ℕ × ℕ)) × (ℕ × Bytes))))

abbrev RecordRow : Type 0
RecordRow =
    (ℕ × Bytes)
    × (Bytes × (ℕ × (Option TaskRow × (ℕ × (Bytes × (ℕ × (Bytes × (Bytes × (ℕ × Bytes)))))))))

abbrev task_coder : Coder TaskRow
task_coder =
    let target = pair text (pair text (pair (list (pair text text)) (pair text text))) in
    let policy = pair number (pair number number) in
    pair text (pair text (pair target (pair policy (pair number text))))

abbrev record_coder : Coder RecordRow
record_coder = pair (pair number text) (
    pair text (
      pair number (
        pair (option task_coder)
          (pair number (pair text (pair number (pair text (pair text (pair number text)))))))))

abbrev kind_row : Kind → ℕ × Bytes
kind_row enq = (0, [])
kind_row att = (1, [])
kind_row done = (2, [])
kind_row dead = (3, [])
kind_row (other s) = (4, s)

abbrev kind_of : ℕ × Bytes → Kind
kind_of (zero, s) = enq
kind_of (suc zero, s) = att
kind_of (suc (suc zero), s) = done
kind_of (suc (suc (suc zero)), s) = dead
kind_of (suc (suc (suc (suc n))), s) = other s

abbrev task_row : Task → TaskRow
task_row t =
    let g = t.target in
    let p = t.policy in
    (
      t.id,
      (
        t.idem_key,
        (
          (g.url, (g.method, (g.headers, (g.body, g.body_encoding)))),
          ((p.timeout_ms, (p.max_attempts, p.deadline_ms)), (t.created_at, t.key_id)),
        ),
      ),
    )

abbrev task_of : TaskRow → Task
task_of
      (
        id,
        (
          key,
          (
            (url, (method, (headers, (body, encoding)))),
            ((timeout, (max, deadline)), (created, key_id)),
          ),
        ),
      ) =
    record {
      id = id;
      idem_key = key;
      target = record {
        url = url;
        method = method;
        headers = headers;
        body = body;
        body_encoding = encoding;
      };
      policy = record { timeout_ms = timeout; max_attempts = max; deadline_ms = deadline };
      created_at = created;
      key_id = key_id;
      state = unset;
      attempts = 0;
      next_at = 0;
      updated_at = 0;
      last_code = 0;
      last_err = [];
      last_resp = [];
      dead_reason = [];
    }

abbrev task_rows : Option Task → Option TaskRow
task_rows none = none
task_rows (some t) = some (task_row t)

abbrev tasks_of : Option TaskRow → Option Task
tasks_of none = none
tasks_of (some r) = some (task_of r)

abbrev record_row : Record → RecordRow
record_row r = (
  kind_row r.kind,
  (
    r.id,
    (r.ts, (task_rows r.task, (r.n, (r.res, (r.code, (r.err, (r.resp, (r.next_at, r.why)))))))),
  ),
)

abbrev record_of : RecordRow → Record
record_of (kind, (id, (ts, (task, (n, (res, (code, (err, (resp, (next_at, why)))))))))) = record {
  kind = kind_of kind;
  id = id;
  ts = ts;
  task = tasks_of task;
  n = n;
  res = res;
  code = code;
  err = err;
  resp = resp;
  next_at = next_at;
  why = why;
}

kind_of-kind_row : (k : Kind) → kind_of (kind_row k) ≡ k
kind_of-kind_row enq = refl
kind_of-kind_row att = refl
kind_of-kind_row done = refl
kind_of-kind_row dead = refl
kind_of-kind_row (other s) = refl

tasks_of-task_rows : (o : Option Task) → tasks_of (task_rows o) ≡ map_task persisted o
tasks_of-task_rows none = refl
tasks_of-task_rows (some t) = refl

record_of-record_row : (r : Record) → record_of (record_row r) ≡ on_wire r
record_of-record_row r = rw (kind_of-kind_row r.kind, tasks_of-task_rows r.task) refl

raised : List ℕ → Bytes
raised [] = []
raised (n ∷ s) = (n + 11) ∷ raised s

lowered : Bytes → List ℕ
lowered [] = []
lowered (b ∷ s) = (b - 11) ∷ lowered s

lowered-raised : (s : List ℕ) → lowered (raised s) ≡ s
unfolding raised lowered
lowered-raised [] = refl
lowered-raised (n ∷ s) = ground (arith, lowered-raised s)

raised-HasNoNewline : (s : List ℕ) → HasNoNewline (raised s)
unfolding raised
raised-HasNoNewline [] = tt
raised-HasNoNewline (n ∷ s) = (ground arith, raised-HasNoNewline s)

read_row : Option (RecordRow × List ℕ) → Option Record
read_row none = none
read_row (some (r, s)) = some (record_of r)

encode_sample : Record → Bytes
encode_sample r = raised (record_coder.put (record_row r))

decode_sample : Bytes → Option Record
decode_sample s = read_row (record_coder.parse (lowered s))

decode-encode_sample : (r : Record) → decode_sample (encode_sample r) ≡ some (on_wire r)
unfolding encode_sample decode_sample read_row
decode-encode_sample r =
    let s = record_coder.put (record_row r) in
    ap (λ z. read_row (record_coder.parse z)) (lowered-raised s ∙ sym (append-nil s))
    ∙ ap read_row (record_coder.law (record_row r) [])
    ∙ ap some (record_of-record_row r)

unfoldable pub sample_codec : Codec
unfolding encode_sample decode_sample read_row raised lowered get_number put_pair get_pair put_all
    get_all put_list get_list put_option get_option decode-encode_sample raised-HasNoNewline
    pair_law list_law option_law lowered-raised record_of-record_row get_all-put_all
    kind_of-kind_row tasks_of-task_rows
sample_codec = record {
  encode = encode_sample;
  decode = decode_sample;
  reread = on_wire;
  is_utf8 = λ r. true;
  decode-encode = decode-encode_sample;
  reread_utf8 = λ r e. refl;
  one_line = λ r. raised-HasNoNewline (record_coder.put (record_row r));
}
