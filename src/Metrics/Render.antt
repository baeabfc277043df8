-- ===== src/Metrics/Render.antt =====
-- `Render` of internal/metrics/metrics.go: the text of a scrape. The formatting of floats and of quoted
-- texts (`%g`, `strconv.FormatFloat` and `%q`) is an argument.
use Prim.Native.String.{String}
use rc_wnzzer.Base.{
  ℕ, ◌+◌, ◌-◌, ◌/◌, ◌%◌, Bytes, bytes, List, [], ◌∷◌, ◌++◌, ltb, leb, text_order, number_order,
  if◌then◌else◌,
}
use rc_wnzzer.Model.{State, unset, pending, waiting, sending, succeeded, dead}
use rc_wnzzer.Dispatch.RetryAfter.{Int64, pos, neg}
use rc_wnzzer.Api.Auth.{format_int}
use rc_wnzzer.Metrics.{Registry}
use rc_wnzzer.Metrics.Counters.{Tally, sorted_keys, lines_of}

-- A code point in UTF-8, below 2 ^ 16.
abbrev utf8_char : ℕ → Bytes
utf8_char n =
    if ltb n 0x80
    then n ∷ []
    else if ltb n 0x800
    then (0xc0 + n / 64) ∷ (0x80 + n % 64) ∷ []
    else (0xe0 + n / 4096) ∷ (0x80 + n / 64 % 64) ∷ (0x80 + n % 64) ∷ []

abbrev utf8 : Bytes → Bytes
utf8 [] = []
utf8 (n ∷ s) = utf8_char n ++ utf8 s

-- The bytes of a literal.
abbrev text : String → Bytes
text s = utf8 (bytes s)

abbrev newline : Bytes
newline = 10 ∷ []

-- `%d`
abbrev number : ℕ → Bytes
number n = format_int (pos n)

-- `Snapshot`
pub record Snapshot : Type 0 where
  pub states : State → ℕ
  pub queue_depth : ℕ
  pub journal_bytes : ℕ
  pub oldest_pending : ℕ

-- The `State` constants.
abbrev state_text : State → Bytes
state_text unset = []
state_text pending = bytes "pending"
state_text waiting = bytes "waiting"
state_text sending = bytes "sending"
state_text succeeded = bytes "succeeded"
state_text dead = bytes "dead"

-- `%g` of the bounds of the buckets.
abbrev bucket_texts : List Bytes
bucket_texts =
    bytes "0.05"
    ∷ bytes "0.1"
    ∷ bytes "0.25"
    ∷ bytes "0.5"
    ∷ bytes "1"
    ∷ bytes "2.5"
    ∷ bytes "5"
    ∷ bytes "10"
    ∷ []

-- Two comment lines.
abbrev head_lines : (name help kind : Bytes) → Bytes
head_lines name help kind =
    bytes "# HELP "
    ++ (name
        ++ (bytes " "
            ++ (help
                ++ (newline ++ (bytes "# TYPE " ++ (name ++ (bytes " " ++ (kind ++ newline))))))))

module _ {F : Type 0} (quote : Bytes → Bytes) (format_g : F → Bytes)
    (format_thousandths : Int64 → Bytes) where
  -- `fmtLabels`, behind its opening brace.
  unfoldable pub label_pairs : List Bytes → Bytes
  label_pairs [] = bytes "}"
  label_pairs (k ∷ []) = bytes "}"
  label_pairs (k ∷ v ∷ []) = k ++ (bytes "=" ++ (quote v ++ bytes "}"))
  label_pairs (k ∷ v ∷ w ∷ rest) =
      let more = label_pairs (w ∷ rest) in
      let next : Bytes = elim rest [ [] ↦ more | x ∷ xs ↦ bytes "," ++ more ] in
      k ++ (bytes "=" ++ (quote v ++ next))

  unfoldable pub fmt_labels : List Bytes → Bytes
  unfolding label_pairs
  fmt_labels [] = []
  fmt_labels (k ∷ rest) = bytes "{" ++ label_pairs (k ∷ rest)

  -- `gauge`, with the value as text.
  unfoldable pub gauge : (name help value : Bytes) → List Bytes → Bytes
  unfolding fmt_labels
  gauge name help value labels =
      head_lines name help (bytes "gauge")
      ++ (name ++ (fmt_labels labels ++ (bytes " " ++ (value ++ newline))))

  -- A line of `counter`.
  abbrev pub counter_line : (name label key : Bytes) → ℕ → Bytes
  counter_line name label key n =
      name
      ++ (bytes "{"
          ++ (label ++ (bytes "=" ++ (quote key ++ (bytes "} " ++ (number n ++ newline))))))

  -- `counter`
  unfoldable pub counter : (name help label : Bytes) → Tally Bytes → Bytes
  counter name help label m =
      head_lines name help (bytes "counter") ++ lines_of (counter_line name label) (sorted_keys m) m

  abbrev pub code_line : ℕ → ℕ → Bytes
  code_line code n =
      bytes "notifyd_response_codes_total{code=\""
      ++ (number code ++ (bytes "\"} " ++ (number n ++ newline)))

  state_lines : (State → ℕ) → List State → Bytes
  state_lines states [] = []
  state_lines states (s ∷ ss) =
      bytes "notifyd_tasks{state="
      ++ (quote (state_text s)
          ++ (bytes "} " ++ (number (states s) ++ (newline ++ state_lines states ss))))

  bucket_line : Bytes → ℕ → Bytes
  bucket_line bound n =
      bytes "notifyd_attempt_duration_seconds_bucket{le=\""
      ++ (bound ++ (bytes "\"} " ++ (number n ++ newline)))

  bucket_lines : (bounds : List Bytes) (counts : List ℕ) → Bytes
  bucket_lines [] counts = []
  bucket_lines (b ∷ bounds) [] = []
  bucket_lines (b ∷ bounds) (n ∷ counts) = bucket_line b n ++ bucket_lines bounds counts

  -- The age in milliseconds, 0 if there is no task that has not ended.
  abbrev age : (now oldest : ℕ) → Int64
  age now oldest =
      if ltb 0 oldest
      then (if leb oldest now then pos (now - oldest) else neg (oldest - now))
      else pos 0

  -- The part on the queue.
  unfoldable pub render_queue : (now : ℕ) → Snapshot → Bytes
  unfolding state_lines gauge
  render_queue now s =
      head_lines (bytes "notifyd_tasks") (text "各状态的任务数") (bytes "gauge")
      ++ (state_lines s.states (pending ∷ waiting ∷ sending ∷ succeeded ∷ dead ∷ [])
          ++ (gauge (bytes "notifyd_queue_depth") (text "堆中已排程待投递的任务数") (number s.queue_depth) []
              ++ (gauge (bytes "notifyd_journal_bytes") (text "journal 文件当前大小")
                    (number s.journal_bytes) []
                  ++ gauge (bytes "notifyd_oldest_pending_age_seconds") (text "最老未终结任务的存在时长")
                      (format_thousandths (age now s.oldest_pending)) [])))

  -- The part on the counters.
  unfoldable pub render_counters : Registry F → Bytes
  unfolding counter bucket_lines bucket_line
  render_counters r =
      counter (bytes "notifyd_submitted_total") (text "提交请求计数") (bytes "result") r.submitted
      ++ (counter (bytes "notifyd_attempts_total") (text "投递尝试计数") (bytes "outcome") r.attempts
          ++ (head_lines (bytes "notifyd_response_codes_total") (text "外部 API 返回的状态码分布")
                (bytes "counter")
              ++ (lines_of code_line (sorted_keys r.codes) r.codes
                  ++ (head_lines (bytes "notifyd_attempt_duration_seconds") (text "单次投递耗时")
                        (bytes "histogram")
                      ++ (bucket_lines bucket_texts r.hist_counts
                          ++ (bucket_line (bytes "+Inf") r.hist_total
                              ++ (bytes "notifyd_attempt_duration_seconds_sum "
                                  ++ (format_g r.hist_sum
                                      ++ (newline
                                          ++ (bytes "notifyd_attempt_duration_seconds_count "
                                              ++ (number r.hist_total ++ newline)))))))))))

  -- `Render`
  unfoldable pub render : (now : ℕ) → Snapshot → Registry F → Bytes
  unfolding render_queue render_counters
  render now s r = render_queue now s ++ render_counters r
