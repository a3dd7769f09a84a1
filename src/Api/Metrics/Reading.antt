-- ===== src/Api/Metrics/Reading.antt =====
-- What a scraper reads in the text of GET /metrics.
use Prim.Native.Char.{Char, code}
use Prim.Native.String.{◌++◌}
use Prim.Native.String.append
use cloud_code_execution_eng.Prelude.{
  map, lacks, lacks-append, lacks-tail, show-lacks, ℕ, ◌≡◌, refl, ap, ◌∙◌, String, Bool, true,
  false, ◌&&◌, not, Option, none, some, List, [], ◌∷◌, show, ◌==◌, if◌then◌else◌, All, arith,
}
use cloud_code_execution_eng.Services.{Services}
use cloud_code_execution_eng.Api.Observability.{ObservabilitySnapshot}
use cloud_code_execution_eng.Api.Metrics.{
  Gauge, join_lines, gauge_lines, gauges, render_prometheus_metrics,
}

-- The reader: lines that are empty or comments are left out, and a sample is a name, a space and
-- the text of its value.
abbrev lead : Char → List String → List String
lead c [] = String.◌∷◌ c "" ∷ []
lead c (line ∷ lines) = String.◌∷◌ c line ∷ lines

abbrev pub lines_of : String → List String
lines_of String.[] = "" ∷ []
lines_of (String.◌∷◌ c s) = let rest = lines_of s in if code c == 10 then "" ∷ rest else lead c rest

abbrev with_char : Char → Option (String × String) → Option (String × String)
with_char c none = none
with_char c (some (name, value)) = some (String.◌∷◌ c name, value)

abbrev split_space : String → Option (String × String)
split_space String.[] = none
split_space (String.◌∷◌ c s) =
    let rest = split_space s in if code c == 32 then some ("", s) else with_char c rest

abbrev pub read_line : String → Option (String × String)
read_line String.[] = none
read_line (String.◌∷◌ c s) = if code c == b'#' then none else split_space (String.◌∷◌ c s)

abbrev onto {ℓ} : {A : Type ℓ} → Option A → List A → List A
onto none xs = xs
onto (some x) xs = x ∷ xs

abbrev pub read_lines : List String → List (String × String)
read_lines [] = []
read_lines (line ∷ lines) = onto (read_line line) (read_lines lines)

abbrev pub read_metrics : String → List (String × String)
read_metrics text = read_lines (lines_of text)

lines_of-line : (s : String) → lacks 10 s ≡ true → lines_of s ≡ s ∷ []
lines_of-line String.[] h = refl
lines_of-line (String.◌∷◌ c s) h =
    let (other, rest) = lacks-tail 10 c s h in rw (other, lines_of-line s rest) refl

lines_of-append : (s t : String) → lacks 10 s ≡ true → lines_of (s ++ ("\n" ++ t)) ≡ s ∷ lines_of t
lines_of-append String.[] t h =
    rw (append.nil ("\n" ++ t), append.cons "\n" "" t, append.nil t) refl
lines_of-append (String.◌∷◌ c s) t h =
    let (other, rest) = lacks-tail 10 c s h in
    rw (append.cons c s ("\n" ++ t), other, lines_of-append s t rest) refl

lines_of-join_lines :
    (line : String) (lines : List String)
    → All (λ l. lacks 10 l ≡ true) (line ∷ lines)
    → lines_of (join_lines (line ∷ lines)) ≡ line ∷ lines
lines_of-join_lines line [] (h, _) = lines_of-line line h
lines_of-join_lines line (next ∷ lines) (h, hs) =
    lines_of-append line (join_lines (next ∷ lines)) h
    ∙ ap (λ ls. line ∷ ls) (lines_of-join_lines next lines hs)

split_space-sample :
    (name value : String)
    → lacks 32 name ≡ true
    → split_space (name ++ (" " ++ value)) ≡ some (name, value)
split_space-sample String.[] value h =
    rw (append.nil (" " ++ value), append.cons " " "" value, append.nil value) refl
split_space-sample (String.◌∷◌ c s) value h =
    let (other, rest) = lacks-tail 32 c s h in
    rw (append.cons c s (" " ++ value), other, split_space-sample s value rest) refl

-- A name of a sample.
abbrev is_name : String → Bool
is_name String.[] = false
is_name (String.◌∷◌ c s) =
    not (code c == b'#') && (lacks 32 (String.◌∷◌ c s) && lacks 10 (String.◌∷◌ c s))

read_line-sample :
    (name value : String)
    → is_name name ≡ true
    → read_line (name ++ (" " ++ value)) ≡ some (name, value)
read_line-sample String.[] value h = cc h
read_line-sample (String.◌∷◌ c s) value h =
    let not_comment : (code c == b'#') ≡ false = ground arith in
    let spaceless : lacks 32 (String.◌∷◌ c s) ≡ true = ground arith in
    let read = split_space-sample (String.◌∷◌ c s) value spaceless in
    rw (append.cons c s (" " ++ value), not_comment) (rw (append.cons c s (" " ++ value)) at read)

abbrev OneLine : String → Type 0
OneLine line = lacks 10 line ≡ true

is_name-OneLine : (name : String) → is_name name ≡ true → OneLine name
is_name-OneLine String.[] h = refl
is_name-OneLine (String.◌∷◌ c s) h = ground arith

-- A gauge that a scraper can read.
record IsReadable (g : Gauge) : Type 0 where
  named : is_name g.name ≡ true
  helped : OneLine g.help
  valued : OneLine g.value

gauge_lines-All : (gs : List Gauge) → All IsReadable gs → All OneLine (gauge_lines gs)
gauge_lines-All [] h = (refl, tt)
gauge_lines-All (g ∷ gs) (r, rs) =
    let named = is_name-OneLine g.name r.named in
    (
      lacks-append 10 "# HELP " (g.name ++ (" " ++ g.help)) refl
          (lacks-append 10 g.name (" " ++ g.help) named (lacks-append 10 " " g.help refl r.helped)),
      (
        lacks-append 10 "# TYPE " (g.name ++ " gauge") refl
            (lacks-append 10 g.name " gauge" named refl),
        (
          lacks-append 10 g.name (" " ++ g.value) named (lacks-append 10 " " g.value refl r.valued),
          gauge_lines-All gs rs,
        ),
      ),
    )

read_line-comment :
    (c : Char) (s rest : String)
    → (code c == b'#') ≡ true
    → read_line (String.◌∷◌ c s ++ rest) ≡ none
read_line-comment c s rest h = rw (append.cons c s rest, h) refl

sample : Gauge → String × String
sample g = (g.name, g.value)

read_lines-gauge_lines :
    (gs : List Gauge) → All IsReadable gs → read_lines (gauge_lines gs) ≡ map sample gs
unfolding sample
read_lines-gauge_lines [] h = refl
read_lines-gauge_lines (g ∷ gs) (r, rs) =
    let helped : read_line ("# HELP " ++ (g.name ++ (" " ++ g.help))) ≡ none =
      read_line-comment "#" " HELP " (g.name ++ (" " ++ g.help)) refl in
    let typed : read_line ("# TYPE " ++ (g.name ++ " gauge")) ≡ none =
      read_line-comment "#" " TYPE " (g.name ++ " gauge") refl in
    rw (helped, typed, read_line-sample g.name g.value r.named, read_lines-gauge_lines gs rs) refl

lines_of-gauge_lines :
    (gs : List Gauge) → All IsReadable gs → lines_of (join_lines (gauge_lines gs)) ≡ gauge_lines gs
lines_of-gauge_lines [] h = refl
lines_of-gauge_lines (g ∷ gs) h = lines_of-join_lines _ _ (gauge_lines-All (g ∷ gs) h)

module _ (sv : Services) (read_duration : Option String → Option ℕ)
    (window_seconds sample_limit fleet_capacity : ℕ)
    (prometheus_number : sv.floats.F → String) where
  abbrev pub samples :
      ObservabilitySnapshot sv read_duration window_seconds sample_limit fleet_capacity
      → List (String × String)
  samples s =
      ("ccee_jobs_per_second", prometheus_number s.jobs_per_second)
      ∷ ("ccee_average_runtime_ms", prometheus_number s.average_runtime_ms)
      ∷ ("ccee_failure_rate", prometheus_number s.failure_rate)
      ∷ ("ccee_queue_depth", show s.queue_depth)
      ∷ ("ccee_worker_utilization", prometheus_number s.worker_utilization)
      ∷ ("ccee_worker_running", show s.worker_fleet.running)
      ∷ ("ccee_worker_desired", show s.worker_fleet.desired)
      ∷ ("ccee_worker_pending", show s.worker_fleet.pending)
      ∷ []

  gauges-All :
      (s : ObservabilitySnapshot sv read_duration window_seconds sample_limit fleet_capacity)
      → ((x : sv.floats.F) → OneLine (prometheus_number x))
      → All IsReadable
          (gauges sv read_duration window_seconds sample_limit fleet_capacity prometheus_number s)
  gauges-All s plain = (
    readable_by refl refl (plain s.jobs_per_second),
    (
      readable_by refl refl (plain s.average_runtime_ms),
      (
        readable_by refl refl (plain s.failure_rate),
        (
          readable_by refl refl (show-lacks s.queue_depth),
          (
            readable_by refl refl (plain s.worker_utilization),
            (
              readable_by refl refl (show-lacks s.worker_fleet.running),
              (
                readable_by refl refl (show-lacks s.worker_fleet.desired),
                (readable_by refl refl (show-lacks s.worker_fleet.pending), tt),
              ),
            ),
          ),
        ),
      ),
    ),
  )
    where
      readable_by :
          {g : Gauge} → is_name g.name ≡ true → OneLine g.help → OneLine g.value → IsReadable g
      readable_by a b c = record { named = a; helped = b; valued = c }

  -- If no float is written with a line break, a scraper that leaves out comments reads, in the
  -- text of GET /metrics, each of the eight metrics once, in their order and with its value.
  pub read_metrics-render_prometheus_metrics :
      (s : ObservabilitySnapshot sv read_duration window_seconds sample_limit fleet_capacity)
      → ((x : sv.floats.F) → lacks 10 (prometheus_number x) ≡ true)
      → read_metrics (
          render_prometheus_metrics sv read_duration window_seconds sample_limit fleet_capacity
            prometheus_number s)
        ≡ samples s
  unfolding render_prometheus_metrics sample
  read_metrics-render_prometheus_metrics s plain =
      let shown =
        gauges sv read_duration window_seconds sample_limit fleet_capacity prometheus_number s in
      let readable = gauges-All s plain in
      ap read_lines (lines_of-gauge_lines shown readable) ∙ read_lines-gauge_lines shown readable
