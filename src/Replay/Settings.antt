-- ===== src/Replay/Settings.antt =====
-- scripts/replay-dlq.mjs: the settings that the script takes from the environment, and its run with
-- them. The parts of a URL, `Number` and `Number.parseInt` are parameters.
use Prim.Native.String.{◌++◌}
use cloud_code_execution_eng.Prelude.{
  false, ℕ, String, Bool, ◌||◌, Option, none, some, ◌===◌, if◌then◌else◌, or_else, max,
}
use cloud_code_execution_eng.Effect.{Result, ok, err}
use cloud_code_execution_eng.Effect.Fallible.{◌>>=◌}
use cloud_code_execution_eng.Redis.Connection.{Url, RedisConnection, redis_connection}

pub record ReplayEnv : Type 0 where
  pub redis_url : Option String
  pub job_queue_name : Option String
  pub dlq_queue_name : Option String
  pub queue_job_attempts : Option String
  pub queue_retry_backoff_ms : Option String
  pub job_ttl_seconds : Option String
  pub dry_run : Option String
  pub dlq_batch_size : Option String

-- The whole numbers that parseInt reads; `negsuc n` is the number -(n + 1).
pub data ℤ : Type 0 where
  pos negsuc : ℕ → ℤ

pub record ReplaySettings : Type 0 where
  pub connection : RedisConnection
  pub job_queue_name : String
  pub dlq_queue_name : String
  pub attempts : ℤ
  pub backoff_ms : ℤ
  pub ttl_seconds : ℤ
  pub dry_run : Bool
  pub batch_size : ℕ

unfoldable pub require_env : String → Option String → Result String
require_env key none = err ("Missing required env var: " ++ key)
require_env key (some value) =
    if value === "" then err ("Missing required env var: " ++ key) else ok value

-- `value || usual`.
abbrev pub named_or : Option String → String → String
named_or none usual = usual
named_or (some value) usual = if value === "" then usual else value

-- `Math.max(1, n)`.
abbrev pub at_least_one : ℤ → ℕ
at_least_one (pos n) = max 1 n
at_least_one (negsuc n) = 1

abbrev pub is_dry_run : Option String → Bool
is_dry_run none = false
is_dry_run (some value) = (value === "1") || (value === "true")

module _ (parse_url : String → Result Url) (to_number : String → Option ℕ)
    (parse_int : String → Option ℤ) where
  -- The script's toInt; parse_int gives none for NaN.
  abbrev pub to_whole : Option String → ℕ → ℤ
  to_whole value fallback = or_else (parse_int (or_else value "")) (pos fallback)

  unfoldable pub load_settings : ReplayEnv → Result ReplaySettings
  load_settings env = do
    value ← require_env "REDIS_URL" env.redis_url
    url ← parse_url value
    ok (record {
      connection = redis_connection to_number url;
      job_queue_name = named_or env.job_queue_name "code-jobs";
      dlq_queue_name = named_or env.dlq_queue_name "code-jobs-dlq";
      attempts = to_whole env.queue_job_attempts 3;
      backoff_ms = to_whole env.queue_retry_backoff_ms 1000;
      ttl_seconds = to_whole env.job_ttl_seconds 86_400;
      dry_run = is_dry_run env.dry_run;
      batch_size = at_least_one (to_whole env.dlq_batch_size 50);
    })
