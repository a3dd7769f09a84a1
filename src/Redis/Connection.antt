-- ===== src/Redis/Connection.antt =====
-- The connection to Redis that services/api/src/index.ts, services/worker/src/index.ts and
-- scripts/replay-dlq.mjs make of a URL. How a URL falls into its parts and `Number` are parameters.
use cloud_code_execution_eng.Prelude.{
  ℕ, String, Bool, Option, none, some, ◌===◌, ◌&&◌, not, if◌then◌else◌,
}

pub record Url : Type 0 where
  pub protocol : String
  pub hostname : String
  pub port : String
  pub username : String
  pub password : String
  pub pathname : String

-- A number that is none is NaN.
pub record RedisConnection : Type 0 where
  pub host : String
  pub port : Option ℕ
  pub username : Option String
  pub password : Option String
  pub db : Option ℕ
  pub tls : Bool

-- `text || undefined`.
abbrev pub unless_empty : String → Option String
unless_empty text = if text === "" then none else some text

-- `pathname.slice(1)`: a path begins with a slash.
abbrev after_slash : String → String
after_slash String.[] = ""
after_slash (String.◌∷◌ c rest) = rest

unfoldable pub redis_connection : (String → Option ℕ) → Url → RedisConnection
redis_connection to_number url = record {
  host = url.hostname;
  port = to_number (if url.port === "" then "6379" else url.port);
  username = unless_empty url.username;
  password = unless_empty url.password;
  db =
      if not (url.pathname === "") && not (url.pathname === "/")
      then to_number (after_slash url.pathname)
      else some 0;
  tls = url.protocol === "rediss:";
}
