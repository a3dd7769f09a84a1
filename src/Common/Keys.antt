-- ===== src/Common/Keys.antt =====
-- packages/common/src/index.ts: the names of the Redis keys, as the texts that the code builds.
pub mod Distinct
use Prim.Native.String.{◌++◌}
use cloud_code_execution_eng.Prelude.{String}

unfoldable pub redis_job_key : String → String
redis_job_key job_id = "job:" ++ job_id

unfoldable pub tenant_active_jobs_key : String → String
tenant_active_jobs_key tenant_id = "tenant:" ++ (tenant_id ++ ":active_jobs")

unfoldable pub tenant_daily_jobs_key : String → String → String
tenant_daily_jobs_key tenant_id date_key = "tenant:" ++ (tenant_id ++ (":daily_jobs:" ++ date_key))

unfoldable pub tenant_daily_cost_key : String → String → String
tenant_daily_cost_key tenant_id date_key = "tenant:" ++ (tenant_id ++ (":daily_cost:" ++ date_key))

unfoldable pub tenant_job_history_key : String → String
tenant_job_history_key tenant_id = "tenant:" ++ (tenant_id ++ ":job_history")

unfoldable pub tenant_rate_limit_key : String → String → String
tenant_rate_limit_key tenant_id window_key =
    "tenant:" ++ (tenant_id ++ (":rate_limit:" ++ window_key))

unfoldable pub tenant_submit_rate_limit_key : String → String → String
tenant_submit_rate_limit_key tenant_id window_key =
    "tenant:" ++ (tenant_id ++ (":submit_rate_limit:" ++ window_key))
