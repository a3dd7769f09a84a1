-- ===== src/Lib.antt =====
-- Cloud code execution engine: tenants submit programs in seven languages; the API takes them into a
-- queue, the worker runs them in docker or dispatches them to ECS, and the runner compiles and runs
-- one program inside its container. All three share Redis. This is a model of the TypeScript
-- services, with what makes them correct.
--
-- The parts, with the code that they model, and how they meet:
--   Common        packages/common/src/index.ts: requests and their schema, results, analyses, keys,
--                 tiers, costs, failure categories, the catalog of runtimes. All other parts use
--                 it.
--   Quota         services/api/src/quota.ts: the counters of active and daily jobs. The API reserves
--                 and rolls back; the worker and the runner release. Ledger is the contract over two
--                 numbers; Traces are all the services' scripts in any order.
--   Tenants       services/api/src/tenants.ts, and the registry of policies that index.ts builds.
--   Api           services/api/src. Of index.ts: Http and Headers (requests), Origins (CORS), Auth
--                 (authenticateTenant, requireAdmin), RateLimit (evaluateRateLimit), Submit
--                 (submitExecutionHandler), Jobs (serializeJob), Read (which jobs and events are
--                 shown), Events (the event stream of a job), Analyze (analyzeExecutionHandler),
--                 Overview (/v1/quotas, /v1/costs), Observability (getObservabilitySnapshot),
--                 Metrics (/metrics), Logs (the logs of a job), Hooks (onRequest, onResponse),
--                 QueueMetric (publishQueueDepthMetric), Settings (parseAdminKeys and
--                 readStringClaim),
--                 Burst, Runbook and AdminMetrics (under /v1/admin). Analysis is analysis.ts, and
--                 Config is config.ts. Http holds audit.ts and request-guards.ts too.
--   Worker        services/worker/src: Records and Endings (store.ts), Ecs (runners/ecs-runner.ts),
--                 Local (runners/local-runner.ts), Process (index.ts, queue-metrics.ts), Config
--                 (config.ts). Attempts is what the network may lose of an attempt.
--   Runner        services/runner/src: Plans and Scan (language-profiles.ts), Execute and Persist
--                 (index.ts). Truncate and Decode are the truncation and Buffer.toString("utf8"), by
--                 which runner and worker read the chunks of an output.
--   Replay        scripts/replay-dlq.mjs: moves the dead letters that the worker left behind back
--                 into the queue of jobs. Settings is what it takes from the environment.
--   Telemetry     services/api/src/telemetry.ts and services/worker/src/telemetry.ts.
--   Journey       one job from the API through the worker to the tenant's look at its result.
--
-- How the code is translated. Asynchronous code is a function from a world to a result and a world
-- (Effect): the world holds the store and a list that says what happens to each remote call in turn
-- - delivered, dropped, or done with its answer lost - so that every point of failure can be looked
-- at. Redis, the queues, floating-point numbers and JSON are parameters with their documented laws
-- (Redis, Floats, Services), which Witnesses/Setting.antt and FixedPoint.antt show can hold; BullMQ
-- ignores a job whose id it knows, which matters where ids come again, in Replay. Child
-- processes, the ECS client, the chat endpoint, JWT verification, base64, toLowerCase and, in the
-- worker, trim are parameters too, and so is each reading of the clock. A Redis script is one step.
-- Numbers are naturals: the schemas ask for integers, and no counter is lowered below 0. Loops are
-- structural but for two over batches: the fuel of the burst is its count, and that of fetchJobs is
-- more than the letters of any state.
--
-- Not modelled: the pages, the texts of the routes that never change and the wiring of the API's
-- server, which only ask OpenTelemetry, Fastify and BullMQ; the settings of the queues and of the
-- worker's metric, which are plain values here; timers and shutdown; the infrastructure.
pub mod Journey
pub mod Prelude
pub mod Floats
pub mod FixedPoint
pub mod Common
pub mod Decode
pub mod Effect
pub mod Truncate
pub mod Redis
pub mod Tenants
pub mod Quota
pub mod Services
pub mod Worker
pub mod Runner
pub mod Replay
pub mod Telemetry
pub mod Api
pub mod Witnesses
