-- ===== src/Api/Analyze/Kept.antt =====
-- What analyzeExecutionHandler of services/api/src/index.ts leaves behind.
use cloud_code_execution_eng.Prelude.{
  eq_iff, Bool-cases, inl, inr, ◌⊎◌, ℕ, ◌≡◌, refl, ◌∙◌, String, true, false, Option, some, [], ◌∷◌,
  ◌===◌,
}
use cloud_code_execution_eng.Effect.{Result, ok, calm}
use cloud_code_execution_eng.Common.Keys.{redis_job_key}
use cloud_code_execution_eng.Common.Analysis.{ExecutionAnalysis, IsAnalysis}
use cloud_code_execution_eng.Redis.HashLaws.{hget-hset_own}
use cloud_code_execution_eng.Redis.Streams.{text}
use cloud_code_execution_eng.Services.{Services, Store}
use cloud_code_execution_eng.Api.Http.{Response, Request}
use cloud_code_execution_eng.Api.Auth.{Gate, passes, replies}
use cloud_code_execution_eng.Api.Jobs.{Fields, is_own}
use cloud_code_execution_eng.Api.Analysis.{AnalysisOutput, provider_name, AnalysisRuntimeConfig}
use cloud_code_execution_eng.Api.Analysis.Model.{Decoded, ChatResponse}
use cloud_code_execution_eng.Api.Analysis.Outcome.{generate_execution_analysis-IsAnalysis}
use cloud_code_execution_eng.Api.Analyze.{
  AnalyzedJob, analysis_input, analysis_updates, analyze_execution,
}

module _ (sv : Services) (schema_error : ExecutionAnalysis → String)
    (decode : String → Result Decoded) (clock : ℕ → String)
    (respond : String → ℕ → Result ChatResponse) (audit_stream_key tenant_id now : String)
    (max_source_chars : ℕ) (config : AnalysisRuntimeConfig) (request : Request) (job_id : String)
    (s : Store sv) where
  abbrev pub analyzed : Result (Gate AnalyzedJob) × Store sv
  analyzed =
      let r =
        analyze_execution sv schema_error decode clock respond audit_stream_key tenant_id now
          max_source_chars config request (some job_id) (calm s) in
      (r.0, r.1.store)

  abbrev pub field : String → Store sv → Option String
  field f t = sv.hashes.hget (redis_job_key job_id) f t.hashes

  abbrev pub before : Fields
  before f = field f s

  -- The analysis that is replied satisfies the schema and is kept with the job, whose other fields
  -- are as they were.
  pub record IsKept (output : AnalysisOutput) (r : Result (Gate AnalyzedJob) × Store sv)
      : Type 0 where
    pub answer :
        r.0 ≡ ok (passes (record { job_id = job_id; status = before "status"; output = output }) [])
    pub fits : IsAnalysis output.analysis
    pub analysis : field "analysis" r.1 ≡ some (sv.stringify_analysis output.analysis)
    pub provider : field "analysisProvider" r.1 ≡ some (provider_name output.provider)
    pub status : field "status" r.1 ≡ before "status"
    pub result : field "result" r.1 ≡ before "result"
    pub owner : field "tenantId" r.1 ≡ before "tenantId"
    pub other_jobs :
        (k f : String)
        → (redis_job_key job_id ≡ k) ⊎ (sv.hashes.hget k f r.1.hashes ≡ sv.hashes.hget k f s.hashes)
    pub counters : r.1.counters ≡ s.counters
    pub queue : r.1.queue ≡ s.queue

  -- When every call is answered, an analysis of the tenant's own job is replied, satisfies the
  -- schema and is kept with the job; its status, result and owner, all other jobs, the counters
  -- and the queue are as before. For any other job the reply is 404 and nothing changes.
  pub analyze_execution-IsKept :
      ((is_own tenant_id before ≡ true) × ((output : AnalysisOutput) × IsKept output analyzed))
      ⊎ ((is_own tenant_id before ≡ false)
          × ((response : Response) × (analyzed ≡ (ok (replies response), s))
              × (response.code ≡ 404)))
  unfolding analyze_execution
  analyze_execution-IsKept = elim (Bool-cases (is_own tenant_id before)) [
    | inl own ↦ inl (own, kept own)
    | inr other ↦ inr (other, refused_with other)
  ]
    where
      kept_elsewhere :
          (output : AnalysisOutput) (k f : String)
          → (redis_job_key job_id ≡ k)
            ⊎ (sv.hashes.hget k f
                  (sv.hashes.hset (redis_job_key job_id) (analysis_updates sv output now) s.hashes)
                ≡ sv.hashes.hget k f s.hashes)
      kept_elsewhere output k f = elim (Bool-cases (redis_job_key job_id === k)) [
        | inl same ↦ inl ((eq_iff (redis_job_key job_id) k).0 same)
        | inr differ ↦ inr (
            sv.hashes.hget-hset (redis_job_key job_id) k f (analysis_updates sv output now) s.hashes
            ∙ rw differ refl)
      ]

      kept : (is_own tenant_id before ≡ true) → (output : AnalysisOutput) × IsKept output analyzed
      kept own =
          let (output, effort, e, fits) =
            generate_execution_analysis-IsAnalysis schema_error decode clock respond
              (analysis_input sv max_source_chars before) config in
          let after = λ (f : String).
            hget-hset_own sv.hashes (redis_job_key job_id) f (analysis_updates sv output now)
              s.hashes in
          (
            output,
            rw (own, e)
                (record {
                  answer = refl;
                  fits = fits;
                  analysis = after "analysis";
                  provider = after "analysisProvider";
                  status = after "status";
                  result = after "result";
                  owner = after "tenantId";
                  other_jobs = kept_elsewhere output;
                  counters = refl;
                  queue = refl;
                }),
          )

      refused_with :
          (is_own tenant_id before ≡ false)
          → (response : Response) × (analyzed ≡ (ok (replies response), s)) × (response.code ≡ 404)
      refused_with other = (
        record {
          code = 404;
          headers = [];
          body = ("error", text "not_found") ∷ ("traceId", text request.trace_id) ∷ [];
        },
        rw other refl,
        refl,
      )
