-- ===== src/Replay/Whole.antt =====
-- The run of scripts/replay-dlq.mjs with the settings that it has loaded.
use cloud_code_execution_eng.Prelude.{
  sym, ◌∙◌, ◌++◌, ap, ℕ, ◌+◌, ◌<◌, ◌≡◌, refl, subst, String, Bool, true, false, Option, none, some,
  List, [], ◌∷◌, ◌===◌, length, Bool-cases, inl, inr, arith,
}
use cloud_code_execution_eng.Effect.{Result, ok, World, calm}
use cloud_code_execution_eng.Effect.Fallible.{bind-eq-ok, ok-injective}
use cloud_code_execution_eng.Common.Jobs.{QueueJobPayload}
use cloud_code_execution_eng.Redis.Connection.{Url}
use cloud_code_execution_eng.Redis.Streams.{KeyedQueues}
use cloud_code_execution_eng.Replay.{
  Letter, LetterState, states, failed, waiting, delayed, paused, LetterQueue, Counts, ReplayStore,
  fetch_jobs, replay_payload, replay_letter, replay_from,
}
use cloud_code_execution_eng.Replay.Settings.{
  ReplayEnv, ReplaySettings, ℤ, pos, negsuc, at_least_one, to_whole, require_env, load_settings,
}
use cloud_code_execution_eng.Replay.Fetch.{letters_in, fetch_jobs_lem}
use cloud_code_execution_eng.Replay.Account.{total, replay_from-IsCounted}

at_least_one-lt : (z : ℤ) → 0 < at_least_one z
at_least_one-lt (pos n) = omega arith
at_least_one-lt (negsuc n) = omega arith

-- Whatever the environment says, a batch holds a letter.
load_settings-sized :
    (parse_url : String → Result Url) (to_number : String → Option ℕ)
    (parse_int : String → Option ℤ) (env : ReplayEnv) (settings : ReplaySettings)
    → load_settings parse_url to_number parse_int env ≡ ok settings
    → 0 < settings.batch_size
unfolding load_settings
load_settings-sized parse_url to_number parse_int env settings e =
    let (value, _, e1) = bind-eq-ok (require_env "REDIS_URL" env.redis_url) _ settings e in
    let (url, _, e2) = bind-eq-ok (parse_url value) _ settings e1 in
    subst (λ (x : ReplaySettings). 0 < x.batch_size) (ok-injective e2)
      (at_least_one-lt (to_whole parse_url to_number parse_int env.dlq_batch_size 50))

module _ (q : KeyedQueues QueueJobPayload) (dlq : LetterQueue) (stamp : ℕ → String) where
  abbrev pub no_counts : Counts
  no_counts = record { recovered = 0; skipped = 0; failures = 0 }

  abbrev replay_found :
      Bool
      → Option (List Letter)
      → World (ReplayStore q dlq)
      → Option (Result Counts × World (ReplayStore q dlq))
  replay_found dry_run none w = none
  replay_found dry_run (some ls) w = some (replay_from q dlq dry_run stamp ls 0 no_counts w)

  -- The letters of the four states.
  abbrev pub all_letters : dlq.Db → List Letter
  all_letters db =
      dlq.letters failed db
      ++ (dlq.letters waiting db ++ (dlq.letters delayed db ++ (dlq.letters paused db ++ [])))

  -- None if the fuel does not last for the reading.
  unfoldable pub run :
      ℕ
      → ReplaySettings
      → World (ReplayStore q dlq)
      → Option (Result Counts × World (ReplayStore q dlq))
  run fuel settings w =
      replay_found settings.dry_run (fetch_jobs q dlq settings.batch_size fuel w.store.dead) w

  -- What a dry run and a real one reply and leave, when every call is answered.
  abbrev SameCounts :
      (World (ReplayStore q dlq) → Result Counts × World (ReplayStore q dlq))
      → (World (ReplayStore q dlq) → Result Counts × World (ReplayStore q dlq))
      → ReplayStore q dlq
      → Type 0
  SameCounts dry wet s =
      (c : Counts) × ((d : ReplayStore q dlq) → dry (calm d) ≡ (ok c, calm d))
      × (t : ReplayStore q dlq) × (wet (calm s) ≡ (ok c, calm t))

  replay_payload-same :
      (id : String) (payload : Option QueueJobPayload) (n : ℕ) (c : Counts) (s : ReplayStore q dlq)
      → SameCounts
          (replay_payload q dlq true stamp id payload n c)
          (replay_payload q dlq false stamp id payload n c)
          s
  replay_payload-same id none n c s = (_, λ d. refl, s, refl)
  replay_payload-same id (some payload) n c s = elim (Bool-cases (payload.job_id === "")) [
    | inl nameless ↦ rw nameless (_, λ d. refl, s, refl)
    | inr named ↦ rw named (_, λ d. refl, _, refl)
  ]

  replay_from-same :
      (ls : List Letter) (n : ℕ) (c : Counts) (s : ReplayStore q dlq)
      → SameCounts (replay_from q dlq true stamp ls n c) (replay_from q dlq false stamp ls n c) s
  unfolding replay_from replay_letter
  replay_from-same [] n c s = (c, λ d. refl, s, refl)
  replay_from-same (l ∷ ls) n c s =
      let (c1, dry, t, wet) = replay_payload-same l.id l.payload n c s in
      let (c2, dries, t2, wets) = replay_from-same ls (n + 1) c1 t in
      (c2, λ d. rw (dry d) (dries d), t2, rw wet wets)

  -- With loaded settings and fuel for more rounds than any state has letters, if every call is
  -- answered, a run ends, and a dry run leaves the queues as they are and counts what the real run
  -- counts, which is each letter once.
  pub run-predicts :
      (parse_url : String → Result Url) (to_number : String → Option ℕ)
      (parse_int : String → Option ℤ) (env : ReplayEnv) (settings : ReplaySettings) (fuel : ℕ)
      (s : ReplayStore q dlq)
      → load_settings parse_url to_number parse_int env ≡ ok settings
      → ((state : LetterState) → length (dlq.letters state s.dead) < fuel)
      → (c : Counts) × (t : ReplayStore q dlq) × (run fuel
            (record settings { dry_run = true })
            (calm s)
          ≡ some (ok c, calm s))
        × (run fuel (record settings { dry_run = false }) (calm s) ≡ some (ok c, calm t))
        × (total c ≡ length (all_letters s.dead))
  unfolding run
  run-predicts parse_url to_number parse_int env settings fuel s e enough =
      let sized = load_settings-sized parse_url to_number parse_int env settings e in
      let read = fetch_jobs_lem q dlq settings.batch_size sized s.dead fuel enough in
      let ls = letters_in q dlq settings.batch_size sized s.dead states in
      let (c, dry, t, wet) = replay_from-same ls 0 no_counts s in
      let (c', counted, sum) = replay_from-IsCounted q dlq stamp true ls 0 no_counts (calm s) in
      let same : c ≡ c' = ok-injective (sym (ap (λ r. r.0) (dry s)) ∙ counted) in
      let seen : total c' ≡ length ls = omega arith in
      rw read (c, t, ap (λ r. some r) (dry s), ap (λ r. some r) wet, ap total same ∙ seen)
