-- ===== src/Replay/Twice.antt =====
-- Two runs of scripts/replay-dlq.mjs, the first of which loses the call that removes a letter.
use mathlib.Core.List.{append_assoc}
use cloud_code_execution_eng.Prelude.{
  ℕ, ◌+◌, ◌<◌, ◌≡◌, refl, ap, ◌∙◌, String, false, some, [], ◌∷◌, ◌++◌, ◌===◌, length, arith,
}
use cloud_code_execution_eng.Effect.{ok, calm, delivered, dropped}
use cloud_code_execution_eng.Common.Jobs.{QueueJobPayload}
use cloud_code_execution_eng.Redis.Streams.{KeyedQueues}
use cloud_code_execution_eng.Replay.{
  Letter, LetterState, failed, waiting, delayed, paused, LetterQueue, Counts, ReplayStore,
  target_job_id, fetch_jobs, replay_letter, replay_from,
}
use cloud_code_execution_eng.Replay.Settings.{ReplaySettings}
use cloud_code_execution_eng.Replay.Fetch.{fetch_jobs_lem}
use cloud_code_execution_eng.Replay.Account.{replay_from-IsMoved}
use cloud_code_execution_eng.Replay.Whole.{no_counts, run}

module _ (q : KeyedQueues QueueJobPayload) (dlq : LetterQueue) where
  -- The dead letter queue holds one letter, which failed.
  pub record HoldsOne (l : Letter) (db : dlq.Db) : Type 0 where
    pub in_failed : dlq.letters failed db ≡ l ∷ []
    pub in_waiting : dlq.letters waiting db ≡ []
    pub in_delayed : dlq.letters delayed db ≡ []
    pub in_paused : dlq.letters paused db ≡ []

  fetch_jobs-one :
      (batch_size fuel : ℕ) (l : Letter) (db : dlq.Db)
      → 0 < batch_size
      → 1 < fuel
      → HoldsOne l db
      → fetch_jobs q dlq batch_size fuel db ≡ some (l ∷ [])
  fetch_jobs-one batch_size fuel l db sized more one =
      fetch_jobs_lem q dlq batch_size sized db fuel few
      ∙ rw (one.in_failed, one.in_waiting, one.in_delayed, one.in_paused) refl
    where
      few : (state : LetterState) → length (dlq.letters state db) < fuel
      few failed = rw one.in_failed (omega arith)
      few waiting = rw one.in_waiting (omega arith)
      few delayed = rw one.in_delayed (omega arith)
      few paused = rw one.in_paused (omega arith)

  removal_lost :
      (stamp : ℕ → String) (l : Letter) (p : QueueJobPayload) (c : Counts) (s : ReplayStore q dlq)
      (message : String)
      → l.payload ≡ some p
      → (p.job_id === "") ≡ false
      → replay_from q dlq false stamp
          (l ∷ [])
          0
          c
          (record { net = delivered ∷ dropped message ∷ []; store = s })
        ≡ (
          ok (record c { failures = c.failures + 1 }),
          calm (record s { main = q.add (target_job_id q dlq false stamp p 0) p s.main }),
        )
  unfolding replay_from replay_letter
  removal_lost stamp l p c s message e named = rw (e, named) refl

  -- With a batch that holds a letter and no dry run, if one letter, with a payload that has an id,
  -- failed and no other is there, and the ids of the two runs are unknown to the main queue and
  -- different, then a first run that loses the call which removes the letter counts it as failed,
  -- and a second run, with every call answered, counts it as recovered, and the main queue has the
  -- job twice.
  pub run-duplicates :
      (first later : ℕ → String) (settings : ReplaySettings) (fuel : ℕ) (l : Letter)
      (p : QueueJobPayload) (s : ReplayStore q dlq) (message : String)
      → settings.dry_run ≡ false
      → 0 < settings.batch_size
      → 1 < fuel
      → HoldsOne l s.dead
      → l.payload ≡ some p
      → (p.job_id === "") ≡ false
      → q.has (target_job_id q dlq false first p 0) s.main ≡ false
      → q.has (target_job_id q dlq false later p 0) s.main ≡ false
      → (target_job_id q dlq false first p 0 === target_job_id q dlq false later p 0) ≡ false
      → (t : ReplayStore q dlq) × (u : ReplayStore q dlq) × (run q dlq first fuel settings
            (record { net = delivered ∷ dropped message ∷ []; store = s })
          ≡ some (ok (record { recovered = 0; skipped = 0; failures = 1 }), calm t))
        × (run q dlq later fuel settings (calm t)
            ≡ some (ok (record { recovered = 1; skipped = 0; failures = 0 }), calm u))
        × (q.waiting u.main
            ≡ q.waiting s.main
              ++ ((target_job_id q dlq false first p 0, p)
                  ∷ (target_job_id q dlq false later p 0, p)
                  ∷ []))
  unfolding run
  run-duplicates first later settings fuel l p s message wet sized more one e named unknown unknown'
        apart =
      let id = target_job_id q dlq false first p 0 in
      let id' = target_job_id q dlq false later p 0 in
      let read = fetch_jobs-one settings.batch_size fuel l s.dead sized more one in
      let t : ReplayStore q dlq = record s { main = q.add id p s.main } in
      let lost = removal_lost first l p (no_counts q dlq first) s message e named in
      let new : q.has id' t.main ≡ false = q.has-add id id' p s.main ∙ rw (apart, unknown') refl in
      let (u, ran, moved) =
        replay_from-IsMoved q dlq later (l ∷ []) 0 (no_counts q dlq later) t ((p, e, named), tt)
          (rw e (new, tt, tt)) in
      (
        t,
        u,
        rw (read, wet, lost) refl,
        rw (read, wet, ran) refl,
        moved.added
            ∙ rw e (
                ap (λ jobs. jobs ++ (id', p) ∷ []) (q.waiting-add id p s.main ∙ rw unknown refl)
                ∙ append_assoc (q.waiting s.main) ((id, p) ∷ []) ((id', p) ∷ [])),
      )
