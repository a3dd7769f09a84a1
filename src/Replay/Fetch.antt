-- ===== src/Replay/Fetch.antt =====
-- The batches in which scripts/replay-dlq.mjs reads the dead letters.
use cloud_code_execution_eng.Prelude.{
  ℕ, zero, suc, ◌+◌, ◌-◌, ◌<◌, ◌≡◌, refl, sym, ap, ◌∙◌, some, List, [], ◌∷◌, ◌++◌, ltb, ◌==◌,
  length, take, drop, length-take, length-drop, take-drop, take-all, drop-drop, Bool-cases, inl,
  inr, arith,
}
use cloud_code_execution_eng.Common.Jobs.{QueueJobPayload}
use cloud_code_execution_eng.Redis.Streams.{KeyedQueues}
use cloud_code_execution_eng.Replay.{
  Letter, LetterState, states, LetterQueue, fetch_state, fetch_states, fetch_jobs,
}

nil_of_length : (ls : List Letter) → length ls ≡ 0 → ls ≡ []
nil_of_length [] h = refl
nil_of_length (l ∷ ls) h = absurd (omega arith)

module _ (q : KeyedQueues QueueJobPayload) (dlq : LetterQueue) (batch_size : ℕ)
    (sized : 0 < batch_size) (db : dlq.Db) where
  module _ (state : LetterState) (start : ℕ) where
    abbrev left : List Letter
    left = drop start (dlq.letters state db)

    get_jobs-take : dlq.get_jobs state start (start + batch_size - 1) db ≡ take batch_size left
    get_jobs-take =
        let size : suc (start + batch_size - 1) - start ≡ batch_size = omega arith in
        dlq.get_jobs_lem state start (start + batch_size - 1) db ∙ ap (λ n. take n left) size

  fetch_state_lem :
      (fuel : ℕ) (state : LetterState) (start : ℕ)
      → length (left state start) < fuel
      → fetch_state q dlq batch_size fuel state start db ≡ some (left state start)
  unfolding fetch_state
  fetch_state_lem zero state start enough = elim enough [ ]
  fetch_state_lem (suc fuel) state start enough =
      elim (Bool-cases (length (take batch_size (left state start)) == 0)) [
        | inl empty ↦
            rw (get_jobs-take state start, empty)
              (let none_left : length (left state start) ≡ 0 =
                  ground (arith, length-take batch_size (left state start)) in
                ap (λ ls. some ls) (sym (nil_of_length (left state start) none_left)))
        | inr more ↦
            elim (Bool-cases (ltb (length (take batch_size (left state start))) batch_size)) [
              | inl short ↦
                  rw (get_jobs-take state start, more, short)
                    (ap (λ ls. some ls)
                      (take-all batch_size (left state start)
                        (ground (arith, length-take batch_size (left state start)))))
              | inr full ↦
                  rw
                    (
                      get_jobs-take state start,
                      more,
                      full,
                      fetch_state_lem fuel state (start + batch_size) (
                          ground (
                            arith,
                            length-take batch_size (left state start),
                            length-drop (start + batch_size) (dlq.letters state db),
                            length-drop start (dlq.letters state db),
                          )),
                    )
                    (ap (λ ls. some (take batch_size (left state start) ++ ls))
                        (sym (
                          drop-drop start batch_size (start + batch_size) (dlq.letters state db)
                            refl))
                      ∙ ap (λ ls. some ls) (take-drop batch_size (left state start)))
            ]
      ]

  -- The letters of some states, one state after the other.
  abbrev pub letters_in : List LetterState → List Letter
  letters_in [] = []
  letters_in (state ∷ more) = dlq.letters state db ++ letters_in more

  module _ (fuel : ℕ) (enough : (state : LetterState) → length (dlq.letters state db) < fuel) where
    fetch_states_lem :
        (more : List LetterState)
        → fetch_states q dlq batch_size fuel more db ≡ some (letters_in more)
    unfolding fetch_states
    fetch_states_lem [] = refl
    fetch_states_lem (state ∷ more) =
        rw (fetch_state_lem fuel state 0 (enough state), fetch_states_lem more) refl

    -- For a batch size that is not 0, if no other client changes the queue, the loops end, after
    -- at most one round more than there are letters in the largest state, and give every letter
    -- that failed, waits, is delayed or is paused, once and in that order.
    pub fetch_jobs_lem : fetch_jobs q dlq batch_size fuel db ≡ some (letters_in states)
    unfolding fetch_jobs
    fetch_jobs_lem = fetch_states_lem states
