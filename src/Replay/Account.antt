-- ===== src/Replay/Account.antt =====
-- What scripts/replay-dlq.mjs does to the queues, and how it counts.
use mathlib.Core.List.{append_assoc, append-nil}
use cloud_code_execution_eng.Prelude.{
  subst, eq_refl, ℕ, suc, ◌+◌, ◌≡◌, refl, sym, ap, ◌∙◌, String, Bool, true, false, not, Option,
  none, some, List, [], ◌∷◌, ◌++◌, ◌===◌, length, keep, All, Bool-cases, inl, inr, arith,
}
use cloud_code_execution_eng.Effect.{
  Delivery, delivered, dropped, unacknowledged, Result, ok, World, calm,
}
use cloud_code_execution_eng.Common.Jobs.{QueueJobPayload}
use cloud_code_execution_eng.Redis.Streams.{KeyedQueues}
use cloud_code_execution_eng.Replay.{
  Letter, LetterState, LetterQueue, Counts, ReplayStore, target_job_id, move, replay_payload,
  replay_letter, replay_from,
}

abbrev pub total : Counts → ℕ
total c = c.recovered + c.skipped + c.failures

module _ (q : KeyedQueues QueueJobPayload) (dlq : LetterQueue) (stamp : ℕ → String) where
  abbrev pub IsCounted : Counts → ℕ → Result Counts → Type 0
  IsCounted c n r = (c' : Counts) × (r ≡ ok c') × (total c' ≡ total c + n)

  module _ (dry_run : Bool) where
    move-IsCounted :
        (id : String) (payload : QueueJobPayload) (n : ℕ) (c : Counts) (net : List Delivery)
        (s : ReplayStore q dlq)
        → IsCounted c 1
            (move q dlq dry_run stamp id payload n c (record { net = net; store = s })).0
    move-IsCounted id payload n c [] s = (_, refl, omega arith)
    move-IsCounted id payload n c (delivered ∷ []) s = (_, refl, omega arith)
    move-IsCounted id payload n c (delivered ∷ delivered ∷ net) s = (_, refl, omega arith)
    move-IsCounted id payload n c (delivered ∷ dropped m ∷ net) s = (_, refl, omega arith)
    move-IsCounted id payload n c (delivered ∷ unacknowledged m ∷ net) s = (_, refl, omega arith)
    move-IsCounted id payload n c (dropped m ∷ net) s = (_, refl, omega arith)
    move-IsCounted id payload n c (unacknowledged m ∷ net) s = (_, refl, omega arith)

    replay_payload-IsCounted :
        (id : String) (payload : Option QueueJobPayload) (n : ℕ) (c : Counts)
        (w : World (ReplayStore q dlq))
        → IsCounted c 1 (replay_payload q dlq dry_run stamp id payload n c w).0
    replay_payload-IsCounted id none n c w = (_, refl, omega arith)
    replay_payload-IsCounted id (some payload) n c w = elim (Bool-cases (payload.job_id === "")) [
      | inl nameless ↦ rw nameless (_, refl, omega arith)
      | inr named ↦ elim (Bool-cases dry_run) [
        | inl dry ↦ rw (named, dry) (_, refl, omega arith)
        | inr wet ↦ rw (named, wet) (move-IsCounted id payload n c w.net w.store)
      ]
    ]

    replay_letter-IsCounted :
        (l : Letter) (n : ℕ) (c : Counts) (w : World (ReplayStore q dlq))
        → IsCounted c 1 (replay_letter q dlq dry_run stamp l n c w).0
    unfolding replay_letter
    replay_letter-IsCounted l n c w = replay_payload-IsCounted l.id l.payload n c w

    -- Whatever the network loses, the script ends, and every letter that was read is counted once,
    -- as recovered, skipped or failed.
    pub replay_from-IsCounted :
        (ls : List Letter) (n : ℕ) (c : Counts) (w : World (ReplayStore q dlq))
        → IsCounted c (length ls) (replay_from q dlq dry_run stamp ls n c w).0
    unfolding replay_from
    replay_from-IsCounted [] n c w = (c, refl, omega arith)
    replay_from-IsCounted (l ∷ ls) n c w =
        let (c1, e1, t1) = replay_letter-IsCounted l n c w in
        let (c2, e2, t2) =
          replay_from-IsCounted ls (n + 1) c1 (replay_letter q dlq dry_run stamp l n c w).1 in
        (c2, rw e1 e2, omega arith)

  replay_letter-dry :
      (l : Letter) (n : ℕ) (c : Counts) (w : World (ReplayStore q dlq))
      → (replay_letter q dlq true stamp l n c w).1 ≡ w
  unfolding replay_letter
  replay_letter-dry l n c w = dry_payload l.id l.payload
    where
      dry_payload :
          (id : String) (payload : Option QueueJobPayload)
          → (replay_payload q dlq true stamp id payload n c w).1 ≡ w
      dry_payload id none = refl
      dry_payload id (some payload) = elim (Bool-cases (payload.job_id === "")) [
        | inl nameless ↦ rw nameless refl
        | inr named ↦ rw named refl
      ]

  -- A dry run makes no call and changes neither queue.
  pub replay_from-dry :
      (ls : List Letter) (n : ℕ) (c : Counts) (w : World (ReplayStore q dlq))
      → (replay_from q dlq true stamp ls n c w).1 ≡ w
  unfolding replay_from
  replay_from-dry [] n c w = refl
  replay_from-dry (l ∷ ls) n c w =
      let (c1, e1, t1) = replay_letter-IsCounted true l n c w in
      rw (e1, replay_letter-dry l n c w) (replay_from-dry ls (n + 1) c1 w)

  -- A letter that the script can replay.
  abbrev pub IsReplayable : Letter → Type 0
  IsReplayable l = (p : QueueJobPayload) × (l.payload ≡ some p) × ((p.job_id === "") ≡ false)

  -- The jobs that are added for these letters, in their order.
  abbrev jobs_of : Option QueueJobPayload → ℕ → List (String × QueueJobPayload)
  jobs_of none n = []
  jobs_of (some p) n = (target_job_id q dlq false stamp p n, p) ∷ []

  abbrev pub requeued : List Letter → ℕ → List (String × QueueJobPayload)
  requeued [] n = []
  requeued (l ∷ ls) n = jobs_of l.payload n ++ requeued ls (n + 1)

  -- The letters that are left when those with the ids of `ls` are taken out.
  abbrev pub without : List Letter → List Letter → List Letter
  without [] xs = xs
  without (l ∷ ls) xs = without ls (keep (λ x. not (x.id === l.id)) xs)

  pub record IsMoved (ls : List Letter) (n : ℕ) (s t : ReplayStore q dlq) : Type 0 where
    pub added : q.waiting t.main ≡ q.waiting s.main ++ requeued ls n
    pub removed :
        (state : LetterState) → dlq.letters state t.dead ≡ without ls (dlq.letters state s.dead)

  -- The queue knows none of the ids, and no two of them are the same.
  abbrev pub AreNew : q.Db → List (String × QueueJobPayload) → Type 0
  AreNew db [] = Unit
  AreNew db ((id, p) ∷ jobs) =
      (q.has id db ≡ false)
      × All (λ (j : String × QueueJobPayload). (id === j.0) ≡ false) jobs
      × AreNew db jobs

  AreNew-add :
      (id : String) (p : QueueJobPayload) (db : q.Db) (jobs : List (String × QueueJobPayload))
      → All (λ (j : String × QueueJobPayload). (id === j.0) ≡ false) jobs
      → AreNew db jobs
      → AreNew (q.add id p db) jobs
  AreNew-add id p db [] others new = tt
  AreNew-add id p db ((j, r) ∷ jobs) (other, others) (unknown, apart, new) =
      (q.has-add id j p db ∙ rw (other, unknown) refl, apart, AreNew-add id p db jobs others new)

  moved : Letter → QueueJobPayload → ℕ → ReplayStore q dlq → ReplayStore q dlq
  moved l p n s = record {
    main = q.add (target_job_id q dlq false stamp p n) p s.main;
    dead = dlq.remove l.id s.dead;
  }

  replay_letter-moved :
      (l : Letter) (p : QueueJobPayload) (n : ℕ) (c : Counts) (s : ReplayStore q dlq)
      → l.payload ≡ some p
      → (p.job_id === "") ≡ false
      → replay_letter q dlq false stamp l n c (calm s)
        ≡ (ok (record c { recovered = c.recovered + 1 }), calm (moved l p n s))
  unfolding replay_letter moved
  replay_letter-moved l p n c s e named =
      ap (λ o. replay_payload q dlq false stamp l.id o n c (calm s)) e ∙ replayed
    where
      replayed :
          replay_payload q dlq false stamp l.id (some p) n c (calm s)
          ≡ (ok (record c { recovered = c.recovered + 1 }), calm (moved l p n s))
      replayed = rw named refl

  -- If every call is answered, every letter has a payload with an id, and the ids that the jobs
  -- get are unknown to the main queue and no two of them are the same, all letters are counted as
  -- recovered, their jobs stand at the end of the main queue in the order of the letters, and the
  -- letters are no longer in the dead letter queue.
  pub replay_from-IsMoved :
      (ls : List Letter) (n : ℕ) (c : Counts) (s : ReplayStore q dlq)
      → All IsReplayable ls
      → AreNew s.main (requeued ls n)
      → (t : ReplayStore q dlq) × (replay_from q dlq false stamp ls n c (calm s)
          ≡ (ok (record c { recovered = c.recovered + length ls }), calm t))
        × IsMoved ls n s t
  unfolding replay_from moved
  replay_from-IsMoved [] n c s h new =
      let same : c.recovered ≡ c.recovered + 0 = omega arith in
      (
        s,
        ap (λ k. (ok (record c { recovered = k }), calm s)) same,
        record { added = sym (append-nil (q.waiting s.main)); removed = λ state. refl },
      )
  replay_from-IsMoved (l ∷ ls) n c s ((p, e, named), h) new =
      let id = target_job_id q dlq false stamp p n in
      let (unknown, apart, later) =
        subst (λ o. AreNew s.main (jobs_of o n ++ requeued ls (n + 1))) e new in
      let (t, ran, m) =
        replay_from-IsMoved ls (n + 1) (record c { recovered = c.recovered + 1 }) (moved l p n s) h
          (AreNew-add id p s.main (requeued ls (n + 1)) apart later) in
      let sum : c.recovered + 1 + length ls ≡ c.recovered + suc (length ls) = omega arith in
      let first = (id, p) ∷ [] in
      (
        t,
        rw (replay_letter-moved l p n c s e named)
            (ran ∙ ap (λ k. (ok (record c { recovered = k }), calm t)) sum),
        record {
          added =
              m.added
              ∙ ap (λ jobs. jobs ++ requeued ls (n + 1))
                  (q.waiting-add id p s.main ∙ rw unknown refl)
              ∙ append_assoc (q.waiting s.main) first (requeued ls (n + 1))
              ∙ ap (λ o. q.waiting s.main ++ (jobs_of o n ++ requeued ls (n + 1))) (sym e);
          removed =
              λ state. m.removed state ∙ ap (without ls) (dlq.letters-remove state l.id s.dead);
        },
      )

  -- If every call is answered, of two letters of one job that are read in the same millisecond both
  -- are counted as recovered, and the main queue gets one job.
  pub replay_from-loses :
      (l k : Letter) (p r : QueueJobPayload) (n : ℕ) (c : Counts) (s : ReplayStore q dlq)
      → l.payload ≡ some p
      → k.payload ≡ some r
      → (p.job_id === "") ≡ false
      → r.job_id ≡ p.job_id
      → stamp (n + 1) ≡ stamp n
      → q.has (target_job_id q dlq false stamp p n) s.main ≡ false
      → (t : ReplayStore q dlq) × (replay_from q dlq false stamp (l ∷ k ∷ []) n c (calm s)
          ≡ (ok (record c { recovered = c.recovered + 1 + 1 }), calm t))
        × (q.waiting t.main ≡ q.waiting s.main ++ (target_job_id q dlq false stamp p n, p) ∷ [])
  unfolding replay_from moved
  replay_from-loses l k p r n c s el ek named same_job same_time unknown =
      let id = target_job_id q dlq false stamp p n in
      let first = replay_letter-moved l p n c s el named in
      let named' : (r.job_id === "") ≡ false = rw same_job named in
      let c1 = record c { recovered = c.recovered + 1 } in
      let second = replay_letter-moved k r (n + 1) c1 (moved l p n s) ek named' in
      let one_id : target_job_id q dlq false stamp r (n + 1) ≡ id = rw (same_job, same_time) refl in
      let known : q.has id (q.add id p s.main) ≡ true =
        q.has-add id id p s.main ∙ rw (eq_refl id) refl in
      (
        moved k r (n + 1) (moved l p n s),
        rw (first, second) refl,
        ap (λ j. q.waiting (q.add j r (q.add id p s.main))) one_id
            ∙ q.waiting-add id r (q.add id p s.main)
            ∙ rw known (q.waiting-add id p s.main ∙ rw unknown refl),
      )
