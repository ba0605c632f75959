-- ===== src/Workers/Queue.antt =====
-- `JobQueue` and `SqsJobQueue` of apps/api/app/workers/queue.py. A handler is awaited with the
-- table it finds, and gives back the table it and others have left. The heartbeat thread is one of
-- the others. `dispatch` is `_after_enqueue`: none, or the text of the exception it raised.
pub mod Recorded
use guru_ji.Prelude.{
  ℕ, String, Bool, true, false, Option, none, some, List, [], ◌∷◌, ◌++◌, if◌then◌else◌, ◌==◌,
  string_eq, nat_eq, contains, suc,
}
use guru_ji.Domain.Text.{text_take}
use guru_ji.InstitutionData.Jobs.{
  Job, JobStatus, succeeded, failed, enqueue_background_job, claim_background_job,
  claim_background_jobs, requeue_stale_background_jobs, finish_background_job,
}

pub data HandlerEnd (J : Type 0) : Type 0 where
  finished : J → HandlerEnd J
  raised : String → HandlerEnd J

pub record Report : Type 0 where
  pub job_id : String
  pub status : JobStatus
  pub error : Option String

module _ {J : Type 0} where
  -- `int(job.get("attempts") or 1)`
  abbrev pub attempt_of : Job J → ℕ
  attempt_of j = if j.attempts == 0 then 1 else j.attempts

  abbrev pub table_of : List (Job J) → Option (Bool × List (Job J)) → List (Job J)
  table_of t none = t
  table_of t (some (b, after)) = after

  -- What `run_job` does when its handler has ended.
  unfoldable pub record_end : Job J → HandlerEnd J → ℕ → List (Job J) → Report × List (Job J)
  record_end j (finished r) now t = (
    record { job_id = j.job_id; status = succeeded; error = none },
    table_of t (finish_background_job j.job_id succeeded (some r) none (some (attempt_of j)) now t),
  )
  record_end j (raised e) now t = (
    record { job_id = j.job_id; status = failed; error = some (text_take 500 e) },
    table_of t (
        finish_background_job j.job_id failed none (some (text_take 500 e)) (some (attempt_of j))
          now t),
  )

  unfoldable pub run_job :
      List String
      → (Job J → ℕ → List (Job J) → HandlerEnd J × List (Job J))
      → Job J
      → ℕ
      → List (Job J)
      → Report × List (Job J)
  unfolding record_end
  run_job handlers handler j now t =
      if contains handlers j.job_type
      then (let (o, after) = handler j (attempt_of j) t in record_end j o now after)
      else (
        record { job_id = j.job_id; status = failed; error = none },
        table_of t
            (finish_background_job j.job_id failed none (some "no handler registered") none now t),
      )

  unfoldable pub run_each :
      List String
      → (Job J → ℕ → List (Job J) → HandlerEnd J × List (Job J))
      → List (Job J)
      → ℕ
      → List (Job J)
      → ℕ × List (Job J)
  unfolding run_job
  run_each handlers handler [] now t = (0, t)
  run_each handlers handler (j ∷ js) now t =
      let (report, after) = run_job handlers handler j now t in
      let (n, last) = run_each handlers handler js now after in (suc n, last)

  unfoldable pub run_pending :
      List String
      → (Job J → ℕ → List (Job J) → HandlerEnd J × List (Job J))
      → ℕ
      → ℕ
      → List (Job J)
      → ℕ × List (Job J)
  unfolding run_each
  run_pending handlers handler limit now t =
      let (jobs, claimed) = claim_background_jobs limit now t in
      run_each handlers handler jobs now claimed

  -- `none` is an exception: no handler, a taken id, or a dispatch that failed.
  unfoldable pub enqueue :
      List String
      → (String → List (Job J) → Option String × List (Job J))
      → String
      → String
      → String
      → J
      → ℕ
      → List (Job J)
      → Option String × List (Job J)
  enqueue handlers dispatch institution id type payload now t =
      if contains handlers type
      then elim (enqueue_background_job institution id type payload now t) [
        | none ↦ (none, t)
        | some after ↦
            let (error, last) = dispatch id after in
            (elim error [ none ↦ some id | some e ↦ none ], last)
      ]
      else (none, t)

  -- The loop of `recover_stale` over the requeued jobs, with the failures that hooks are told.
  unfoldable pub redispatch :
      (String → List (Job J) → Option String × List (Job J))
      → List (Job J)
      → ℕ
      → List (Job J)
      → List (Job J) × List (Job J)
  redispatch dispatch [] now t = ([], t)
  redispatch dispatch (j ∷ js) now t =
      let (error, tried) = dispatch j.job_id t in
      let after : List (Job J) = elim error [
        | none ↦ tried
        | some e ↦
            table_of tried
              (finish_background_job j.job_id failed none (some (text_take 500 e)) none now tried)
      ] in
      let (told, last) = redispatch dispatch js now after in
      (elim error [ none ↦ told | some e ↦ j ∷ told ], last)

  -- The requeued jobs, those whose failure is told, and the table.
  unfoldable pub recover_stale :
      (String → List (Job J) → Option String × List (Job J))
      → ℕ
      → ℕ
      → ℕ
      → List (Job J)
      → List (Job J) × List (Job J) × List (Job J)
  unfolding redispatch
  recover_stale dispatch window max_attempts now t =
      let (requeued, exhausted, swept) = requeue_stale_background_jobs window max_attempts now t in
      let (told, last) = redispatch dispatch requeued now swept in
      (requeued, exhausted ++ told, last)

  -- `_after_enqueue` of the SQS queue, from what publishing raised.
  unfoldable pub publish :
      (String → Option String) → ℕ → String → List (Job J) → Option String × List (Job J)
  publish send now id t = elim (send id) [
    | none ↦ (none, t)
    | some e ↦ (
      some e,
      table_of t (finish_background_job id failed none (some (text_take 500 e)) none now t),
    )
  ]

  -- `consume_once`, by the job ids that the messages name.
  unfoldable pub consume_once :
      List String
      → (Job J → ℕ → List (Job J) → HandlerEnd J × List (Job J))
      → List String
      → ℕ
      → List (Job J)
      → ℕ × List (Job J)
  unfolding run_job
  consume_once handlers handler [] now t = (0, t)
  consume_once handlers handler (id ∷ ids) now t =
      let (job, claimed) = if id == "" then (none, t) else claim_background_job id now t in
      let after : List (Job J) = elim job [
        | none ↦ claimed
        | some j ↦ (run_job handlers handler j now claimed).1
      ] in
      let (n, last) = consume_once handlers handler ids now after in
      (elim job [ none ↦ n | some j ↦ suc n ], last)
