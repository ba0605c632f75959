-- ===== src/InstitutionData/Jobs.antt =====
-- The background jobs of institution_data/store.py. Times are microseconds; `J` is the type of a
-- JSON object. A loop over the rows of a SELECT runs one conditional UPDATE for each.
pub mod Moves
pub mod Outcomes
use guru_ji.Prelude.{
  ℕ, suc, ◌+◌, ◌-◌, String, Bool, true, false, not, ◌&&◌, ◌||◌, Option, none, some, List, [], ◌∷◌,
  ◌++◌, if◌then◌else◌, ◌==◌, string_eq, nat_eq, any, find, select, take, map, min, max, ltb, leb,
}
use guru_ji.InstitutionData.Table.{update}
use guru_ji.Persistence.ControlStore.{sorted_by}

pub data JobStatus : Type 0 where
  queued running succeeded failed : JobStatus

abbrev pub is_queued : JobStatus → Bool
is_queued queued = true
is_queued _ = false

abbrev pub is_running : JobStatus → Bool
is_running running = true
is_running _ = false

abbrev pub is_finished : JobStatus → Bool
is_finished succeeded = true
is_finished failed = true
is_finished _ = false

pub record Job (J : Type 0) : Type 0 where
  pub job_id : String
  pub institution_id : String
  pub job_type : String
  pub payload : J
  pub status : JobStatus
  pub attempts : ℕ
  pub result : Option J
  pub error : Option String
  pub created_at : ℕ
  pub started_at : Option ℕ
  pub heartbeat_at : Option ℕ
  pub finished_at : Option ℕ

-- `COALESCE(a, b)`
abbrev pub coalesce : Option ℕ → ℕ → ℕ
coalesce none n = n
coalesce (some a) n = a

-- `_clamp_limit`
abbrev pub clamp_limit : ℕ → ℕ → ℕ
clamp_limit n maximum = max 1 (min n maximum)

abbrev pub push_some : {A : Type 0} → Option A → List A → List A
push_some none xs = xs
push_some (some x) xs = x ∷ xs

module _ {J : Type 0} where
  abbrev pub has_job : String → Job J → Bool
  has_job id j = j.job_id == id

  unfoldable pub get_background_job : String → List (Job J) → Option (Job J)
  get_background_job id t = find (has_job id) t

  -- `none` is the database's error: `job_id` is the primary key.
  unfoldable pub enqueue_background_job :
      String → String → String → J → ℕ → List (Job J) → Option (List (Job J))
  enqueue_background_job institution id type payload now t =
      if any (has_job id) t
      then none
      else some (
          t
          ++ record {
            job_id = id;
            institution_id = institution;
            job_type = type;
            payload = payload;
            status = queued;
            attempts = 0;
            result = none;
            error = none;
            created_at = now;
            started_at = none;
            heartbeat_at = none;
            finished_at = none;
          }
            ∷ [])

  abbrev pub claim_row : ℕ → Job J → Job J
  claim_row now j = record j {
    status = running;
    started_at = some now;
    heartbeat_at = some now;
    attempts = j.attempts + 1;
  }

  abbrev pub is_waiting : String → Job J → Bool
  is_waiting id j = has_job id j && is_queued j.status

  abbrev pub is_at_work : String → Job J → Bool
  is_at_work id j = has_job id j && is_running j.status

  unfoldable pub claim_background_job : String → ℕ → List (Job J) → Option (Job J) × List (Job J)
  unfolding get_background_job
  claim_background_job id now t =
      let after = update (is_waiting id) (claim_row now) t in
      (if any (is_waiting id) t then get_background_job id after else none, after)

  -- The loop of `claim_background_jobs` over the ids that the SELECT gave.
  unfoldable pub claim_each : List String → ℕ → List (Job J) → List (Job J) × List (Job J)
  unfolding claim_background_job
  claim_each [] now t = ([], t)
  claim_each (id ∷ ids) now t =
      let (job, after) = claim_background_job id now t in
      let (jobs, last) = claim_each ids now after in (push_some job jobs, last)

  -- `SELECT job_id ... WHERE status = 'queued' ORDER BY created_at LIMIT ?`
  abbrev pub waiting_ids : ℕ → List (Job J) → List String
  waiting_ids limit t =
      map (λ j. j.job_id)
        (take (clamp_limit limit 100)
          (sorted_by (λ j. j.created_at) (select (λ j. is_queued j.status) t)))

  unfoldable pub claim_background_jobs : ℕ → ℕ → List (Job J) → List (Job J) × List (Job J)
  unfolding claim_each
  claim_background_jobs limit now t = claim_each (waiting_ids limit t) now t

  unfoldable pub heartbeat_background_job : String → ℕ → List (Job J) → Bool × List (Job J)
  heartbeat_background_job id now t =
      (any (is_at_work id) t, update (is_at_work id) (λ j. record j { heartbeat_at = some now }) t)

  abbrev pub requeue_row : Job J → Job J
  requeue_row j = record j { status = queued; started_at = none; heartbeat_at = none }

  unfoldable pub requeue_background_job : String → List (Job J) → Bool × List (Job J)
  requeue_background_job id t = (any (is_at_work id) t, update (is_at_work id) requeue_row t)

  abbrev pub give_up_row : ℕ → Job J → Job J
  give_up_row now j = record j {
    status = failed;
    finished_at = some now;
    error = some "worker did not finish the job after repeated attempts";
  }

  abbrev pub last_seen : Job J → ℕ
  last_seen j = coalesce j.heartbeat_at (coalesce j.started_at j.created_at)

  -- One row of the stale sweep: what is requeued, what is exhausted, and the table.
  unfoldable pub sweep_row :
      Job J → ℕ → ℕ → List (Job J) → Option (Job J) × Option (Job J) × List (Job J)
  unfolding get_background_job
  sweep_row j max_attempts now t =
      if leb max_attempts j.attempts
      then (let after = update (is_at_work j.job_id) (give_up_row now) t in
          (
            none,
            if any (is_at_work j.job_id) t then get_background_job j.job_id after else none,
            after,
          ))
      else (let after = update (is_at_work j.job_id) requeue_row t in
          (
            if any (is_at_work j.job_id) t then get_background_job j.job_id after else none,
            none,
            after,
          ))

  unfoldable pub sweep_each :
      List (Job J) → ℕ → ℕ → List (Job J) → List (Job J) × List (Job J) × List (Job J)
  unfolding sweep_row
  sweep_each [] max_attempts now t = ([], [], t)
  sweep_each (j ∷ js) max_attempts now t =
      let (back, lost, after) = sweep_row j max_attempts now t in
      let (requeued, exhausted, last) = sweep_each js max_attempts now after in
      (push_some back requeued, push_some lost exhausted, last)

  -- The SELECT of the sweep. A window is microseconds, at least 1000.
  abbrev pub stale_jobs : ℕ → ℕ → List (Job J) → List (Job J)
  stale_jobs window now t =
      let cutoff = now - max 1000 window in
      take 500 (
        sorted_by (λ j. j.created_at)
          (select (λ j. is_running j.status && ltb (last_seen j) cutoff) t))

  -- The requeued jobs, the exhausted ones, and the table.
  unfoldable pub requeue_stale_background_jobs :
      ℕ → ℕ → ℕ → List (Job J) → List (Job J) × List (Job J) × List (Job J)
  unfolding sweep_each
  requeue_stale_background_jobs window max_attempts now t =
      sweep_each (stale_jobs window now t) max_attempts now t

  abbrev pub of_attempt : Option ℕ → Job J → Bool
  of_attempt none j = true
  of_attempt (some n) j = j.attempts == n

  abbrev pub is_open : String → Option ℕ → Job J → Bool
  is_open id attempt j = has_job id j && (not (is_finished j.status) && of_attempt attempt j)

  abbrev pub finish_row : JobStatus → Option J → Option String → ℕ → Job J → Job J
  finish_row s result error now j = record j {
    status = s;
    finished_at = some now;
    result = result;
    error = error;
  }

  -- `none` is the ValueError on a status that is no outcome.
  unfoldable pub finish_background_job :
      String
      → JobStatus
      → Option J
      → Option String
      → Option ℕ
      → ℕ
      → List (Job J)
      → Option (Bool × List (Job J))
  finish_background_job id s result error attempt now t =
      if is_finished s
      then some (
        any (is_open id attempt) t,
        update (is_open id attempt) (finish_row s result error now) t,
      )
      else none
