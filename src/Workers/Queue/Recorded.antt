-- ===== src/Workers/Queue/Recorded.antt =====
-- A run records its outcome.
use mathlib.Core.Option
use mathlib.Core.Path.{subst}
use guru_ji.Prelude.{
  ℕ, String, ◌≡◌, refl, ◌∙◌, ap, true, false, not, ◌&&◌, Option, none, some, List, if◌then◌else◌,
  ◌==◌, string_eq, nat_eq, nat_eqb_iff, find, arith,
}
use guru_ji.InstitutionData.Table.{update, find-update}
use guru_ji.InstitutionData.Jobs.{
  Job, JobStatus, running, succeeded, failed, is_finished, has_job, get_background_job, is_open,
  of_attempt, finish_row, finish_background_job,
}
use guru_ji.Workers.Queue.{HandlerEnd, finished, raised, attempt_of, record_end, table_of}

module _ {J : Type 0} where
  abbrev pub status_row : Option (Job J) → Option JobStatus
  status_row none = none
  status_row (some j) = some j.status

  finish-row :
      (id : String) (s : JobStatus) (r : Option J) (e : Option String) (now n : ℕ)
      (t : List (Job J)) (a : Job J)
      → is_finished s ≡ true
      → get_background_job id t ≡ some a
      → a.status ≡ running
      → a.attempts ≡ n
      → get_background_job id (table_of t (finish_background_job id s r e (some n) now t))
        ≡ some (finish_row s r e now a)
  unfolding get_background_job finish_background_job
  finish-row id s r e now n t a f h p q =
      let g = λ (j : Job J). not (is_finished j.status) && of_attempt (some n) j in
      let x = find-update (has_job id) g (finish_row s r e now) t (λ y. refl) in
      let x' =
        subst
          (λ o.
            find (has_job id) (update (is_open id (some n)) (finish_row s r e now) t)
            ≡ Option.map (λ y. if g y then finish_row s r e now y else y) o)
          h x in
      let shut : is_finished a.status ≡ false = ap is_finished p in
      let due : (a.attempts == n) ≡ true = (nat_eqb_iff a.attempts n).1 q in
      rw f (x' ∙ ground arith)

  -- When the handler of a claimed job ends, and the job is still running that attempt, the status
  -- that the run reports is the one that the job's row then has.
  pub record_end-status :
      (j a : Job J) (o : HandlerEnd J) (now : ℕ) (t : List (Job J))
      → get_background_job j.job_id t ≡ some a
      → a.status ≡ running
      → a.attempts ≡ attempt_of j
      → let (report, after) = record_end j o now t in
        status_row (get_background_job j.job_id after) ≡ some report.status
  unfolding record_end
  record_end-status j a (finished r) now t h p q =
      ap status_row (finish-row j.job_id succeeded _ _ now _ t a refl h p q)
  record_end-status j a (raised e) now t h p q =
      ap status_row (finish-row j.job_id failed _ _ now _ t a refl h p q)
