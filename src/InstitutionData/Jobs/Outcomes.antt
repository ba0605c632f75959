-- ===== src/InstitutionData/Jobs/Outcomes.antt =====
-- The outcome of a job, whatever workers do.
use mathlib.Core.Option
use mathlib.Core.Path.{subst}
use guru_ji.Prelude.{
  ℕ, ◌+◌, ◌<◌, String, ◌≡◌, refl, sym, ◌∙◌, ap, Bool, true, false, not, ◌&&◌, Option, none, some,
  List, [], ◌∷◌, if◌then◌else◌, if-elim, if-cases, string_eq, nat_eq, any, find, arith,
}
use guru_ji.InstitutionData.Table.{update, AtMostOne, holds, find-update, any-guard}
use guru_ji.InstitutionData.Jobs.{
  Job, JobStatus, is_queued, is_finished, has_job, get_background_job, enqueue_background_job,
  claim_row, is_waiting, claim_background_job, claim_background_jobs, heartbeat_background_job,
  requeue_background_job, requeue_stale_background_jobs, of_attempt, is_open, waiting_ids,
  stale_jobs, finish_row, finish_background_job,
}
use guru_ji.InstitutionData.Jobs.Moves.{
  Advances, Advances-refl, Advances-trans, append-Advances, claim-Advances, claim_each-Advances,
  heartbeat-Advances, requeue-Advances, sweep_each-Advances, finish-Advances,
}

-- A request to the jobs table, by a caller, a worker or the sweep.
pub data JobRequest (J : Type 0) : Type 0 where
  enqueues : String → String → String → J → ℕ → JobRequest J
  claims : String → ℕ → JobRequest J
  claims_many : ℕ → ℕ → JobRequest J
  beats : String → ℕ → JobRequest J
  requeues : String → JobRequest J
  sweeps : ℕ → ℕ → ℕ → JobRequest J
  finishes : String → JobStatus → Option J → Option String → Option ℕ → ℕ → JobRequest J

module _ {J : Type 0} where
  abbrev or_same : List (Job J) → Option (List (Job J)) → List (Job J)
  or_same t none = t
  or_same t (some after) = after

  abbrev or_kept : List (Job J) → Option (Bool × List (Job J)) → List (Job J)
  or_kept t none = t
  or_kept t (some (b, after)) = after

  abbrev pub serve : JobRequest J → List (Job J) → List (Job J)
  serve (enqueues i id type payload now) t =
      or_same t (enqueue_background_job i id type payload now t)
  serve (claims id now) t = (claim_background_job id now t).1
  serve (claims_many limit now) t = (claim_background_jobs limit now t).1
  serve (beats id now) t = (heartbeat_background_job id now t).1
  serve (requeues id) t = (requeue_background_job id t).1
  serve (sweeps window n now) t = (requeue_stale_background_jobs window n now t).2
  serve (finishes id s r e n now) t = or_kept t (finish_background_job id s r e n now t)

  abbrev pub serve_all : List (JobRequest J) → List (Job J) → List (Job J)
  serve_all [] t = t
  serve_all (q ∷ qs) t = serve_all qs (serve q t)

  serve-Advances : (q : JobRequest J) (t : List (Job J)) → Advances t (serve q t)
  unfolding enqueue_background_job claim_background_jobs requeue_stale_background_jobs
      finish_background_job
  serve-Advances (enqueues i id type payload now) t =
      if-cases (λ o. Advances t (or_same t o)) (any (has_job id) t) (λ _. Advances-refl t)
        (λ e. append-Advances _ t e)
  serve-Advances (claims id now) t = claim-Advances id now t
  serve-Advances (claims_many limit now) t = claim_each-Advances (waiting_ids limit t) now t
  serve-Advances (beats id now) t = heartbeat-Advances id now t
  serve-Advances (requeues id) t = requeue-Advances id t
  serve-Advances (sweeps window n now) t = sweep_each-Advances (stale_jobs window now t) n now t
  serve-Advances (finishes id s r e n now) t =
      if-elim (λ o. Advances t (or_kept t o)) (is_finished s) (finish-Advances id s r e n now t)
        (Advances-refl t)

  serve_all-Advances : (qs : List (JobRequest J)) (t : List (Job J)) → Advances t (serve_all qs t)
  serve_all-Advances [] t = Advances-refl t
  serve_all-Advances (q ∷ qs) t =
      Advances-trans t (serve q t) _ (serve-Advances q t) (serve_all-Advances qs (serve q t))

  -- A job that has succeeded or failed keeps its outcome, its result and its times, whatever
  -- requests follow.
  pub outcome_final :
      (qs : List (JobRequest J)) (t : List (Job J)) (id : String) (a : Job J)
      → get_background_job id t ≡ some a
      → is_finished a.status ≡ true
      → get_background_job id (serve_all qs t) ≡ some a
  outcome_final qs t id a h f =
      let (b, e, m) = (serve_all-Advances qs t).row id a h in e ∙ ap some (m.final f)

  claimed-is :
      (q w : Bool) (o : Option (Job J)) (x a b : Job J)
      → o ≡ some (if q then x else a)
      → w ≡ q
      → (if w then o else none) ≡ some b
      → (b ≡ x) × (o ≡ some b)
  claimed-is true true o x a b e g h = (ground arith, h)
  claimed-is true false o x a b e g h = absurd (cc)
  claimed-is false true o x a b e g h = absurd (cc)
  claimed-is false false o x a b e g h = absurd (cc)

  -- A claim that wins has one more attempt than the row it found.
  claim-attempts :
      (id : String) (now : ℕ) (t : List (Job J)) (a b : Job J)
      → AtMostOne (has_job id) t
      → get_background_job id t ≡ some a
      → (claim_background_job id now t).0 ≡ some b
      → (b.attempts ≡ a.attempts + 1)
        × (get_background_job id (claim_background_job id now t).1 ≡ some b)
  unfolding claim_background_job get_background_job
  claim-attempts id now t a b u h c =
      let e = find-update (has_job id) (λ j. is_queued j.status) (claim_row now) t (λ x. refl) in
      let g = any-guard (has_job id) (λ j. is_queued j.status) t u in
      let e' =
        subst
          (λ o.
            find (has_job id) (update (is_waiting id) (claim_row now) t)
            ≡ Option.map (λ x. if is_queued x.status then claim_row now x else x) o)
          h e in
      let g' = subst (λ o. any (is_waiting id) t ≡ holds (λ j. is_queued j.status) o) h g in
      let (q, o) = claimed-is (is_queued a.status) _ _ (claim_row now a) a b e' g' c in
      (ap (λ (x : Job J). x.attempts) q, o)

  late-unchanged :
      (id : String) (s : JobStatus) (r : Option J) (e : Option String) (n now : ℕ)
      (t : List (Job J)) (a : Job J)
      → AtMostOne (has_job id) t
      → get_background_job id t ≡ some a
      → n < a.attempts
      → (any (is_open id (some n)) t ≡ false)
        × (get_background_job id (update (is_open id (some n)) (finish_row s r e now) t) ≡ some a)
  unfolding get_background_job
  late-unchanged id s r e n now t a u h l =
      let p = λ (j : Job J). not (is_finished j.status) && of_attempt (some n) j in
      let x = find-update (has_job id) p (finish_row s r e now) t (λ y. refl) in
      let g = any-guard (has_job id) p t u in
      let x' =
        subst
          (λ o.
            find (has_job id) (update (is_open id (some n)) (finish_row s r e now) t)
            ≡ Option.map (λ y. if p y then finish_row s r e now y else y) o)
          h x in
      let g' = subst (λ o. any (is_open id (some n)) t ≡ holds p o) h g in
      let no : p a ≡ false = ground arith in (g' ∙ no, rw no at x')

  -- An abandoned run that reports late. In a table with unique job ids, let a run know the attempt
  -- of its job's row, and let a later claim of that job win, with any requests before and after it.
  -- Then the report of the run's own attempt is not recorded: the store answers that no row was
  -- changed, and the job's row stays as the later run left it.
  pub late_outcome :
      (t : List (Job J)) (id : String) (first second : Job J)
      → ((i : String) → AtMostOne (has_job i) t)
      → get_background_job id t ≡ some first
      → (before : List (JobRequest J)) (now : ℕ)
      → (claim_background_job id now (serve_all before t)).0 ≡ some second
      → (after : List (JobRequest J)) (s : JobStatus) (r : Option J) (e : Option String) (later : ℕ)
      → is_finished s ≡ true
      → let u = serve_all after (claim_background_job id now (serve_all before t)).1 in
        (x : List (Job J)) × (finish_background_job id s r e (some first.attempts) later u
          ≡ some (false, x))
        × (get_background_job id x ≡ get_background_job id u)
  unfolding finish_background_job
  late_outcome t id first second k h before now c after s r e later f =
      let pre = serve_all-Advances before t in
      let (a, q, m) = pre.row id first h in
      let (n, o) = claim-attempts id now (serve_all before t) a second (pre.keyed id (k id)) q c in
      let claimed = claim-Advances id now (serve_all before t) in
      let post = serve_all-Advances after (claim_background_job id now (serve_all before t)).1 in
      let (b, y, l) = post.row id second o in
      let (shut, same) =
        late-unchanged id s r e first.attempts later _ b
          (post.keyed id (claimed.keyed id (pre.keyed id (k id)))) y
          (omega (arith, m.grows, n, l.grows)) in
      (_, rw (f, shut) refl, same ∙ sym y)
