-- ===== src/InstitutionData/Jobs/Moves.antt =====
-- How the operations on the jobs move a row: outcomes are final, and attempts only grow.
use mathlib.Core.Path.{subst}
use guru_ji.Prelude.{
  ℕ, ◌≤◌, String, ◌≡◌, refl, sym, ◌∙◌, ap, Bool, true, false, ◌||◌, Option, some, List, [], ◌∷◌,
  ◌++◌, if-elim, ◌==◌, string_eq, nat_eq, eq_iff, any, find, arith, leb, Bool-cases, inl, inr,
}
use guru_ji.InstitutionData.Table.{update, AtMostOne, AtMostOne-update}
use guru_ji.InstitutionData.Jobs.{
  Job, JobStatus, queued, running, succeeded, failed, is_queued, is_running, is_finished, has_job,
  get_background_job, claim_row, is_waiting, is_at_work, claim_background_job, claim_each,
  heartbeat_background_job, requeue_row, requeue_background_job, give_up_row, sweep_row, sweep_each,
  is_open, finish_row,
}

waiting-open : (s : JobStatus) → is_queued s ≡ true → is_finished s ≡ false
waiting-open queued h = refl
waiting-open running h = refl
waiting-open succeeded h = absurd (cc)
waiting-open failed h = absurd (cc)

running-open : (s : JobStatus) → is_running s ≡ true → is_finished s ≡ false
running-open queued h = absurd (cc)
running-open running h = refl
running-open succeeded h = absurd (cc)
running-open failed h = absurd (cc)

module _ {A : Type 0} where
  find-append :
      (key : A → Bool) (t : List A) (b a : A)
      → find key t ≡ some a
      → find key (t ++ b ∷ []) ≡ some a
  find-append key [] b a h = absurd (cc)
  find-append key (x ∷ t) b a h = ground (arith, find-append key t b a)

  any-append : (key : A → Bool) (t : List A) (b : A) → any key (t ++ b ∷ []) ≡ (any key t || key b)
  any-append key [] b = ground arith
  any-append key (x ∷ t) b = ground (arith, any-append key t b)

  AtMostOne-append :
      (key : A → Bool) (t : List A) (b : A)
      → (key b ≡ true → any key t ≡ false)
      → AtMostOne key t
      → AtMostOne key (t ++ b ∷ [])
  AtMostOne-append key [] b h u = (λ _. refl, tt)
  AtMostOne-append key (x ∷ t) b h u = (
    λ q. ground (arith, any-append key t b, u.0 q, h),
    AtMostOne-append key t b (λ q. ground (arith, h q)) u.1,
  )

module _ {J : Type 0} where
  -- A row after some operations: a finished one is as it was, and no attempt is taken back.
  pub record Moves (a b : Job J) : Type 0 where
    pub final : is_finished a.status ≡ true → b ≡ a
    pub grows : a.attempts ≤ b.attempts

  Moves-refl : (a : Job J) → Moves a a
  Moves-refl a = record { final = λ _. refl; grows = omega arith }

  Moves-trans : (a b c : Job J) → Moves a b → Moves b c → Moves a c
  Moves-trans a b c x y = record {
    final = λ h.
        let e = x.final h in
        y.final (subst (λ (z : Job J). is_finished z.status ≡ true) (sym e) h) ∙ e;
    grows = omega (arith, x.grows, y.grows);
  }

  -- Every row of `t` is in `t'`, moved.
  pub record Advances (t t' : List (Job J)) : Type 0 where
    pub row :
        (id : String) (a : Job J)
        → get_background_job id t ≡ some a
        → (b : Job J) × (get_background_job id t' ≡ some b) × Moves a b
    pub keyed : (id : String) → AtMostOne (has_job id) t → AtMostOne (has_job id) t'

  pub Advances-refl : (t : List (Job J)) → Advances t t
  Advances-refl t = record { row = λ id a h. (a, h, Moves-refl a); keyed = λ id u. u }

  pub Advances-trans : (t u v : List (Job J)) → Advances t u → Advances u v → Advances t v
  Advances-trans t u v x y = record {
    row = λ id a h.
        let (b, p, m) = x.row id a h in
        let (c, q, k) = y.row id b p in (c, q, Moves-trans a b c m k);
    keyed = λ id h. y.keyed id (x.keyed id h);
  }

  update-row :
      (p : Job J → Bool) (f : Job J → Job J) (t : List (Job J))
      → ((a : Job J) → (f a).job_id ≡ a.job_id)
      → ((a : Job J) → p a ≡ true → Moves a (f a))
      → (id : String) (a : Job J) → find (has_job id) t ≡ some a
      → (b : Job J) × (find (has_job id) (update p f t) ≡ some b) × Moves a b
  update-row p f [] k m id a h = absurd (cc)
  update-row p f (x ∷ xs) k m id a h = elim (Bool-cases (x.job_id == id)) [
    | inr e ↦
        let (b, q, r) = update-row p f xs k m id a (ground arith) in (b, ground (arith, k x), r)
    | inl e ↦
        let i : x ≡ a = ground arith in
        elim (Bool-cases (p x)) [
          | inl y ↦ (f x, ground (arith, k x), subst (λ z. Moves z (f x)) i (m x y))
          | inr y ↦ (x, ground arith, subst (λ z. Moves z x) i (Moves-refl x))
        ]
  ]

  update-Advances :
      (p : Job J → Bool) (f : Job J → Job J) (t : List (Job J))
      → ((a : Job J) → (f a).job_id ≡ a.job_id)
      → ((a : Job J) → p a ≡ true → Moves a (f a))
      → Advances t (update p f t)
  unfolding get_background_job
  update-Advances p f t k m = record {
    row = update-row p f t k m;
    keyed = λ id u. AtMostOne-update (has_job id) p f t (λ a. ap (λ i. i == id) (k a)) u;
  }

  -- A change of a row that is not finished.
  Moves-open : (a b : Job J) → is_finished a.status ≡ false → a.attempts ≤ b.attempts → Moves a b
  Moves-open a b h g = record { final = λ q. absurd (cc); grows = g }

  same-key :
      (b : Job J) (t : List (Job J)) (id : String)
      → any (has_job b.job_id) t ≡ false
      → has_job id b ≡ true
      → any (has_job id) t ≡ false
  same-key b t id h q = subst (λ i. any (has_job i) t ≡ false) ((eq_iff b.job_id id).0 q) h

  pub append-Advances :
      (b : Job J) (t : List (Job J)) → any (has_job b.job_id) t ≡ false → Advances t (t ++ b ∷ [])
  unfolding get_background_job
  append-Advances b t h = record {
    row = λ id a q. (a, find-append (has_job id) t b a q, Moves-refl a);
    keyed = λ id u. AtMostOne-append (has_job id) t b (same-key b t id h) u;
  }

  pub claim-Advances :
      (id : String) (now : ℕ) (t : List (Job J)) → Advances t (claim_background_job id now t).1
  unfolding claim_background_job
  claim-Advances id now t =
      update-Advances (is_waiting id) (claim_row now) t (λ a. refl)
        (λ a h. Moves-open a (claim_row now a) (waiting-open a.status (ground arith)) (omega arith))

  pub claim_each-Advances :
      (ids : List String) (now : ℕ) (t : List (Job J)) → Advances t (claim_each ids now t).1
  unfolding claim_each
  claim_each-Advances [] now t = Advances-refl t
  claim_each-Advances (id ∷ ids) now t =
      Advances-trans t _ _ (claim-Advances id now t) (claim_each-Advances ids now _)

  pub heartbeat-Advances :
      (id : String) (now : ℕ) (t : List (Job J)) → Advances t (heartbeat_background_job id now t).1
  unfolding heartbeat_background_job
  heartbeat-Advances id now t =
      update-Advances (is_at_work id) _ t (λ a. refl)
        (λ a h. Moves-open a _ (running-open a.status (ground arith)) (omega arith))

  pub requeue-Advances :
      (id : String) (t : List (Job J)) → Advances t (requeue_background_job id t).1
  unfolding requeue_background_job
  requeue-Advances id t =
      update-Advances (is_at_work id) requeue_row t (λ a. refl)
        (λ a h. Moves-open a (requeue_row a) (running-open a.status (ground arith)) (omega arith))

  give_up-Advances :
      (id : String) (now : ℕ) (t : List (Job J))
      → Advances t (update (is_at_work id) (give_up_row now) t)
  give_up-Advances id now t =
      update-Advances (is_at_work id) (give_up_row now) t (λ a. refl)
        (λ a h.
          Moves-open a (give_up_row now a) (running-open a.status (ground arith)) (omega arith))

  sweep_row-Advances :
      (j : Job J) (n now : ℕ) (t : List (Job J)) → Advances t (sweep_row j n now t).2
  unfolding sweep_row requeue_background_job
  sweep_row-Advances j n now t =
      if-elim (λ (o : Option (Job J) × Option (Job J) × List (Job J)). Advances t o.2)
        (leb n j.attempts) (give_up-Advances j.job_id now t) (requeue-Advances j.job_id t)

  pub sweep_each-Advances :
      (js : List (Job J)) (n now : ℕ) (t : List (Job J)) → Advances t (sweep_each js n now t).2
  unfolding sweep_each
  sweep_each-Advances [] n now t = Advances-refl t
  sweep_each-Advances (j ∷ js) n now t =
      Advances-trans t _ _ (sweep_row-Advances j n now t) (sweep_each-Advances js n now _)

  pub finish-Advances :
      (id : String) (s : JobStatus) (r : Option J) (e : Option String) (n : Option ℕ) (now : ℕ)
      (t : List (Job J))
      → Advances t (update (is_open id n) (finish_row s r e now) t)
  finish-Advances id s r e n now t =
      update-Advances (is_open id n) (finish_row s r e now) t (λ a. refl)
        (λ a h. Moves-open a (finish_row s r e now a) (ground arith) (omega arith))
