-- ===== src/Gateway/SingleUse/Fit.antt =====
-- When the status of a confirmation fits the handlers that run and ran on it.

use mathlib.Core.Path.{subst, subst₂}
use guru_ji.Prelude.{
  ℕ, suc, ◌+◌, ◌≤◌, String, ◌≡◌, ◌≢◌, refl, ◌⊎◌, inl, inr, Bool, true, false, Option, none, some,
  List, arith, if◌then◌else◌, string_eq, eq_iff,
}
use guru_ji.InstitutionData.Approvals.{
  Approval, ApprovalStatus, pending, approved, rejected, executing, consumed, expired, is_approved,
  get_approval, set_approval_resume, IsKeyed,
}
use guru_ji.InstitutionData.Approvals.Laws.{key-cases, write_decision_other, write_decision-IsKeyed}
use guru_ji.InstitutionData.Table.{update, AtMostOne-update}
use guru_ji.InstitutionData.Approvals.{set_approval_resume, has_id, IsKeyed}
use guru_ji.InstitutionData.Approvals.Laws.{write_decision-IsKeyed}
use guru_ji.Prelude.{find, [], ◌∷◌}
use guru_ji.Gateway.Types.{ToolCallContext, institution_id}
use guru_ji.Gateway.Invoke.Rows.{Extends}
use guru_ji.Gateway.Confirm.Rows.{Writes, untouched, written}
use guru_ji.Gateway.SingleUse.{tally, Removes, first, later, holds_key}

pub tally-Removes {ℓ} :
    {A : Type ℓ} (p : A → Bool) (x : A) {xs ys : List A}
    → Removes x xs ys
    → tally p xs ≡ (if p x then suc (tally p ys) else tally p ys)
tally-Removes p x first = ground arith
tally-Removes p x (later r) = ground (arith, tally-Removes p x r)

abbrev pub state_of : {A : Type 0} → Option (Approval A) → Option ApprovalStatus
state_of none = none
state_of (some a) = some a.status

-- How many handlers run and have succeeded on a confirmation of this status.
abbrev pub Fit : Option ApprovalStatus → ℕ → ℕ → Type 0
Fit (some executing) active completed = (active ≤ 1) × (completed ≡ 0)
Fit (some consumed) active completed = (active ≡ 0) × (completed ≤ 1)
Fit _ active completed = (active ≡ 0) × (completed ≡ 0)

pub Fit-idle : (s : Option ApprovalStatus) → Fit s 0 0
Fit-idle none = (refl, refl)
Fit-idle (some pending) = (refl, refl)
Fit-idle (some approved) = (refl, refl)
Fit-idle (some rejected) = (refl, refl)
Fit-idle (some executing) = (omega arith, refl)
Fit-idle (some consumed) = (refl, omega arith)
Fit-idle (some expired) = (refl, refl)

-- A status that no handler runs or ran on.
abbrev pub is_unused : Option ApprovalStatus → Bool
is_unused (some executing) = false
is_unused (some consumed) = false
is_unused _ = true

pub Fit-unused :
    (s : Option ApprovalStatus) (a d : ℕ) → is_unused s ≡ true → Fit s a d → (a ≡ 0) × (d ≡ 0)
Fit-unused none a d u f = f
Fit-unused (some pending) a d u f = f
Fit-unused (some approved) a d u f = f
Fit-unused (some rejected) a d u f = f
Fit-unused (some executing) a d u f = absurd (cc)
Fit-unused (some consumed) a d u f = absurd (cc)
Fit-unused (some expired) a d u f = f

-- A handler that runs is the only one, and none has succeeded.
pub Fit-active : (s : Option ApprovalStatus) (a d : ℕ) → Fit s (suc a) d → (a ≡ 0) × (d ≡ 0)
Fit-active none a d f = absurd (omega (arith, f.0))
Fit-active (some pending) a d f = absurd (omega (arith, f.0))
Fit-active (some approved) a d f = absurd (omega (arith, f.0))
Fit-active (some rejected) a d f = absurd (omega (arith, f.0))
Fit-active (some executing) a d f = (omega (arith, f.0), f.1)
Fit-active (some consumed) a d f = absurd (omega (arith, f.0))
Fit-active (some expired) a d f = absurd (omega (arith, f.0))

pub Fit-bound : (s : Option ApprovalStatus) (a d : ℕ) → Fit s a d → a + d ≤ 1
Fit-bound none a d f = omega (arith, f.0, f.1)
Fit-bound (some pending) a d f = omega (arith, f.0, f.1)
Fit-bound (some approved) a d f = omega (arith, f.0, f.1)
Fit-bound (some rejected) a d f = omega (arith, f.0, f.1)
Fit-bound (some executing) a d f = omega (arith, f.0, f.1)
Fit-bound (some consumed) a d f = omega (arith, f.0, f.1)
Fit-bound (some expired) a d f = omega (arith, f.0, f.1)

abbrev pub status_at : {A : Type 0} → String → String → List (Approval A) → Option ApprovalStatus
status_at i id t = state_of (get_approval i id t)

-- A call on another confirmation, or on none, does not count.
pub other_key :
    {A : Type 0} (i id : String) (c : ToolCallContext) (a : Approval A)
    → ((institution_id c ≢ i) ⊎ (a.approval_id ≢ id))
    → holds_key i id c (some a) ≡ false
other_key i id c a d = ground (arith, eq_iff (institution_id c) i, eq_iff a.approval_id id)

pub same_key :
    {A : Type 0} (i id : String) (c : ToolCallContext) (a : Approval A)
    → institution_id c ≡ i
    → a.approval_id ≡ id
    → holds_key i id c (some a) ≡ true
same_key i id c a p q = ground (arith, eq_iff (institution_id c) i, eq_iff a.approval_id id)

pub unused-approved : (s : ApprovalStatus) → is_approved s ≡ true → is_unused (some s) ≡ true
unused-approved approved h = refl
unused-approved pending h = refl
unused-approved rejected h = refl
unused-approved executing h = absurd (cc)
unused-approved consumed h = absurd (cc)
unused-approved expired h = refl

pub Extends-fits :
    {A : Type 0} (t t' : List (Approval A)) (i id : String) (a d : ℕ)
    → Extends t t'
    → Fit (status_at i id t) a d
    → Fit (status_at i id t') a d
Extends-fits t t' i id a d x f = elim (x.rows i id) [
  | inl e ↦ rw e f
  | inr (e, r, e', p) ↦
      let (a0, d0) = Fit-unused none a d refl (rw e at f) in rw (e', a0, d0, p) (refl, refl)
]

pub Writes-fits :
    {A : Type 0} (inst jd i id : String) (t t' : List (Approval A)) (a d : ℕ)
    → Writes inst jd t t'
    → Fit (status_at i id t) a d
    → Fit (status_at i id t') a d
Writes-fits inst jd i id t t' a d untouched f = f
Writes-fits inst jd i id t t' a d (written r e p s by m) f = elim (key-cases inst i jd id) [
  | inr o ↦ rw (write_decision_other inst jd s by m.ended_at t i id o) f
  | inl (x, y) ↦
      let e' = subst₂ (λ u v. get_approval u v t ≡ some r) x y e in
      let f' : Fit (some r.status) a d = subst (λ u. Fit (state_of u) a d) e' f in
      let (a0, d0) = Fit-unused (some pending) a d refl (rw p at f') in rw (a0, d0) (Fit-idle _)
]

resumed-status :
    {A : Type 0} (q p : Approval A → Bool) (f : Approval A → Approval A) (t : List (Approval A))
    → ((a : Approval A) → q (f a) ≡ q a)
    → ((a : Approval A) → (f a).status ≡ a.status)
    → state_of (find q (update p f t)) ≡ state_of (find q t)
resumed-status q p f [] h k = refl
resumed-status q p f (x ∷ xs) h k = ground (arith, h x, k x, resumed-status q p f xs h k)

-- Keeping a context for a resumption changes no status, and no key.
pub set_approval_resume-status :
    {A : Type 0} (inst jd by : String) (kept : A) (t : List (Approval A)) (i id : String)
    → status_at i id (set_approval_resume inst jd by kept t).1 ≡ status_at i id t
unfolding set_approval_resume get_approval
set_approval_resume-status inst jd by kept t i id =
    resumed-status (has_id i id) _ (λ a. record a { resume = some kept }) t (λ a. refl) (λ a. refl)

pub set_approval_resume-IsKeyed :
    {A : Type 0} (inst jd by : String) (kept : A) (t : List (Approval A))
    → IsKeyed t
    → IsKeyed (set_approval_resume inst jd by kept t).1
unfolding set_approval_resume
set_approval_resume-IsKeyed inst jd by kept t k = record {
  unique = λ i id.
      AtMostOne-update (has_id i id) _ (λ a. record a { resume = some kept }) t (λ a. refl)
        (k.unique i id);
}

pub Writes-IsKeyed :
    {A : Type 0} (inst jd : String) (t t' : List (Approval A))
    → Writes inst jd t t'
    → IsKeyed t
    → IsKeyed t'
Writes-IsKeyed inst jd t t' untouched k = k
Writes-IsKeyed inst jd t t' (written r e p s by m) k =
    write_decision-IsKeyed inst jd s by m.ended_at t k
