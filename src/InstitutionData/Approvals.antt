-- ===== src/InstitutionData/Approvals.antt =====
-- The approvals of institution_data/store.py. Times are microseconds; the stored ISO texts of one
-- time zone are ordered as the numbers are. `A` is the type of a JSON object.
pub mod Laws
use guru_ji.Prelude.{
  ℕ, ◌+◌, ◌*◌, String, Bool, true, false, ◌&&◌, Option, none, some, List, [], ◌∷◌, if◌then◌else◌,
  Eq, discrete_eq, ◌==◌, string_eq, ltb, any, find,
}
use guru_ji.InstitutionData.Table.{update, AtMostOne}

pub data ApprovalStatus : Type 0 where
  pending approved rejected executing consumed expired : ApprovalStatus

abbrev pub is_pending : ApprovalStatus → Bool
is_pending pending = true
is_pending _ = false

abbrev pub is_approved : ApprovalStatus → Bool
is_approved approved = true
is_approved _ = false

pub record Approval (A : Type 0) : Type 0 where
  pub approval_id : String
  pub institution_id : String
  pub principal_id : String
  pub tool_name : String
  pub arguments : A
  pub arguments_sha256 : String
  pub status : ApprovalStatus
  pub reason : String
  pub created_at : ℕ
  pub expires_at : ℕ
  pub decided_at : Option ℕ
  pub decided_by : Option String
  pub resume : Option A

abbrev pub microseconds : ℕ → ℕ
microseconds seconds = seconds * 1000000

abbrev is_decision : ApprovalStatus → Bool
is_decision pending = false
is_decision executing = false
is_decision _ = true

module _ {A : Type 0} where
  -- `WHERE institution_id = ? AND approval_id = ?`
  abbrev pub has_id : String → String → Approval A → Bool
  has_id institution id a = a.institution_id == institution && a.approval_id == id

  unfoldable pub get_approval : String → String → List (Approval A) → Option (Approval A)
  get_approval institution id t = find (has_id institution id) t

  -- The row that `create_approval` inserts.
  abbrev pub new_approval :
      String → String → String → String → A → String → String → ℕ → ℕ → Approval A
  new_approval institution id principal tool arguments digest reason ttl now = record {
    approval_id = id;
    institution_id = institution;
    principal_id = principal;
    tool_name = tool;
    arguments = arguments;
    arguments_sha256 = digest;
    status = pending;
    reason = reason;
    created_at = now;
    expires_at = now + microseconds ttl;
    decided_at = none;
    decided_by = none;
    resume = none;
  }

  -- `none` is the database's error: `approval_id` is the primary key.
  unfoldable pub insert_approval : Approval A → List (Approval A) → Option (List (Approval A))
  insert_approval a t = if any (λ b. b.approval_id == a.approval_id) t then none else some (a ∷ t)

  unfoldable pub set_approval_resume :
      String → String → String → A → List (Approval A) → Bool × List (Approval A)
  set_approval_resume institution id principal kept t =
      let mine = λ (a : Approval A).
        has_id institution id a && (a.principal_id == principal && is_pending a.status) in
      (any mine t, update mine (λ a. record a { resume = some kept }) t)

  -- What `claim_approval` requires of the row besides its id.
  unfoldable pub claimable : String → ℕ → Approval A → Bool
  claimable principal now a =
      a.principal_id == principal && (is_approved a.status && ltb now a.expires_at)

  abbrev pub claim_row : String → ℕ → Approval A → Approval A
  claim_row principal now a = record a {
    status = executing;
    decided_at = some now;
    decided_by = some principal;
  }

  unfoldable pub claim_approval :
      String → String → String → ℕ → List (Approval A) → Option (Approval A) × List (Approval A)
  claim_approval institution id principal now t =
      let mine = λ (a : Approval A). has_id institution id a && claimable principal now a in
      let after = update mine (claim_row principal now) t in
      (if any mine t then get_approval institution id after else none, after)

  abbrev pub decide_row : ApprovalStatus → String → ℕ → Approval A → Approval A
  decide_row s by now a = record a { status = s; decided_at = some now; decided_by = some by }

  -- The write of `decide_approval`: it is not conditional on the row's status.
  unfoldable pub write_decision :
      String
      → String
      → ApprovalStatus
      → String
      → ℕ
      → List (Approval A)
      → Option (Approval A) × List (Approval A)
  write_decision institution id s by now t =
      let after = update (has_id institution id) (decide_row s by now) t in
      (get_approval institution id after, after)

  -- `none` is the ValueError on a status that is no decision.
  unfoldable pub decide_approval :
      String
      → String
      → ApprovalStatus
      → String
      → ℕ
      → List (Approval A)
      → Option (Option (Approval A) × List (Approval A))
  unfolding write_decision
  decide_approval institution id s by now t =
      if is_decision s then some (write_decision institution id s by now t) else none

  -- The primary key, as every lookup of this file uses it.
  pub record IsKeyed (t : List (Approval A)) : Type 0 where
    pub unique : (institution id : String) → AtMostOne (has_id institution id) t
