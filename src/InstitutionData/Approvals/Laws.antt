-- ===== src/InstitutionData/Approvals/Laws.antt =====
-- How each operation on the approvals changes the row of an id, and no other row.
use mathlib.Core.Option
use mathlib.Core.Path.{subst}
use guru_ji.Prelude.{
  ℕ, String, ◌≡◌, refl, sym, ◌∙◌, Bool-cases, inr, inl, ◌≢◌, ◌↔◌, Option-cases, ◌<◌, ◌⊎◌, true,
  false, ◌&&◌, none, some, List, [], ◌∷◌, arith, if◌then◌else◌, ◌==◌, string_eq, any, find,
  find-none, Option, eq_iff,
}
use guru_ji.InstitutionData.Table.{
  holds, find-update, find-update_other, any-guard, AtMostOne-update, map-guarded, find-update_key,
}
use guru_ji.InstitutionData.Approvals.{
  Approval, ApprovalStatus, pending, approved, rejected, executing, consumed, expired, is_approved,
  has_id, get_approval, insert_approval, claimable, claim_row, claim_approval, decide_row,
  write_decision, IsKeyed,
}

-- Two keys are the same or distinct.
pub key-cases : (i j id jd : String) → ((i ≡ j) × (id ≡ jd)) ⊎ ((i ≢ j) ⊎ (id ≢ jd))
key-cases i j id jd = elim (Bool-cases (i == j)) [
  | inr e ↦ inr (inl (λ q. absurd (cc ((eq_iff i j).1 q, e))))
  | inl e ↦ elim (Bool-cases (id == jd)) [
    | inr f ↦ inr (inr (λ q. absurd (cc ((eq_iff id jd).1 q, f))))
    | inl f ↦ inl ((eq_iff i j).0 e, (eq_iff id jd).0 f)
  ]
]

approved_iff : (s : ApprovalStatus) → (is_approved s ≡ true) ↔ (s ≡ approved)
approved_iff pending = ground arith
approved_iff approved = ground arith
approved_iff rejected = ground arith
approved_iff executing = ground arith
approved_iff consumed = ground arith
approved_iff expired = ground arith

module _ {A : Type 0} where
  -- Distinct ids name distinct rows.
  has_id-ne :
      (i j : String) (id jd : String)
      → ((i ≢ j) ⊎ (id ≢ jd))
      → (a : Approval A) → has_id i id a ≡ true
      → has_id j jd a ≡ false
  has_id-ne i j id jd d a h = ground (
    arith,
    eq_iff a.institution_id i,
    eq_iff a.institution_id j,
    eq_iff a.approval_id id,
    eq_iff a.approval_id jd,
  )

  claim_approval_rows :
      (i id principal : String) (now : ℕ) (t : List (Approval A))
      → IsKeyed t
      → ((claim_approval i id principal now t).0 ≡ (
          if holds (claimable principal now) (get_approval i id t)
          then Option.map (claim_row principal now) (get_approval i id t)
          else none))
        × (get_approval i id (claim_approval i id principal now t).1
            ≡ Option.map
                (λ a. if claimable principal now a then claim_row principal now a else a)
                (get_approval i id t))
  unfolding claim_approval get_approval
  claim_approval_rows i id principal now t k =
      let e =
        find-update (has_id i id) (claimable principal now) (claim_row principal now) t
          (λ a. refl) in
      let c = any-guard (has_id i id) (claimable principal now) t (k.unique i id) in
      (
        rw (c, e)
            (map-guarded (claimable principal now) (claim_row principal now)
              (find (has_id i id) t)),
        e,
      )

  pub claim_approval_other :
      (i id principal : String) (now : ℕ) (t : List (Approval A)) (j jd : String)
      → ((i ≢ j) ⊎ (id ≢ jd))
      → get_approval j jd (claim_approval i id principal now t).1 ≡ get_approval j jd t
  unfolding claim_approval get_approval
  claim_approval_other i id principal now t j jd d =
      find-update_other (has_id j jd) (λ a. has_id i id a && claimable principal now a)
        (claim_row principal now) t (λ a h. has_id-ne i j id jd d a (ground arith))
        (λ a h. has_id-ne i j id jd d a (ground arith))

  -- What a claim requires of the row of its id.
  pub record IsClaimable (principal : String) (now : ℕ) (a : Approval A) : Type 0 where
    pub owned : a.principal_id ≡ principal
    pub agreed : a.status ≡ approved
    pub unexpired : now < a.expires_at

  claimable_iff :
      (principal : String) (now : ℕ) (a : Approval A)
      → (claimable principal now a ≡ true) ↔ IsClaimable principal now a
  unfolding claimable
  claimable_iff principal now a = (
    λ h. record {
      owned = (eq_iff a.principal_id principal).0 (ground (arith, h));
      agreed = (approved_iff a.status).0 (ground (arith, h));
      unexpired = ground (arith, h);
    },
    λ c. ground (
      arith,
      (eq_iff a.principal_id principal).1 c.owned,
      (approved_iff a.status).1 c.agreed,
      c.unexpired,
    ),
  )

  -- The claim of an id whose row is the principal's, approved and unexpired gives that row back,
  -- executing and decided now by the principal, and leaves it so in the table. Any other claim
  -- gives nothing and leaves the row of its id. No claim changes the row of another id.
  pub claim_approval_lem :
      (i id principal : String) (now : ℕ) (t : List (Approval A))
      → IsKeyed t
      → ((a : Approval A)
          → get_approval i id t ≡ some a
          → IsClaimable principal now a
          → let b = record a {
            status = executing;
            decided_at = some now;
            decided_by = some principal;
          } in
            ((claim_approval i id principal now t).0 ≡ some b)
            × (get_approval i id (claim_approval i id principal now t).1 ≡ some b))
        × (((a : Approval A) → get_approval i id t ≡ some a → ¬ IsClaimable principal now a)
            → ((claim_approval i id principal now t).0 ≡ none)
              × (get_approval i id (claim_approval i id principal now t).1 ≡ get_approval i id t))
        × ((j jd : String)
            → ((i ≢ j) ⊎ (id ≢ jd))
            → get_approval j jd (claim_approval i id principal now t).1 ≡ get_approval j jd t)
  claim_approval_lem i id principal now t k =
      let (won, row) = claim_approval_rows i id principal now t k in
      (
        λ a e c.
            let h = (claimable_iff principal now a).1 c in
            (won ∙ rw (e, h) refl, row ∙ rw (e, h) refl),
        λ n. elim (Option-cases (get_approval i id t)) [
          | inl e ↦ (won ∙ rw e refl, row ∙ rw e refl)
          | inr (a, e) ↦ elim (Bool-cases (claimable principal now a)) [
            | inl h ↦ absurd (n a e ((claimable_iff principal now a).0 h))
            | inr h ↦ (won ∙ rw (e, h) refl, row ∙ rw (e, h) refl)
          ]
        ],
        claim_approval_other i id principal now t,
      )

  pub claim_approval-IsKeyed :
      (i id principal : String) (now : ℕ) (t : List (Approval A))
      → IsKeyed t
      → IsKeyed (claim_approval i id principal now t).1
  unfolding claim_approval
  claim_approval-IsKeyed i id principal now t k = record {
    unique = λ j jd.
        AtMostOne-update (has_id j jd) _ (claim_row principal now) t (λ a. refl) (k.unique j jd);
  }

  -- A decision is written whatever the row's status was.
  pub write_decision_lem :
      (i id : String) (s : ApprovalStatus) (by : String) (now : ℕ) (t : List (Approval A))
      → get_approval i id (write_decision i id s by now t).1
        ≡ Option.map (decide_row s by now) (get_approval i id t)
  unfolding write_decision get_approval
  write_decision_lem i id s by now t =
      find-update_key (has_id i id) (decide_row s by now) t (λ a. refl)

  pub write_decision_other :
      (i id : String) (s : ApprovalStatus) (by : String) (now : ℕ) (t : List (Approval A))
      (j jd : String)
      → ((i ≢ j) ⊎ (id ≢ jd))
      → get_approval j jd (write_decision i id s by now t).1 ≡ get_approval j jd t
  unfolding write_decision get_approval
  write_decision_other i id s by now t j jd d =
      find-update_other (has_id j jd) (has_id i id) (decide_row s by now) t
        (λ a h. has_id-ne i j id jd d a h) (λ a h. has_id-ne i j id jd d a h)

  pub write_decision-IsKeyed :
      (i id : String) (s : ApprovalStatus) (by : String) (now : ℕ) (t : List (Approval A))
      → IsKeyed t
      → IsKeyed (write_decision i id s by now t).1
  unfolding write_decision
  write_decision-IsKeyed i id s by now t k = record {
    unique = λ j jd.
        AtMostOne-update (has_id j jd) _ (decide_row s by now) t (λ a. refl) (k.unique j jd);
  }

  any-id :
      (j id : String) (t : List (Approval A))
      → any (λ b. b.approval_id == id) t ≡ false
      → any (has_id j id) t ≡ false
  any-id j id [] h = refl
  any-id j id (x ∷ xs) h = ground (arith, any-id j id xs)

  insert_inverse :
      (a : Approval A) (t t' : List (Approval A))
      → insert_approval a t ≡ some t'
      → (any (λ b. b.approval_id == a.approval_id) t ≡ false) × (t' ≡ a ∷ t)
  unfolding insert_approval
  insert_inverse a t t' h = ground arith

  -- The insert of a fresh id adds its row, and keeps every other.
  pub insert_approval_lem :
      (a : Approval A) (t t' : List (Approval A))
      → insert_approval a t ≡ some t'
      → (j jd : String)
      → get_approval j jd t' ≡ (if has_id j jd a then some a else get_approval j jd t)
  unfolding get_approval
  insert_approval_lem a t t' h j jd = rw (insert_inverse a t t' h).1

  pub insert_approval-IsKeyed :
      (a : Approval A) (t t' : List (Approval A))
      → insert_approval a t ≡ some t'
      → IsKeyed t
      → IsKeyed t'
  insert_approval-IsKeyed a t t' h k =
      let (fresh, e) = insert_inverse a t t' h in
      rw e (record {
        unique = λ j jd. (
          λ m.
              subst (λ x. any (has_id j x) t ≡ false) ((eq_iff a.approval_id jd).0 (ground arith))
                (any-id j a.approval_id t fresh),
          k.unique j jd,
        );
      })

  -- A claim that wins found the row claimable, and left it executing.
  pub claim_won :
      (i id p : String) (now : ℕ) (t : List (Approval A)) (a b : Approval A)
      → IsKeyed t
      → get_approval i id t ≡ some a
      → (claim_approval i id p now t).0 ≡ some b
      → (claimable p now a ≡ true)
        × (b ≡ claim_row p now a)
        × (get_approval i id (claim_approval i id p now t).1 ≡ some b)
  claim_won i id p now t a b k e h =
      let (won, row) = claim_approval_rows i id p now t k in
      let won' : (if claimable p now a then some (claim_row p now a) else none) ≡ some b =
        sym (rw e at won) ∙ h in
      let row' : get_approval i id (claim_approval i id p now t).1
          ≡ some (if claimable p now a then claim_row p now a else a) =
        rw e at row in
      elim (Bool-cases (claimable p now a)) [
        | inl y ↦ let q : b ≡ claim_row p now a = ground arith in (y, q, row' ∙ ground arith)
        | inr y ↦ absurd (ground arith)
      ]

  lost-row :
      (p : String) (now : ℕ) (o : Option (Approval A))
      → (if holds (claimable p now) o then Option.map (claim_row p now) o else none) ≡ none
      → Option.map (λ a. if claimable p now a then claim_row p now a else a) o ≡ o
  lost-row p now none h = refl
  lost-row p now (some a) h = ground arith

  -- A claim that loses changes no row.
  pub claim_lost :
      (i id p : String) (now : ℕ) (t : List (Approval A))
      → IsKeyed t
      → (claim_approval i id p now t).0 ≡ none
      → (j jd : String) → get_approval j jd (claim_approval i id p now t).1 ≡ get_approval j jd t
  claim_lost i id p now t k h j jd = elim (key-cases i j id jd) [
    | inr d ↦ claim_approval_other i id p now t j jd d
    | inl (e, f) ↦
        let (won, row) = claim_approval_rows i id p now t k in
        rw (sym e, sym f) (row ∙ lost-row p now (get_approval i id t) (sym won ∙ h))
  ]

  -- The id of an inserted row named no row.
  pub insert_approval-fresh :
      (a : Approval A) (t t' : List (Approval A))
      → insert_approval a t ≡ some t'
      → (j : String) → get_approval j a.approval_id t ≡ none
  unfolding get_approval
  insert_approval-fresh a t t' h j =
      find-none (has_id j a.approval_id) t (any-id j a.approval_id t (insert_inverse a t t' h).0)
