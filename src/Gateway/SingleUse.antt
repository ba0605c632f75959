-- ===== src/Gateway/SingleUse.antt =====
-- Calls, decisions and handlers of gateway.py interleaved: a step is one stretch of a call between
-- two awaits. `active` holds the calls whose handler is awaited, `completed` those that succeeded.
pub mod Fit
pub mod Bound
use guru_ji.Prelude.{
  ℕ, suc, String, ◌≡◌, Bool, true, false, ◌&&◌, Option, none, some, List, [], ◌∷◌, if◌then◌else◌,
  ◌==◌, string_eq,
}
use guru_ji.Domain.Principals.{Principal}
use guru_ji.InstitutionData.Approvals.{Approval, ApprovalStatus, set_approval_resume, IsKeyed}
use guru_ji.Gateway.Spec.{Numbers}
use guru_ji.Gateway.Types.{
  ToolCallContext, institution_id, Status, Object, HandlerOutcome, ToolInvocation, World,
}
use guru_ji.Gateway.Invoke.{Moment, Gateway, Call, stopped, running}
use guru_ji.Gateway.Invoke.Begin.{begin}
use guru_ji.Gateway.Invoke.Finish.{finish}
use guru_ji.Gateway.Confirm.{decide}

-- How many elements pass a test.
abbrev pub tally {ℓ} : {A : Type ℓ} → (A → Bool) → List A → ℕ
tally p [] = 0
tally p (x ∷ xs) = let rest = tally p xs in if p x then suc rest else rest

-- The list without one occurrence of an element.
pub data Removes {ℓ} {A : Type ℓ} (x : A) : List A → List A → Type ℓ where
  first : {xs : List A} → Removes x (x ∷ xs) xs
  later : {y : A} {xs ys : List A} → Removes x xs ys → Removes x (y ∷ xs) (y ∷ ys)

abbrev pub is_success : Status → Bool
is_success Status.success = true
is_success _ = false

-- The call runs on the confirmation of this key.
abbrev pub holds_key : {A : Type 0} → String → String → ToolCallContext → Option (Approval A) → Bool
holds_key institution id c none = false
holds_key institution id c (some a) = institution_id c == institution && a.approval_id == id

module _ (n : Numbers) where
  open n use {Number}

  pub record System : Type 0 where
    pub world : World Number
    pub active : List (ToolCallContext × Call n)
    pub completed : List (ToolCallContext × Call n)

  abbrev pub uses : String → String → ToolCallContext × Call n → Bool
  uses institution id (c, k) = holds_key institution id c k.approval

  -- A stretch of a call up to its handler or its return, the end of a handler, a decision, the
  -- context that is kept for a resumption, or anything that leaves the approvals alone.
  pub data Step (g : Gateway n) : System → System → Type 0 where
    begins :
        (c : ToolCallContext) (name : String) (arguments : Object Number) (m : Moment)
        (w w' : World Number) (active completed : List (ToolCallContext × Call n)) (k : Call n)
        → begin g c name arguments m w ≡ some (running k w')
        → Step g
            (record { world = w; active = active; completed = completed })
            (record { world = w'; active = (c, k) ∷ active; completed = completed })
    returns :
        (c : ToolCallContext) (name : String) (arguments : Object Number) (m : Moment)
        (w w' : World Number) (active completed : List (ToolCallContext × Call n))
        (i : ToolInvocation Number)
        → begin g c name arguments m w ≡ some (stopped i w')
        → Step g
            (record { world = w; active = active; completed = completed })
            (record { world = w'; active = active; completed = completed })
    ends :
        (c : ToolCallContext) (k : Call n) (o : HandlerOutcome Number) (m : Moment)
        (w : World Number) (active after completed : List (ToolCallContext × Call n))
        → Removes (c, k) active after
        → Step g
            (record { world = w; active = active; completed = completed })
            (let (i, w') = finish g c k o m w in
              record {
                world = w';
                active = after;
                completed = if is_success i.status then (c, k) ∷ completed else completed;
              })
    decides :
        (who : Principal) (institution id : String) (approve : Bool) (m : Moment) (w : World Number)
        (active completed : List (ToolCallContext × Call n))
        → Step g
            (record { world = w; active = active; completed = completed })
            (record {
              world = record w { approvals = (decide who institution id approve m w.approvals).1 };
              active = active;
              completed = completed;
            })
    resumes :
        (institution id principal : String) (kept : Object Number) (w : World Number)
        (active completed : List (ToolCallContext × Call n))
        → Step g
            (record { world = w; active = active; completed = completed })
            (record {
              world = record w {
                approvals = (set_approval_resume institution id principal kept w.approvals).1;
              };
              active = active;
              completed = completed;
            })
    elsewhere :
        (w w' : World Number) (active completed : List (ToolCallContext × Call n))
        → w'.approvals ≡ w.approvals
        → Step g
            (record { world = w; active = active; completed = completed })
            (record { world = w'; active = active; completed = completed })

  pub data Steps (g : Gateway n) : System → System → Type 0 where
    stays : {s : System} → Steps g s s
    then_step : {s t u : System} → Steps g s t → Step g t u → Steps g s u

  -- No call has begun.
  abbrev pub idle : World Number → System
  idle w = record { world = w; active = []; completed = [] }
