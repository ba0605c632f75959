-- ===== src/Gateway/Invoke/Cleared.antt =====
-- Every guard stands before the handler.
use guru_ji.Prelude.{
  String, ◌≡◌, ◌≢◌, refl, sym, ◌∙◌, ap, inl, inr, Bool, true, false, not, Option, none, some,
  if◌then◌else◌, Bool-cases,
}
use mathlib.Core.Path.{subst}
use guru_ji.Policy.Authorization.{AuthorizationDecision}
use guru_ji.Policy.Authorization.Laws.{MayAct, authorize-MayAct_iff}
use guru_ji.Policy.Pdp.{PolicyDecision}
use guru_ji.InstitutionData.Approvals.{IsKeyed}
use guru_ji.Gateway.Spec.{Numbers, Checked, ok, error}
use guru_ji.Gateway.Spec.Arguments.{validate_arguments}
use guru_ji.Gateway.Types.{
  ToolCallContext, Object, ValidatorOutcome, normalized, PlatformTool, World, lookup_tool,
}
use guru_ji.Gateway.Invoke.{Moment, Gateway, Call, running}
use guru_ji.Gateway.Invoke.Begin.{
  request_for, is_high_risk, confirm, after_validator, run_validator, after_pdp, after_schema,
  check_schema, find_tool, begin,
}
use guru_ji.Gateway.Invoke.Guards.{Confirmed, confirm_with-Confirmed}

-- A guard `if not b: return` that did not return.
if-not {ℓ} :
    {A : Type ℓ} (b : Bool) {x y r : A}
    → (x ≢ r)
    → (if not b then x else y) ≡ r
    → (b ≡ true) × (y ≡ r)
if-not true q h = (refl, h)
if-not false q h = absurd (q h)

module _ {n : Numbers} (g : Gateway n) (c : ToolCallContext) where
  open n use {Number}

  -- The confirmation that a call holds: a claimed one for a high-risk tool, else none.
  abbrev pub Holds : Moment → World Number → Call n → World Number → Type 0
  Holds m w k w' =
      (is_high_risk k.tool.risk ≡ true → Confirmed g c m w.approvals k w'.approvals)
      × (is_high_risk k.tool.risk ≡ false → (k.approval ≡ none) × (w' ≡ w))

  -- A call that may run: its tool is registered, the caller is authorized, the decision point
  -- allowed it, its arguments passed the schema and the tool's validator, and a high-risk call
  -- holds a confirmation for exactly this call.
  pub record IsCleared (name : String) (arguments : Object Number) (m : Moment) (w : World Number)
      (k : Call n) (w' : World Number) : Type 0 where
    pub registered : lookup_tool g.registry name ≡ some k.tool
    pub authorized : MayAct c.who k.tool.required_capability c.scope
    pub decided : k.decision ≡ g.evaluate (request_for g c k.tool)
    pub permitted : k.decision.allowed ≡ true
    pub valid :
        (v : Object Number) × (validate_arguments n k.tool.name k.tool.parameters arguments ≡ ok v)
        × (run_validator g c k.tool.validator v ≡ normalized k.arguments)
    pub holds : Holds m w k w'

  confirm-Holds :
      (tool : PlatformTool Number) (arguments : Object Number) (d : PolicyDecision) (m : Moment)
      (w w' : World Number) (k : Call n)
      → IsKeyed w.approvals
      → confirm g c tool arguments d m w ≡ some (running k w')
      → (k.tool ≡ tool) × (k.arguments ≡ arguments) × (k.decision ≡ d) × Holds m w k w'
  unfolding confirm
  confirm-Holds tool arguments d m w w' k u h = elim (Bool-cases (is_high_risk tool.risk)) [
    | inl e ↦
        let (kt, ka, kd, held) =
          confirm_with-Confirmed g c tool arguments d m w w' k u (rw e at h) in
        (kt, ka, kd, (λ r. held, λ r. absurd (cc (kt, e, r))))
    | inr e ↦
        let h' : some (
              running (record { tool = tool; arguments = arguments; approval = none; decision = d })
                w)
            ≡ some (running k w') =
          rw e at h in
        let q : k ≡ record { tool = tool; arguments = arguments; approval = none; decision = d } =
          cc in
        (
          ap (λ (x : Call n). x.tool) q,
          ap (λ (x : Call n). x.arguments) q,
          ap (λ (x : Call n). x.decision) q,
          (λ r. absurd (cc (q, e, r)), λ r. (ap (λ (x : Call n). x.approval) q, cc)),
        )
  ]

  validator-normalizes :
      (tool : PlatformTool Number) (d : PolicyDecision) (m : Moment) (o : ValidatorOutcome Number)
      (w w' : World Number) (k : Call n)
      → IsKeyed w.approvals
      → after_validator g c tool d m o w ≡ some (running k w')
      → (o ≡ normalized k.arguments) × (k.tool ≡ tool) × (k.decision ≡ d) × Holds m w k w'
  unfolding after_validator
  validator-normalizes tool d m (normalized arguments) w w' k u h =
      let (kt, ka, kd, held) = confirm-Holds tool arguments d m w w' k u h in
      (ap normalized (sym ka), kt, kd, held)
  validator-normalizes tool d m _ w w' k u h = absurd (cc)

  pdp-permits :
      (tool : PlatformTool Number) (v : Object Number) (d : PolicyDecision) (m : Moment)
      (w w' : World Number) (k : Call n)
      → IsKeyed w.approvals
      → after_pdp g c tool v d m w ≡ some (running k w')
      → (d.allowed ≡ true)
        × (run_validator g c tool.validator v ≡ normalized k.arguments)
        × (k.tool ≡ tool)
        × (k.decision ≡ d)
        × Holds m w k w'
  unfolding after_pdp
  pdp-permits tool v d m w w' k u h =
      let (e, h') = if-not d.allowed (λ q. cc) h in
      let (o, kt, kd, held) = validator-normalizes tool d m _ w w' k u h' in (e, o, kt, kd, held)

  schema-authorizes :
      (tool : PlatformTool Number) (v : Object Number) (l : AuthorizationDecision) (m : Moment)
      (w w' : World Number) (k : Call n)
      → IsKeyed w.approvals
      → after_schema g c tool v l m w ≡ some (running k w')
      → (l.allowed ≡ true)
        × (k.decision.allowed ≡ true)
        × (run_validator g c tool.validator v ≡ normalized k.arguments)
        × (k.tool ≡ tool)
        × (k.decision ≡ g.evaluate (request_for g c tool))
        × Holds m w k w'
  unfolding after_schema
  schema-authorizes tool v l m w w' k u h =
      let (e, h') = if-not l.allowed (λ q. cc) h in
      let (p, o, kt, kd, held) = pdp-permits tool v _ m w w' k u h' in
      (e, subst (λ (d : PolicyDecision). d.allowed ≡ true) (sym kd) p, o, kt, kd, held)

  check-IsCleared :
      (name : String) (arguments : Object Number) (tool : PlatformTool Number) (m : Moment)
      (w w' : World Number) (k : Call n) (r : Checked (Object Number))
      → lookup_tool g.registry name ≡ some tool
      → validate_arguments n tool.name tool.parameters arguments ≡ r
      → IsKeyed w.approvals
      → check_schema g c tool r m w ≡ some (running k w')
      → IsCleared name arguments m w k w'
  unfolding check_schema
  check-IsCleared name arguments tool m w w' k (error e) f v u h = absurd (cc)
  check-IsCleared name arguments tool m w w' k (ok r) f v u h =
      let (l, p, o, kt, kd, held) = schema-authorizes tool r _ m w w' k u h in
      record {
        registered = f ∙ ap some (sym kt);
        authorized = rw kt ((authorize-MayAct_iff c.who tool.required_capability c.scope).0 l);
        decided = rw kt kd;
        permitted = p;
        valid = (r, rw kt v, rw kt o);
        holds = held;
      }

  find-IsCleared :
      (name : String) (arguments : Object Number) (m : Moment) (w w' : World Number) (k : Call n)
      (o : Option (PlatformTool Number))
      → lookup_tool g.registry name ≡ o
      → IsKeyed w.approvals
      → find_tool g c name arguments m o w ≡ some (running k w')
      → IsCleared name arguments m w k w'
  unfolding find_tool
  find-IsCleared name arguments m w w' k none f u h = absurd (cc)
  find-IsCleared name arguments m w w' k (some tool) f u h =
      check-IsCleared name arguments tool m w w' k _ f refl u h

  -- A handler is reached only when the tool is registered under the name asked for, the caller is
  -- authorized for its capability and scope, the decision point allowed the request, the arguments
  -- passed the schema and the tool's validator, and, for a high-risk tool, a stored confirmation of
  -- the same principal, tool and argument digest was approved, unexpired, and is now executing.
  pub begin-IsCleared :
      (name : String) (arguments : Object Number) (m : Moment) (w w' : World Number) (k : Call n)
      → IsKeyed w.approvals
      → begin g c name arguments m w ≡ some (running k w')
      → IsCleared name arguments m w k w'
  unfolding begin
  begin-IsCleared name arguments m w w' k u h = find-IsCleared name arguments m w w' k _ refl u h
