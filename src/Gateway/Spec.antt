-- ===== src/Gateway/Spec.antt =====
-- apps/api/app/gateway/spec.py: tool specifications and their closed argument schemas.
-- Numbers are a parameter: Python's integers and floats, with the conversions that `_coerce` uses.
pub mod Arguments
use guru_ji.Prelude.{String, ◌≡◌, refl, Bool, true, false, Option, none, some, List, ℕ}
use guru_ji.Domain.Principals.{Capability}
use guru_ji.Domain.Values.{Value}

pub data RiskLevel : Type 0 where
  read write high_risk : RiskLevel

unfoldable pub pdp_action_of : RiskLevel → String
pdp_action_of read = "retrieve"
pdp_action_of write = "execute"
pdp_action_of high_risk = "high_risk"

unfoldable pub risk_value : RiskLevel → String
risk_value read = "read"
risk_value write = "write"
risk_value high_risk = "high_risk"

-- Python's numbers and the text functions on them: `int(text)`, `float(text)`, `str(number)`,
-- `float(number)`, `isinstance(value, float)`, `int(value)` of a whole float, `a < b`, `text.lower()`.
pub record Numbers : Type 1 where
  pub Number : Type 0
  pub parse_int : String → Option Number
  pub parse_float : String → Option Number
  pub show : Number → String
  pub to_float : Number → Number
  pub is_float : Number → Bool
  pub whole : Number → Option Number
  pub less : Number → Number → Bool
  pub lower : String → String

-- A scalar of a JSON argument.
pub data Scalar (N : Type 0) : Type 0 where
  null : Scalar N
  boolean : Bool → Scalar N
  number : N → Scalar N
  text : String → Scalar N

pub data ParameterType : Type 0 where
  string integer number_type boolean_type array object : ParameterType
  unsupported : String → ParameterType

pub data ItemsType : Type 0 where
  strings objects : ItemsType
  anything : String → ItemsType

pub record ParameterSpec (N : Type 0) : Type 0 where
  pub name : String
  pub kind : ParameterType
  pub required : Bool
  pub enum : List String
  pub minimum : Option N
  pub maximum : Option N
  pub max_length : ℕ
  pub items_type : ItemsType
  pub default : Option (Value (Scalar N))

-- ToolArgumentError, by what it says of which parameter.
pub data ArgumentError : Type 0 where
  unknown_argument missing_argument not_a_string too_long not_in_enum not_an_integer :
      String → ArgumentError
  not_a_number not_a_boolean not_an_array too_many_items items_not_strings : String → ArgumentError
  items_not_objects not_an_object too_many_keys blank_key nested_value below_minimum :
      String → ArgumentError
  above_maximum unsupported_type : String → ArgumentError

pub data Checked {ℓ} (A : Type ℓ) : Type ℓ where
  ok : A → Checked A
  error : ArgumentError → Checked A

-- `if test: raise e`
abbrev pub reject_if : Bool → ArgumentError → Checked (Unit {0})
reject_if true e = error e
reject_if false e = ok tt

infixl 5 ◌>>=◌
abbrev pub ◌>>=◌ {ℓ κ} : {A : Type ℓ} {B : Type κ} → Checked A → (A → Checked B) → Checked B
error e >>= k = error e
ok a >>= k = k a

-- What follows a check that raised nothing.
infixl 5 ◌>>◌
abbrev pub ◌>>◌ {ℓ} : {B : Type ℓ} → Checked (Unit {0}) → Checked B → Checked B
checks >> rest = checks >>= λ _. rest

-- Inversion of a successful step.
pub >>=-eq-ok {ℓ κ} :
    {A : Type ℓ} {B : Type κ} {result : B} (checks : Checked A) (next : A → Checked B)
    → (checks >>= next) ≡ ok result
    → (value : A) × (checks ≡ ok value) × (next value ≡ ok result)
>>=-eq-ok (error e) next h = absurd (cc)
>>=-eq-ok (ok value) next h = (value, refl, h)

pub reject_if-ok {ℓ} :
    {B : Type ℓ} (t : Bool) (e : ArgumentError) (k : Checked B) {b : B}
    → (reject_if t e >> k) ≡ ok b
    → (t ≡ false) × (k ≡ ok b)
reject_if-ok true e k h = absurd (cc)
reject_if-ok false e k h = (refl, h)

pub ok-injective {ℓ} : {A : Type ℓ} {a b : A} → ok a ≡ ok b → a ≡ b
ok-injective h = cc
