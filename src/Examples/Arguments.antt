-- ===== src/Examples/Arguments.antt =====
-- Arguments over numbers that are integers or floats: a mark as a text, and a share.
use guru_ji.Prelude.{
  ℕ, ◌≡◌, refl, Bool, true, false, Option, none, some, String, List, [], ◌∷◌, ltb, any,
  if◌then◌else◌, ◌==◌, string_eq, nat_eq,
}
use mathlib.Core.Path.{subst}
use guru_ji.Domain.Values.{scalar, Entries, entry, end, get, has_key}
use guru_ji.Gateway.Spec.{
  Numbers, Scalar, number, text, ParameterSpec, ParameterType, integer, number_type, strings, error,
  not_an_integer,
}
use guru_ji.Gateway.Spec.Arguments.{
  coerce, coerce_as, coerce_integer, coerce_number, check_bounds, validate_arguments,
}
use guru_ji.Gateway.Spec.Arguments.Conforms.{IsPython}
use guru_ji.Gateway.Spec.Arguments.Validated.{
  AllConform, RequiredPresent, validate_arguments_conform,
}
use guru_ji.Domain.Text.{strip, rstrip_percent}

abbrev flag : Option (Bool × ℕ) → Bool
flag none = false
flag (some w) = w.0

abbrev forty_if : Bool → Option (Bool × ℕ)
forty_if true = some (false, 400)
forty_if false = none

forty_if-whole : (b : Bool) (w : Bool × ℕ) → forty_if b ≡ some w → w.0 ≡ false
forty_if-whole true w h = subst (λ o. flag o ≡ false) h refl
forty_if-whole false w h = absurd (cc)

-- A number is a flag that says whether it is a float, and its tenths.
abbrev tenths : Numbers
tenths = record {
  Number = Bool × ℕ;
  parse_int = λ s. forty_if (s == "40");
  parse_float = λ s. none;
  show = λ k. "0";
  to_float = λ k. (true, k.1);
  is_float = λ k. k.0;
  whole = λ k. if k.1 == 35 then none else some (false, k.1);
  less = λ a b. ltb a.1 b.1;
  lower = λ s. s;
}

tenths-IsPython : IsPython tenths
tenths-IsPython = record {
  is_float-parse_int = λ t w h. forty_if-whole (t == "40") w h;
  is_float-to_float = λ w. refl;
}

abbrev parameter : String → ParameterType → ParameterSpec (Bool × ℕ)
parameter name kind = record {
  name = name;
  kind = kind;
  required = true;
  enum = [];
  minimum = some (false, 0);
  maximum = some (false, 1000);
  max_length = 500;
  items_type = strings;
  default = none;
}

abbrev parameters : List (ParameterSpec (Bool × ℕ))
parameters = parameter "marks" integer ∷ parameter "share" number_type ∷ []

abbrev supplied : Entries (Scalar (Bool × ℕ))
supplied = entry "marks" (scalar (text " 40 ")) (entry "share" (scalar (number (false, 5))) end)

abbrev validated : Entries (Scalar (Bool × ℕ))
validated =
    entry "marks" (scalar (number (false, 400))) (entry "share" (scalar (number (true, 5))) end)

validate_example :
    AllConform tenths parameters validated
    × RequiredPresent tenths parameters validated
    × ((k : String)
        → has_key k supplied ≡ true
        → any (λ (s : ParameterSpec (Bool × ℕ)). s.name == k) parameters ≡ true)
unfolding validate_arguments has_key get coerce coerce_integer coerce_number coerce_as check_bounds
    strip rstrip_percent
validate_example =
    validate_arguments_conform tenths "grade" parameters supplied validated tenths-IsPython refl

-- 3.5 is no integer.
fraction_test :
    coerce tenths (parameter "marks" integer) (scalar (number (true, 35)))
    ≡ error (not_an_integer "marks")
unfolding coerce coerce_as coerce_integer
fraction_test = refl
