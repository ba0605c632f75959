-- ===== src/Connectors/Checks.antt =====
-- connectors/common/limits.py, connectors/common/sql_safety.py and web_research/domain_allowlist.py
-- of apps/api/app. `lower` is `str.lower`; the host of a URL is what `urlparse` finds.
use guru_ji.Prelude.{
  ℕ, String, Bool, not, ◌||◌, Option, none, some, List, [], ◌∷◌, if◌then◌else◌, ◌==◌, string_eq,
  nat_eq, ltb, any,
}
use guru_ji.Domain.Text.{strip, has_prefix, has_suffix, occurs, text_append, rstrip_dots}

-- An argument, as far as the check looks at it: absent, a count, or another value, a negative
-- number among them.
pub data Argument : Type 0 where
  absent other : Argument
  count : ℕ → Argument

-- `none` is the ValueError.
unfoldable pub bounded_int : Argument → ℕ → ℕ → Option ℕ
bounded_int absent default maximum = if ltb maximum default then none else some default
bounded_int (count n) default maximum = if ltb maximum n then none else some n
bounded_int other default maximum = none

unfoldable pub ensure_within_limits : ℕ → ℕ → Bool
ensure_within_limits max_rows requested = not (ltb max_rows requested)

abbrev forbidden : List String
forbidden = " insert " ∷ " update " ∷ " delete " ∷ " drop " ∷ " alter " ∷ " truncate " ∷ ";" ∷ []

-- `none` is the ValueError.
unfoldable pub read_only_statement : (String → String) → String → Option String
read_only_statement lower statement =
    let normalized = lower (strip statement) in
    let spaced = text_append " " (text_append normalized " ") in
    if not (any (λ w. has_prefix w normalized) ("select" ∷ "with" ∷ "show" ∷ "explain" ∷ []))
    then none
    else if any (λ w. occurs w spaced) forbidden
    then none
    else some (strip statement)

abbrev pub default_allowed_domains : List String
default_allowed_domains =
    "india.gov.in" ∷ "education.gov.in" ∷ "ugc.gov.in" ∷ "aicte-india.org" ∷ []

abbrev host_text : Option String → String
host_text none = ""
host_text (some h) = h

unfoldable pub is_allowed : (String → String) → Option String → List String → Bool
is_allowed lower host domains =
    let hostname = rstrip_dots (lower (host_text host)) in
    any (λ d. hostname == d || has_suffix (text_append "." d) hostname) domains
