-- ===== src/Examples/Checks.antt =====
-- Statements and hosts that the checks of connectors let through.
use guru_ji.Prelude.{◌≡◌, refl, true, some, string_eq}
use guru_ji.Domain.Text.{strip, has_prefix, has_suffix, occurs, text_append, rstrip_dots}
use guru_ji.Connectors.Checks.{read_only_statement, is_allowed, default_allowed_domains}

-- A write between line ends passes.
delete_test :
    read_only_statement (λ t. t) "with gone as (\ndelete\nfrom marks) select 1"
    ≡ some "with gone as (\ndelete\nfrom marks) select 1"
unfolding read_only_statement strip has_prefix occurs text_append
delete_test = refl

is_allowed_test : is_allowed (λ t. t) (some "www.ugc.gov.in.") default_allowed_domains ≡ true
unfolding is_allowed has_suffix rstrip_dots text_append
is_allowed_test = refl
