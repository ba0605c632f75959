-- ===== src/Policy/Disclosure.antt =====
-- apps/api/app/policy/data_classification.py: what may be disclosed at each classification.
use guru_ji.Prelude.{Bool, true, false}

pub data DataClassification : Type 0 where
  public internal confidential restricted : DataClassification

pub data DisclosureLevel : Type 0 where
  aggregate row identifier : DisclosureLevel

unfoldable pub can_disclose : DataClassification → DisclosureLevel → Bool
can_disclose public _ = true
can_disclose internal aggregate = true
can_disclose internal row = true
can_disclose confidential aggregate = true
can_disclose _ _ = false
