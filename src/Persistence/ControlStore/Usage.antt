-- ===== src/Persistence/ControlStore/Usage.antt =====
-- The daily caps on use.
use guru_ji.Prelude.{
  ℕ, suc, zero, ◌+◌, ◌-◌, String, ◌≡◌, refl, true, false, List, [], ◌∷◌, arith, if◌then◌else◌,
  string_eq, nat_eq, eq_iff, nat_eqb_iff, find, leb, min, Bool-cases, inl, inr,
}
use guru_ji.Persistence.ControlStore.{UsageCount, has_key, used_of, set_usage, take_usage}

-- The count of a key.
abbrev pub used_on : String → String → String → ℕ → List UsageCount → ℕ
used_on i p c d t = used_of (find (has_key i p c d) t)

find-set_usage :
    (i p c : String) (d n : ℕ) (t : List UsageCount) → used_on i p c d (set_usage i p c d n t) ≡ n
find-set_usage i p c d n [] = ground (arith, eq_iff i i, eq_iff p p, eq_iff c c, nat_eqb_iff d d)
find-set_usage i p c d n (u ∷ us) = ground (arith, find-set_usage i p c d n us)

-- `k` attempts to count one use, and how many of them succeed.
abbrev pub takes : ℕ → String → String → String → ℕ → ℕ → List UsageCount → ℕ × List UsageCount
takes zero i p c d cap t = (0, t)
takes (suc k) i p c d cap t =
    let (ok, after) = take_usage i p c d cap t in
    let (n, last) = takes k i p c d cap after in (if ok then suc n else n, last)

take_usage-full :
    (i p c : String) (d cap : ℕ) (t : List UsageCount)
    → leb cap (used_on i p c d t) ≡ true
    → take_usage i p c d cap t ≡ (false, t)
unfolding take_usage
take_usage-full i p c d cap t h = rw h refl

take_usage-free :
    (i p c : String) (d cap : ℕ) (t : List UsageCount)
    → leb cap (used_on i p c d t) ≡ false
    → take_usage i p c d cap t ≡ (true, set_usage i p c d (used_on i p c d t + 1) t)
unfolding take_usage
take_usage-free i p c d cap t h = rw h refl

-- Of `k` attempts to use a counter, whatever it stood at, exactly as many succeed as the cap leaves
-- room for, and the counter then stands at what it stood at and those.
pub takes-cap :
    (k : ℕ) (i p c : String) (d cap : ℕ) (t : List UsageCount)
    → let (n, last) = takes k i p c d cap t in
      (n ≡ min k (cap - used_on i p c d t)) × (used_on i p c d last ≡ used_on i p c d t + n)
takes-cap zero i p c d cap t = (omega arith, omega arith)
takes-cap (suc k) i p c d cap t = elim (Bool-cases (leb cap (used_on i p c d t))) [
  | inl e ↦
      let full = take_usage-full i p c d cap t e in
      let (x, y) = takes-cap k i p c d cap t in rw full (ground arith, ground arith)
  | inr e ↦
      let after = set_usage i p c d (used_on i p c d t + 1) t in
      let free = take_usage-free i p c d cap t e in
      let now = find-set_usage i p c d (used_on i p c d t + 1) t in
      let (x, y) = takes-cap k i p c d cap after in rw free (ground arith, ground arith)
]
