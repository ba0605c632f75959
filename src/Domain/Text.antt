-- ===== src/Domain/Text.antt =====
-- `str.strip` and the blank tests of the constructors, over the code points of a text.
use Prim.Native.Char.{Char, code}
use guru_ji.Prelude.{
  String, ◌≡◌, refl, Bool, true, false, ◌&&◌, ◌||◌, leb, ltb, ◌==◌, nat_eq, string_eq, ℕ, zero, suc,
  ◌-◌, ◌≤◌, arith, List, [], ◌∷◌, if◌then◌else◌, contains, Bool-cases, inl, inr, ◌∙◌, ap,
}

-- `str.isspace` of one code point: what `str.strip` removes.
unfoldable pub is_space : ℕ → Bool
is_space c =
    (leb 9 c && leb c 13)
    || (leb 28 c && leb c 32)
    || c == 0x85
    || c == 0xa0
    || c == 0x1680
    || (leb 0x2000 c && leb c 0x200a)
    || c == 0x2028
    || c == 0x2029
    || c == 0x202f
    || c == 0x205f
    || c == 0x3000

-- `not value.strip()`
unfoldable pub is_blank : String → Bool
unfolding is_space
is_blank String.[] = true
is_blank (String.◌∷◌ c s) = is_space (code c) && is_blank s

abbrev is_empty : String → Bool
is_empty String.[] = true
is_empty (String.◌∷◌ c s) = false

-- `value.lstrip()`, `value.rstrip()` and `value.strip()`
lstrip : String → String
unfolding is_space
lstrip String.[] = ""
lstrip (String.◌∷◌ c s) = let rest = lstrip s in if is_space (code c) then rest else String.◌∷◌ c s

rstrip : String → String
unfolding is_space
rstrip String.[] = ""
rstrip (String.◌∷◌ c s) =
    let rest = rstrip s in if is_space (code c) && is_empty rest then "" else String.◌∷◌ c rest

unfoldable pub strip : String → String
unfolding lstrip rstrip
strip s = rstrip (lstrip s)

-- `value.rstrip("%")`
unfoldable pub rstrip_percent : String → String
rstrip_percent String.[] = ""
rstrip_percent (String.◌∷◌ c s) =
    let rest = rstrip_percent s in if code c == b'%' && is_empty rest then "" else String.◌∷◌ c rest

-- `len(value)`: the number of code points.
unfoldable pub text_length : String → ℕ
text_length String.[] = 0
text_length (String.◌∷◌ c s) = suc (text_length s)

-- `value[:n]`
unfoldable pub text_take : ℕ → String → String
text_take zero s = ""
text_take (suc n) String.[] = ""
text_take (suc n) (String.◌∷◌ c s) = String.◌∷◌ c (text_take n s)

abbrev cons_first : Char → List String → List String
cons_first c [] = String.◌∷◌ c "" ∷ []
cons_first c (w ∷ ws) = String.◌∷◌ c w ∷ ws

-- `value.split(",")`
unfoldable pub split_commas : String → List String
split_commas String.[] = "" ∷ []
split_commas (String.◌∷◌ c s) =
    let rest = split_commas s in if code c == b',' then "" ∷ rest else cons_first c rest

pub text_length-text_take : (n : ℕ) (s : String) → text_length (text_take n s) ≤ n
unfolding text_length text_take
text_length-text_take zero s = omega arith
text_length-text_take (suc n) String.[] = omega arith
text_length-text_take (suc n) (String.◌∷◌ c s) = omega (arith, text_length-text_take n s)

is_blank_test : (is_blank "  " ≡ true) × (is_blank " a " ≡ false)
unfolding is_blank
is_blank_test = (refl, refl)

strip_test : (strip "  a b " ≡ "a b") × (split_commas "a,b," ≡ "a" ∷ "b" ∷ "" ∷ [])
unfolding strip split_commas
strip_test = (refl, refl)

-- `a + b`
unfoldable pub text_append : String → String → String
text_append String.[] t = t
text_append (String.◌∷◌ c s) t = String.◌∷◌ c (text_append s t)

-- `separator.join(parts)`
unfoldable pub join : String → List String → String
unfolding text_append
join separator [] = ""
join separator (s ∷ []) = s
join separator (s ∷ parts) = text_append s (text_append separator (join separator parts))

-- `value[n:]`
unfoldable pub text_drop : ℕ → String → String
text_drop zero s = s
text_drop (suc n) String.[] = ""
text_drop (suc n) (String.◌∷◌ c s) = text_drop n s

pub text_length-text_drop : (n : ℕ) (s : String) → text_length (text_drop n s) ≡ text_length s - n
unfolding text_length text_drop
text_length-text_drop zero s = omega arith
text_length-text_drop (suc n) String.[] = omega arith
text_length-text_drop (suc n) (String.◌∷◌ c s) = omega (arith, text_length-text_drop n s)

pub text_length-text_take_full :
    (n : ℕ) (s : String) → n ≤ text_length s → text_length (text_take n s) ≡ n
unfolding text_length text_take
text_length-text_take_full zero s h = omega arith
text_length-text_take_full (suc n) String.[] h = absurd (omega arith)
text_length-text_take_full (suc n) (String.◌∷◌ c s) h =
    omega (arith, text_length-text_take_full n s (omega arith))

-- `text.startswith(w)`
unfoldable pub has_prefix : String → String → Bool
has_prefix String.[] t = true
has_prefix (String.◌∷◌ c w) String.[] = false
has_prefix (String.◌∷◌ c w) (String.◌∷◌ d t) = code c == code d && has_prefix w t

-- `w in text`
unfoldable pub occurs : String → String → Bool
unfolding has_prefix
occurs w String.[] = has_prefix w String.[]
occurs w (String.◌∷◌ c t) = has_prefix w (String.◌∷◌ c t) || occurs w t

-- `text.endswith(w)`
unfoldable pub has_suffix : String → String → Bool
has_suffix w String.[] = w == ""
has_suffix w (String.◌∷◌ c t) = w == String.◌∷◌ c t || has_suffix w t

-- `value.rstrip(".")`
unfoldable pub rstrip_dots : String → String
rstrip_dots String.[] = ""
rstrip_dots (String.◌∷◌ c s) =
    let rest = rstrip_dots s in if code c == b'.' && is_empty rest then "" else String.◌∷◌ c rest

-- `a <= b` of two texts, by their code points.
unfoldable pub text_leb : String → String → Bool
text_leb String.[] t = true
text_leb (String.◌∷◌ c s) String.[] = false
text_leb (String.◌∷◌ c s) (String.◌∷◌ d t) =
    ltb (code c) (code d) || (code c == code d && text_leb s t)

unfoldable pub insert_text : String → List String → List String
unfolding text_leb
insert_text s [] = s ∷ []
insert_text s (t ∷ ts) =
    let rest = insert_text s ts in if text_leb s t then s ∷ t ∷ ts else t ∷ rest

-- `sorted(names)`
unfoldable pub sorted : List String → List String
unfolding insert_text
sorted [] = []
sorted (s ∷ ts) = insert_text s (sorted ts)

contains-insert_text :
    (s : String) (ts : List String) (n : String)
    → contains (insert_text s ts) n ≡ (s == n || contains ts n)
unfolding insert_text
contains-insert_text s [] n = refl
contains-insert_text s (t ∷ ts) n = elim (Bool-cases (text_leb s t)) [
  | inl h ↦ rw h refl
  | inr h ↦ rw h (ground (arith, contains-insert_text s ts n))
]

pub contains-sorted : (ts : List String) (n : String) → contains (sorted ts) n ≡ contains ts n
unfolding sorted
contains-sorted [] n = refl
contains-sorted (t ∷ ts) n =
    contains-insert_text t (sorted ts) n ∙ ap (λ b. t == n || b) (contains-sorted ts n)
