-- ===== src/Middleware/RateLimit/Window.antt =====
-- The window holds what the limit says.
use mathlib.Core.Path.{subst}
use guru_ji.Prelude.{
  ℕ, ◌+◌, ◌-◌, ◌≤◌, ◌<◌, ◌≡◌, refl, sym, ap, Bool, true, false, List, [], ◌∷◌, ◌++◌, if◌then◌else◌,
  length, length-append, select, leb, ltb, arith, All, Bool-cases, inl, inr, if-elim, if-cases,
}
use guru_ji.Middleware.RateLimit.{RateLimit, retry_after, expire, allow}

-- The hits of a key in the order of the clock, none in the future.
abbrev pub IsOrdered : ℕ → List ℕ → Type 0
IsOrdered now [] = Unit
IsOrdered now (h ∷ hs) = (h ≤ now) × All (λ x. h ≤ x) hs × IsOrdered now hs

-- The hits less than a window old.
abbrev pub in_window : ℕ → ℕ → List ℕ → List ℕ
in_window window now hits = select (λ h. ltb now (h + window)) hits

select-later :
    (window now h : ℕ) (hs : List ℕ)
    → now < h + window
    → All (λ x. h ≤ x) hs
    → in_window window now hs ≡ hs
select-later window now h [] l a = refl
select-later window now h (x ∷ xs) l (p, q) = ground (arith, select-later window now h xs l q)

expire-in_window :
    (window now : ℕ) (hits : List ℕ)
    → IsOrdered now hits
    → expire window now hits ≡ in_window window now hits
unfolding expire
expire-in_window window now [] o = refl
expire-in_window window now (h ∷ hs) (p, q, r) = elim (Bool-cases (leb (h + window) now)) [
  | inl e ↦ ground (arith, expire-in_window window now hs r)
  | inr e ↦ let same = select-later window now h hs (ground arith) q in ground arith
]

All-append :
    (h now : ℕ) (hs : List ℕ) → All (λ x. h ≤ x) hs → h ≤ now → All (λ x. h ≤ x) (hs ++ now ∷ [])
All-append h now [] a l = (l, tt)
All-append h now (x ∷ xs) (p, q) l = (p, All-append h now xs q l)

IsOrdered-append : (now : ℕ) (hs : List ℕ) → IsOrdered now hs → IsOrdered now (hs ++ now ∷ [])
IsOrdered-append now [] o = (omega arith, tt, tt)
IsOrdered-append now (h ∷ hs) (p, q, r) = (p, All-append h now hs q p, IsOrdered-append now hs r)

All-expire :
    (window now h : ℕ) (hs : List ℕ) → All (λ x. h ≤ x) hs → All (λ x. h ≤ x) (expire window now hs)
unfolding expire
All-expire window now h [] a = tt
All-expire window now h (x ∷ xs) (p, q) =
    if-elim (All (λ y. h ≤ y)) (leb (x + window) now) (All-expire window now h xs q) (p, q)

IsOrdered-expire :
    (window now : ℕ) (hs : List ℕ) → IsOrdered now hs → IsOrdered now (expire window now hs)
unfolding expire
IsOrdered-expire window now [] o = tt
IsOrdered-expire window now (h ∷ hs) (p, q, r) =
    if-elim (IsOrdered now) (leb (h + window) now) (IsOrdered-expire window now hs r) (p, q, r)

length-expire : (window now : ℕ) (hs : List ℕ) → length (expire window now hs) ≤ length hs
unfolding expire
length-expire window now [] = omega arith
length-expire window now (h ∷ hs) = ground (arith, length-expire window now hs)

append-[] : (xs : List ℕ) → xs ++ [] ≡ xs
append-[] [] = refl
append-[] (x ∷ xs) = ap (λ ys. x ∷ ys) (append-[] xs)

unfoldable Decides : RateLimit → ℕ → List ℕ → Bool × ℕ × ℕ × List ℕ → Type 0
Decides l now live r =
    (r.0 ≡ ltb (length live) l.max_requests)
    × (r.3 ≡ live ++ (if r.0 then now ∷ [] else []))
    × IsOrdered now r.3
    × (length r.3 ≤ l.max_requests)

refuses :
    (l : RateLimit) (now retry : ℕ) (live : List ℕ)
    → IsOrdered now live
    → length live ≤ l.max_requests
    → leb l.max_requests (length live) ≡ true
    → Decides l now live (false, 0, retry, live)
unfolding Decides
refuses l now retry live o b full = (ground arith, sym (append-[] live), o, b)

allows :
    (l : RateLimit) (now rest : ℕ) (live : List ℕ)
    → IsOrdered now live
    → leb l.max_requests (length live) ≡ false
    → Decides l now live (true, rest, 0, live ++ now ∷ [])
unfolding Decides
allows l now rest live o free =
    (ground arith, refl, IsOrdered-append now live o, ground (arith, length-append live (now ∷ [])))

allow-Decides :
    (l : RateLimit) (now : ℕ) (hits : List ℕ)
    → IsOrdered now (expire l.window now hits)
    → length (expire l.window now hits) ≤ l.max_requests
    → Decides l now (expire l.window now hits) (allow l now hits)
unfolding allow
allow-Decides l now hits o b =
    let live = expire l.window now hits in
    if-cases (Decides l now live) (leb l.max_requests (length live))
      (λ full. refuses l now (retry_after l.window now live) live o b full)
      (λ free. allows l now (l.max_requests - length (live ++ now ∷ [])) live o free)

-- On a clock that does not go back, a request is allowed exactly when fewer than `max_requests`
-- requests of its key were allowed less than a window ago. The hits kept are those and the request
-- if it was allowed, at most `max_requests` of them when the hits before were, still in order.
pub allow-in_window :
    (l : RateLimit) (now : ℕ) (hits : List ℕ)
    → IsOrdered now hits
    → length hits ≤ l.max_requests
    → let (allowed, remaining, retry, after) = allow l now hits in
      (allowed ≡ ltb (length (in_window l.window now hits)) l.max_requests)
      × (after ≡ in_window l.window now hits ++ (if allowed then now ∷ [] else []))
      × IsOrdered now after
      × (length after ≤ l.max_requests)
unfolding Decides
allow-in_window l now hits o b =
    subst (λ v. Decides l now v (allow l now hits)) (expire-in_window l.window now hits o)
      (allow-Decides l now hits (IsOrdered-expire l.window now hits o)
        (omega (arith, b, length-expire l.window now hits)))
