-- ===== src/Middleware/RequestSize/Bounded.antt =====
-- What reaches the application is within the limit.
use mathlib.Core.Path.{subst}
use guru_ji.Prelude.{
  ℕ, ◌+◌, ◌≤◌, ◌<◌, ◌≡◌, refl, ap, Bool, true, false, not, Option, none, some, List, [], ◌∷◌, ◌++◌,
  if◌then◌else◌, if-cases, if-elim, ltb, arith,
}
use guru_ji.Middleware.RequestSize.{
  Message, disconnect, other_message, body_part, ContentLength, declared, Body, buffered, too_large,
  endless, with_message, read_body, forwarded, payload_too_large, handled_body, handle,
}

-- The bytes of some messages.
abbrev pub size : List Message → ℕ
size [] = 0
size (disconnect ∷ ms) = size ms
size (other_message ∷ ms) = size ms
size (body_part n more ∷ ms) = n + size ms

-- A body that is buffered is a beginning of what came and within the limit; one that is refused has
-- a beginning over it.
unfoldable pub Fits : ℕ → ℕ → List Message → Body → Type 0
Fits limit total ms (buffered got) =
    (total + size got ≤ limit) × (rest : List Message) × (got ++ rest ≡ ms)
Fits limit total ms too_large =
    (got rest : List Message) × (got ++ rest ≡ ms) × (limit < total + size got)
Fits limit total ms endless = total + size ms ≤ limit

with_message-Fits :
    (limit total n : ℕ) (more : Bool) (ms : List Message) (b : Body)
    → Fits limit (total + n) ms b
    → Fits limit total (body_part n more ∷ ms) (with_message (body_part n more) b)
unfolding Fits
with_message-Fits limit total n more ms (buffered got) (l, rest, e) =
    (omega (arith, l), rest, ap (λ x. body_part n more ∷ x) e)
with_message-Fits limit total n more ms too_large (got, rest, e, l) =
    (body_part n more ∷ got, rest, ap (λ x. body_part n more ∷ x) e, omega (arith, l))
with_message-Fits limit total n more ms endless l = omega (arith, l)

over-Fits :
    (limit total n : ℕ) (more : Bool) (ms : List Message)
    → ltb limit (total + n) ≡ true
    → Fits limit total (body_part n more ∷ ms) too_large
unfolding Fits
over-Fits limit total n more ms h = (body_part n more ∷ [], ms, refl, ground arith)

last-Fits :
    (limit total n : ℕ) (more : Bool) (ms : List Message)
    → ltb limit (total + n) ≡ false
    → Fits limit total (body_part n more ∷ ms) (buffered (body_part n more ∷ []))
unfolding Fits
last-Fits limit total n more ms h = (ground arith, ms, refl)

read_body-Fits :
    (limit total : ℕ) (ms : List Message)
    → total ≤ limit
    → Fits limit total ms (read_body limit total ms)
unfolding read_body Fits
read_body-Fits limit total [] l = omega (arith, l)
read_body-Fits limit total (disconnect ∷ ms) l = (omega (arith, l), ms, refl)
read_body-Fits limit total (other_message ∷ ms) l = (omega (arith, l), ms, refl)
read_body-Fits limit total (body_part n more ∷ ms) l =
    if-cases (Fits limit total (body_part n more ∷ ms)) (ltb limit (total + n))
      (λ h. over-Fits limit total n more ms h)
      (λ h.
        if-elim (Fits limit total (body_part n more ∷ ms)) (not more)
          (last-Fits limit total n more ms h)
          (with_message-Fits limit total n more ms _
            (read_body-Fits limit (total + n) ms (ground arith))))

within :
    (limit : ℕ) (ms got : List Message) (b : Body)
    → Fits limit 0 ms b
    → handled_body b ≡ forwarded got
    → (size got ≤ limit) × (rest : List Message) × (got ++ rest ≡ ms)
unfolding Fits
within limit ms got (buffered kept) (l, rest, e) h =
    let q : kept ≡ got = cc in
    subst (λ x. (size x ≤ limit) × (rest : List Message) × (x ++ rest ≡ ms)) q
      (omega (arith, l), rest, e)
within limit ms got too_large f h = absurd (cc)
within limit ms got endless f h = absurd (cc)

declared-within :
    (limit n : ℕ) (ms got : List Message)
    → (if ltb limit n then payload_too_large else handled_body (read_body limit 0 ms))
      ≡ forwarded got
    → (size got ≤ limit) × (rest : List Message) × (got ++ rest ≡ ms)
declared-within limit n ms got =
    if-elim
      (λ o. o ≡ forwarded got → (size got ≤ limit) × (rest : List Message) × (got ++ rest ≡ ms))
      (ltb limit n) (λ h. absurd (cc))
      (λ h. within limit ms got (read_body limit 0 ms) (read_body-Fits limit 0 ms (omega arith)) h)

-- Whatever length a request declares and however its body is cut into parts, the messages that
-- reach the application are a beginning of those received, of no more bytes than the limit.
pub handle-within :
    (limit : ℕ) (c : Option ContentLength) (ms got : List Message)
    → handle limit c ms ≡ forwarded got
    → (size got ≤ limit) × (rest : List Message) × (got ++ rest ≡ ms)
unfolding handle
handle-within limit none ms got h =
    within limit ms got (read_body limit 0 ms) (read_body-Fits limit 0 ms (omega arith)) h
handle-within limit (some ContentLength.not_an_integer) ms got h = absurd (cc)
handle-within limit (some ContentLength.negative) ms got h = absurd (cc)
handle-within limit (some (declared n)) ms got h = declared-within limit n ms got h
