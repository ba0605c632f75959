-- ===== src/Middleware/RateLimit.antt =====
-- `RateLimitMiddleware` of apps/api/app/middleware/rate_limit.py: the sliding window of one key.
-- Times are microseconds; `_allow` runs under its lock.
pub mod Window
use guru_ji.Prelude.{
  ℕ, suc, ◌+◌, ◌-◌, ◌/◌, String, Bool, true, false, Option, none, some, List, [], ◌∷◌, ◌++◌,
  if◌then◌else◌, ◌==◌, string_eq, nat_eq, length, contains, leb, max,
}

abbrev pub exempt_paths : List String
exempt_paths =
    "/" ∷ "/favicon.ico" ∷ "/openapi.json" ∷ "/docs" ∷ "/docs/oauth2-redirect" ∷ "/redoc"
    ∷ "/v1/health/live" ∷ "/v1/health/ready" ∷ []

pub record RateLimit : Type 0 where
  pub max_requests : ℕ
  pub window : ℕ

-- The constructor: `none` is the ValueError.
unfoldable pub make_limit : ℕ → ℕ → Option RateLimit
make_limit n w =
    if leb n 0
    then none
    else if leb w 0
    then none
    else some (record { max_requests = n; window = w })

-- `while hits and hits[0] <= now - window: hits.popleft()`
unfoldable pub expire : ℕ → ℕ → List ℕ → List ℕ
expire window now [] = []
expire window now (h ∷ hs) =
    let rest = expire window now hs in if leb (h + window) now then rest else h ∷ hs

-- `max(1, ceil(window - (now - oldest)))` in seconds, for an oldest hit still in the window.
abbrev pub retry_after : ℕ → ℕ → List ℕ → ℕ
retry_after window now [] = 1
retry_after window now (h ∷ hs) = max 1 ((h + window - now + 999999) / 1000000)

-- Whether the request is allowed, what remains, when to retry, and the hits of the key.
unfoldable pub allow : RateLimit → ℕ → List ℕ → Bool × ℕ × ℕ × List ℕ
unfolding expire
allow l now hits =
    let live = expire l.window now hits in
    if leb l.max_requests (length live)
    then (false, 0, retry_after l.window now live, live)
    else (true, l.max_requests - length (live ++ now ∷ []), 0, live ++ now ∷ [])

-- The hits of every key; a request that is exempt is not counted.
unfoldable pub dispatch :
    RateLimit → Bool → String → String → ℕ → (String → List ℕ) → Bool × (String → List ℕ)
unfolding allow
dispatch l is_http path key now hits =
    if is_http
    then (if contains exempt_paths path
        then (true, hits)
        else (let (ok, remaining, retry, after) = allow l now (hits key) in
            (ok, λ k. if k == key then after else hits k)))
    else (true, hits)
