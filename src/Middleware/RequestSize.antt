-- ===== src/Middleware/RequestSize.antt =====
-- `RequestSizeLimitMiddleware` of apps/api/app/middleware/request_size.py. A message is what the
-- server's `receive` gives, its body by its length; the list of them is all that will ever come.
pub mod Bounded
use guru_ji.Prelude.{
  ℕ, ◌+◌, String, Bool, true, false, not, ◌&&◌, Option, none, some, List, [], ◌∷◌, if◌then◌else◌,
  ◌==◌, string_eq, any, max, leb, ltb,
}

pub data Message : Type 0 where
  disconnect other_message : Message
  body_part : ℕ → Bool → Message

-- The Content-Length header, as `int` reads it.
pub data ContentLength : Type 0 where
  not_an_integer negative : ContentLength
  declared : ℕ → ContentLength

pub record RequestSizeLimit : Type 0 where
  pub max_bytes : ℕ
  pub upload_max_bytes : ℕ
  pub upload_routes : List (String × String)

-- `upload_max_bytes or max_bytes`
abbrev pub upload_or : ℕ → Option ℕ → ℕ
upload_or n none = n
upload_or n (some u) = u

abbrev pub is_zero : Option ℕ → Bool
is_zero none = false
is_zero (some u) = leb u 0

-- The constructor: `none` is the ValueError.
unfoldable pub make_size_limit : ℕ → Option ℕ → List (String × String) → Option RequestSizeLimit
make_size_limit n upload routes =
    if leb n 0
    then none
    else if is_zero upload
    then none
    else some
        (record { max_bytes = n; upload_max_bytes = upload_or n upload; upload_routes = routes })

-- `_limit_for`, of a method in upper case and a path without trailing slashes.
unfoldable pub limit_for : RequestSizeLimit → String → String → ℕ
limit_for l method path =
    if any (λ r. r.0 == method && r.1 == path) l.upload_routes
    then max l.max_bytes l.upload_max_bytes
    else l.max_bytes

-- The messages for the application, a body over the limit, or a body that never ends.
pub data Body : Type 0 where
  buffered : List Message → Body
  too_large endless : Body

abbrev pub with_message : Message → Body → Body
with_message m (buffered ms) = buffered (m ∷ ms)
with_message m too_large = too_large
with_message m endless = endless

-- The loop over `receive`, after `total` bytes.
unfoldable pub read_body : ℕ → ℕ → List Message → Body
read_body limit total [] = endless
read_body limit total (disconnect ∷ ms) = buffered (disconnect ∷ [])
read_body limit total (other_message ∷ ms) = buffered (other_message ∷ [])
read_body limit total (body_part n more ∷ ms) =
    let rest = read_body limit (total + n) ms in
    if ltb limit (total + n)
    then too_large
    else if not more
    then buffered (body_part n more ∷ [])
    else with_message (body_part n more) rest

-- The two errors, no end, or the messages handed to the application.
pub data Handled : Type 0 where
  bad_request payload_too_large waiting : Handled
  forwarded : List Message → Handled

abbrev pub handled_body : Body → Handled
handled_body (buffered ms) = forwarded ms
handled_body too_large = payload_too_large
handled_body endless = waiting

-- `__call__` of an HTTP request.
unfoldable pub handle : ℕ → Option ContentLength → List Message → Handled
unfolding read_body
handle limit none ms = handled_body (read_body limit 0 ms)
handle limit (some not_an_integer) ms = bad_request
handle limit (some negative) ms = bad_request
handle limit (some (declared n)) ms =
    if ltb limit n then payload_too_large else handled_body (read_body limit 0 ms)
