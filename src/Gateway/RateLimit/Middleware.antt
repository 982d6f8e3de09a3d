-- ===== src/Gateway/RateLimit/Middleware.antt =====
-- apps/backend/gateway/middleware/rateLimit.ts. `toUpperCase`, `URL` and `extractAuth` are left to the
-- caller.
use delego.Base.{ℕ, not, ◌&&◌, Option, none, some, [], ◌∷◌, ◌++◌, if◌then◌else◌}
use delego.Base.Text.{Text, text, same_text}
use delego.Base.Trim.{trim}
use delego.Gateway.RateLimit.Redis.{Counters}
use delego.Gateway.RateLimit.{
  RateLimitConfig, RateLimitResult, Request, Reply, Rest, before, check_rate_limit,
}

-- What the middleware reads of a request. `URL` takes the path out of it, and `extractAuth` the user.
pub record Incoming : Type 0 where
  pub method : Option Text
  pub pathname : Text
  pub user_id : Option Text
  pub forwarded : Option Text
  pub remote_address : Option Text

abbrev address_of : Option Text → Option Text → Text
address_of (some forwarded) remote = trim (before b',' forwarded)
address_of none (some remote) = remote
address_of none none = text "unknown"

abbrev user_or : Option Text → Text → Text
user_or none address = address
user_or (some []) address = address
user_or (some (c ∷ cs)) address = c ∷ cs

unfoldable pub get_identifier : Incoming → Text
unfolding trim before
get_identifier req = user_or req.user_id (address_of req.forwarded req.remote_address)

abbrev method_of : (to_upper : Text → Text) → Option Text → Text
method_of to_upper none = to_upper (text "GET")
method_of to_upper (some method) = to_upper method

-- `getEndpoint`
unfoldable pub get_endpoint : (to_upper : Text → Text) → Incoming → Text
get_endpoint to_upper req = method_of to_upper req.method ++ text ":" ++ req.pathname

-- The next handler is called, with the headers of a result or without, or with an error; or the
-- request is refused with status 429, and Retry-After beside these headers.
pub data Answer : Type 0 where
  next : Option RateLimitResult → Answer
  next_with_error : Answer
  rate_limit_exceeded : RateLimitResult → Answer

abbrev pub answer_to : Option RateLimitResult → Answer
answer_to none = next_with_error
answer_to (some result) =
    if not result.allowed then rate_limit_exceeded result else next (some result)

abbrev request_of :
    (to_upper : Text → Text)
    → Option RateLimitConfig
    → (now served : ℕ) → Reply
    → Incoming
    → Request
request_of to_upper config now served reply req = record {
  identifier = get_identifier req;
  endpoint = get_endpoint to_upper req;
  override_config = config;
  now = now;
  served = served;
  reply = reply;
}

module _ (redis : Counters) where
  open redis use {State}

  -- `toUpperCase` is an argument, and so are the times and the replies of the check.
  unfoldable pub rate_limit_middleware :
      (to_upper : Text → Text)
      → Option RateLimitConfig
      → (now served : ℕ) → Reply
      → Rest
      → Incoming
      → State
      → Answer × State
  unfolding get_identifier get_endpoint check_rate_limit same_text
  rate_limit_middleware to_upper config now served reply rest req s =
      if same_text (method_of to_upper req.method) (text "GET")
        && same_text req.pathname (text "/health")
      then (next none, s)
      else let r = request_of to_upper config now served reply req in
        let (result, s') = check_rate_limit redis r rest s in (answer_to result, s')
