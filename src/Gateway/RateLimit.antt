-- ===== src/Gateway/RateLimit.antt =====
-- apps/backend/gateway/src/rateLimit: the rules of config.ts and `checkRateLimit` of rateLimiter.ts.
-- Texts are lists of code points. A request carries the times at which the code reads the clock and
-- at which Redis runs its commands, and what comes of the commands. A window is not 0 milliseconds
-- long.
pub mod Redis
pub mod Counted
pub mod Tally
pub mod Quota
pub mod Windows
pub mod Middleware
mod Tests
use delego.Base.{
  ℕ, suc, ◌+◌, ◌-◌, ◌*◌, ◌/◌, Bool, true, false, not, ◌&&◌, Option, none, some, List, [], ◌∷◌, ◌++◌,
  leb, ◌==◌, if◌then◌else◌,
}
use delego.Base.Int.{ℤ, pos}
use delego.Base.Text.{Text, text, same_text}
use delego.Base.Trim.{trim}
use delego.Utils.Amounts.{decimal, negative}
use delego.Gateway.RateLimit.Redis.{Counters}

pub record RateLimitConfig : Type 0 where
  pub window_ms : ℕ
  pub max_requests : ℕ

pub record RateLimitResult : Type 0 where
  pub allowed : Bool
  pub limit : ℕ
  pub remaining : ℕ
  pub reset_in_seconds : ℤ
  pub identifier : Text

abbrev limited : (max_requests window_ms : ℕ) → RateLimitConfig
limited max_requests window_ms = record { window_ms = window_ms; max_requests = max_requests }

-- `RATE_LIMIT_RULES`
abbrev pub rate_limit_rules : List (Text × RateLimitConfig)
rate_limit_rules =
    (text "POST:/api/v1/auth/login", limited 5 60000)
    ∷ (text "POST:/api/v1/auth/register", limited 3 300000)
    ∷ (text "POST:/api/v1/delegations", limited 20 60000)
    ∷ (text "POST:/api/v1/orders", limited 30 60000)
    ∷ (text "GET:*", limited 100 60000)
    ∷ (text "*", limited 60 60000)
    ∷ []

abbrev pub default_rate_limit : RateLimitConfig
default_rate_limit = limited 60 60000

unfoldable pub rule : List (Text × RateLimitConfig) → Text → Option RateLimitConfig
unfolding same_text
rule [] key = none
rule (entry ∷ rest) key = if same_text entry.0 key then some entry.1 else rule rest key

abbrev pub or_else : {A : Type 0} → Option A → A → A
or_else none other = other
or_else (some value) other = value

unfoldable pub get_rate_limit_config : (method path : Text) → RateLimitConfig
unfolding rule
get_rate_limit_config method path = or_else (rule rate_limit_rules (method ++ text ":" ++ path)) (
    or_else (rule rate_limit_rules (method ++ text ":*"))
      (or_else (rule rate_limit_rules (text "*")) default_rate_limit))

-- The parts of a text before the first code point `c`, and behind it.
unfoldable pub before : ℕ → Text → Text
before c [] = []
before c (d ∷ rest) = if d == c then [] else d ∷ before c rest

unfoldable pub behind : ℕ → Text → Option Text
behind c [] = none
behind c (d ∷ rest) = if d == c then some rest else behind c rest

abbrev path_of : Option Text → Text
path_of none = text "*"
path_of (some rest) = before b':' rest

-- What comes of a command: an answer, an answer that is missing or is an error, or an exception,
-- when Redis may have run the command or not.
pub data Reply : Type 0 where
  replied : Reply
  errored : Reply
  lost : (ran : Bool) → Reply

pub record Request : Type 0 where
  pub identifier : Text
  pub endpoint : Text
  pub override_config : Option RateLimitConfig
  pub now : ℕ
  pub served : ℕ
  pub reply : Reply

unfoldable pub config_of : Request → RateLimitConfig
unfolding get_rate_limit_config before behind
config_of r =
    or_else r.override_config
      (get_rate_limit_config (before b':' r.endpoint) (path_of (behind b':' r.endpoint)))

-- `buildKey` with the time of its call
unfoldable pub build_key : (identifier endpoint : Text) → (window_ms now : ℕ) → Text
unfolding decimal
build_key identifier endpoint window_ms now =
    text "ratelimit:"
    ++ identifier
    ++ text ":"
    ++ endpoint
    ++ text ":"
    ++ decimal (now / window_ms) (now / window_ms)

unfoldable pub key_of : Request → Text
unfolding build_key config_of
key_of r = build_key r.identifier r.endpoint (config_of r).window_ms r.now

-- `Math.ceil(windowMs / 1000)`
abbrev pub ttl_seconds : RateLimitConfig → ℕ
ttl_seconds config = (config.window_ms + 999) / 1000

-- Whether Redis has run the command.
abbrev pub has_run : Reply → Bool
has_run replied = true
has_run errored = false
has_run (lost ran) = ran

-- `count`, or an exception
abbrev pub count_of : Reply → ℕ → Option ℕ
count_of replied n = some n
count_of errored n = some 1
count_of (lost ran) n = none

-- `Math.ceil((windowEndMs - Date.now()) / 1000)`, with the times of the two calls.
abbrev pub reset_in : (window_ms end_read reset_read : ℕ) → ℤ
reset_in window_ms end_read reset_read =
    let window_end_ms = (end_read / window_ms + 1) * window_ms in
    if leb reset_read window_end_ms
    then pos ((window_end_ms - reset_read + 999) / 1000)
    else negative ((reset_read - window_end_ms) / 1000)

abbrev pub result_of : Request → (end_read reset_read : ℕ) → (count : ℕ) → RateLimitResult
result_of r end_read reset_read count =
    let config = config_of r in
    record {
      allowed = leb count config.max_requests;
      limit = config.max_requests;
      remaining = config.max_requests - count;
      reset_in_seconds = reset_in config.window_ms end_read reset_read;
      identifier = r.identifier;
    }

-- The rest of a check, behind the increment: when and how EXPIRE ends, and two readings of the clock.
pub record Rest : Type 0 where
  pub expire_at : ℕ
  pub expire_reply : Reply
  pub end_read : ℕ
  pub reset_read : ℕ

-- Whether the promise of a command is fulfilled.
abbrev pub returns : Reply → Bool
returns (lost ran) = false
returns _ = true

module _ (redis : Counters) where
  open redis use {State, incr, expire}

  -- Up to the answer of the transaction.
  unfoldable pub count_request : Request → State → Option ℕ × State
  unfolding key_of
  count_request r s =
      let (count, s') = incr r.served (key_of r) s in
      (count_of r.reply count, if has_run r.reply then s' else s)

  unfoldable pub set_expiry : Request → (at : ℕ) → State → State
  unfolding key_of config_of
  set_expiry r at s = expire at (key_of r) (ttl_seconds (config_of r)) s

  abbrev pub finish_check : Request → Rest → Option ℕ → State → Option RateLimitResult × State
  finish_check r rest none s = (none, s)
  finish_check r rest (some count) s =
      let result = result_of r rest.end_read rest.reset_read count in
      let expired = if has_run rest.expire_reply then set_expiry r rest.expire_at s else s in
      if count == 1
      then (if returns rest.expire_reply then some result else none, expired)
      else (some result, s)

  -- The result, or an exception.
  unfoldable pub check_rate_limit : Request → Rest → State → Option RateLimitResult × State
  unfolding count_request set_expiry config_of
  check_rate_limit r rest s = let (count, s') = count_request r s in finish_check r rest count s'
