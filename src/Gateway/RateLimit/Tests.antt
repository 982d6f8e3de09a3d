-- ===== src/Gateway/RateLimit/Tests.antt =====
-- apps/backend/gateway/src/rateLimit: runs of the rate limiter at concrete inputs.
use delego.Base.{ℕ, ◌≡◌, ◌≤◌, refl, true, false, none, some, List, [], ◌∷◌, ◌+◌}
use delego.Base.Int.{pos}
use delego.Base.Text.{Text, text}
use delego.Gateway.RateLimit.{
  RateLimitConfig, Request, Reply, replied, errored, lost, Rest, get_rate_limit_config, key_of,
  check_rate_limit,
}
use delego.Gateway.RateLimit.Redis.{cell_server}
use delego.Gateway.RateLimit.Counted.{Event, arrives, expires, counted, passes, failed_counts, run}
use delego.Gateway.RateLimit.Middleware.{Incoming, next, get_identifier, rate_limit_middleware}
use delego.Gateway.RateLimit.Quota.{run_passes-Bounded, check_rate_limit-counted}

abbrev small : RateLimitConfig
small = record { window_ms = 1000; max_requests = 2 }

abbrev request : ℕ → Reply → Request
request now reply = record {
  identifier = text "ann";
  endpoint = text "GET:/api";
  override_config = some small;
  now = now;
  served = now;
  reply = reply;
}

abbrev events : List Event
events =
    arrives (request 5000 replied)
    ∷ arrives (request 5100 errored)
    ∷ expires (request 5000 replied) 5200
    ∷ arrives (request 5300 (lost true))
    ∷ arrives (request 5400 replied)
    ∷ []

abbrev rest : Rest
rest = record { expire_at = 5600; expire_reply = replied; end_read = 5600; reset_read = 5600 }

login_limit :
    get_rate_limit_config (text "POST") (text "/api/v1/auth/login")
    ≡ record { window_ms = 60000; max_requests = 5 }
unfolding get_rate_limit_config
login_limit = refl

key : key_of (request 5000 replied) ≡ text "ratelimit:ann:GET:/api:5"
unfolding key_of
key = refl

passed : passes cell_server (key_of (request 5000 replied)) events (λ k. none) ≡ 2
unfolding passes
passed = refl

incoming : Text → Incoming
incoming path = record {
  method = some (text "GET");
  pathname = path;
  user_id = none;
  forwarded = some (text " 10.0.0.7, 10.0.0.1");
  remote_address = none;
}

address : get_identifier (incoming (text "/")) ≡ text "10.0.0.7"
unfolding get_identifier incoming
address = refl

health :
    (rate_limit_middleware cell_server
      (λ t. t)
      none
      0
      0
      replied
      rest
      (incoming (text "/health"))
      (λ k. none)).0
    ≡ next none
unfolding rate_limit_middleware incoming
health = refl

run_passes-Bounded_example :
    passes cell_server (key_of (request 5000 replied)) events (λ k. none)
    ≤ 2 + failed_counts (key_of (request 5000 replied)) events
unfolding counted
run_passes-Bounded_example =
    run_passes-Bounded cell_server (key_of (request 5000 replied)) 5000 1000 2 events (λ k. none)
      refl (refl, (refl, (refl, (refl, (refl, tt))))) (refl, (refl, (refl, (refl, (refl, tt)))))

check_rate_limit-counted_example :
    (check_rate_limit cell_server
      (request 5500 replied)
      rest
      (run cell_server events (λ k. none))).0
    ≡ some (record {
      allowed = false;
      limit = 2;
      remaining = 0;
      reset_in_seconds = pos 1;
      identifier = text "ann";
    })
unfolding counted
check_rate_limit-counted_example =
    check_rate_limit-counted cell_server (request 5500 replied) rest events (λ k. none) refl
      (refl, (refl, (refl, (refl, (refl, tt))))) refl refl refl
