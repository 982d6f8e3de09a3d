-- ===== src/Gateway.antt =====
-- apps/backend/gateway: the refresh tokens of its authentication, the delegations,
-- and the rate limiter.
pub mod Tokens
pub mod Delegations
pub mod RateLimit
