-- ===== src/Limits.antt =====
-- What the server keeps per client: the buckets of the rate limit, and the codes of OAuth.
pub mod RateLimit
pub mod CodeStore
pub mod AuthRateLimit
