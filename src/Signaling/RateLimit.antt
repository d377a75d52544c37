-- ===== src/Signaling/RateLimit.antt =====
-- internal/signaling/ratelimit.go: the budget of messages of one connection. The source counts tokens
-- in a float64; here they are counted exactly, in billionths. Times are nanoseconds, so that a rate in
-- tokens per second is one in billionths per nanosecond.
pub mod Bounds
use cb_back.Prelude.{ℕ, ◌+◌, ◌-◌, ◌*◌, Bool, true, false, List, [], ◌∷◌, ltb, if◌then◌else◌}

abbrev pub billion : ℕ
billion = 1_000_000_000

abbrev pub message_burst : ℕ
message_burst = 120

abbrev pub messages_per_second : ℕ
messages_per_second = 60

pub record TokenBucket : Type 0 where
  pub tokens : ℕ
  pub capacity : ℕ
  pub rate : ℕ
  pub last : ℕ

unfoldable pub new_token_bucket : ℕ → ℕ → ℕ → TokenBucket
new_token_bucket capacity rate_per_second now = record {
  tokens = capacity * billion;
  capacity = capacity * billion;
  rate = rate_per_second;
  last = now;
}

-- The tokens that accrued since the last call; a clock that did not advance adds none.
unfoldable pub refill : TokenBucket → ℕ → TokenBucket
refill b now =
    if ltb b.last now
    then (let tokens = b.tokens + (now - b.last) * b.rate in
        record b { tokens = if ltb b.capacity tokens then b.capacity else tokens; last = now })
    else b

unfoldable pub allow : TokenBucket → ℕ → TokenBucket × Bool
allow bucket now =
    let b = refill bucket now in
    if ltb b.tokens billion then (b, false) else (record b { tokens = b.tokens - billion }, true)
