-- ===== src/Signaling/RateLimit/Bounds.antt =====
-- How many messages a bucket lets through.
use cb_back.Prelude.{
  ℕ, zero, suc, ◌+◌, ◌-◌, ◌*◌, ◌≤◌, ◌≡◌, refl, true, List, [], ◌∷◌, arith, if◌then◌else◌, AllOf,
  Bool-cases, ltb, tests, length, ◌≢◌, inl, inr,
}
use cb_back.Signaling.RateLimit.{
  TokenBucket, billion, refill, allow, new_token_bucket, message_burst, messages_per_second,
}

-- The calls that a bucket lets through, of calls at the given times.
unfoldable pub admitted : TokenBucket → List ℕ → ℕ
admitted b [] = 0
admitted b (now ∷ times) = (if (allow b now).1 then 1 else 0) + admitted (allow b now).0 times

split_span :
    (last now end r : ℕ)
    → last ≤ now
    → now ≤ end
    → (now - last) * r + (end - now) * r ≡ (end - last) * r
split_span last now end r p q =
    let e : end - last ≡ (now - last) + (end - now) = omega arith in rw e (omega arith)

refill_adds :
    (b : TokenBucket) (now end : ℕ)
    → now ≤ end
    → b.last ≤ end
    → ((refill b now).last ≤ end)
      × ((refill b now).rate ≡ b.rate)
      × ((refill b now).tokens + (end - (refill b now).last) * b.rate
          ≤ b.tokens + (end - b.last) * b.rate)
unfolding refill
refill_adds b now end le start = elim (Bool-cases (ltb b.last now)) [
  | inl p ↦ rw p (ground (arith, split_span b.last now end b.rate (omega tests) le))
  | inr p ↦ rw p (start, refl, omega arith)
]

-- One call spends at most what was there and what the time since has added.
allow_spends :
    (b : TokenBucket) (now end : ℕ)
    → now ≤ end
    → b.last ≤ end
    → ((allow b now).0.last ≤ end)
      × ((allow b now).0.rate ≡ b.rate)
      × ((if (allow b now).1 then 1 else 0) * billion
            + (allow b now).0.tokens
            + (end - (allow b now).0.last) * b.rate
          ≤ b.tokens + (end - b.last) * b.rate)
unfolding allow
allow_spends b now end le start = ground (arith, refill_adds b now end le start)

-- From any bucket: what is let through until `end` was there at the start or has accrued since.
pub admitted-le :
    (times : List ℕ) (b : TokenBucket) (end : ℕ)
    → b.last ≤ end
    → AllOf (λ now. now ≤ end) times
    → admitted b times * billion ≤ b.tokens + (end - b.last) * b.rate
unfolding admitted
admitted-le [] b end start all = omega arith
admitted-le (now ∷ times) b end start all =
    let (l, r, spent) = allow_spends b now end all.0 start in
    let rest = admitted-le times (allow b now).0 end l all.1 in
    combine (if (allow b now).1 then 1 else 0) (admitted (allow b now).0 times)
      (allow b now).0.tokens ((end - (allow b now).0.last) * b.rate) _ spent (rw r at rest)
  where
    combine :
        (x y t s m : ℕ) → x * billion + t + s ≤ m → y * billion ≤ t + s → (x + y) * billion ≤ m
    combine x y t s m p q = omega arith

-- A connection gets at most the burst of messages through, and the rate times the time since.
pub connection_admits :
    (start end : ℕ) (times : List ℕ)
    → start ≤ end
    → AllOf (λ now. now ≤ end) times
    → admitted (new_token_bucket message_burst messages_per_second start) times * billion
      ≤ message_burst * billion + (end - start) * messages_per_second
unfolding new_token_bucket
connection_admits start end times h all =
    admitted-le times (new_token_bucket message_burst messages_per_second start) end h all

-- Each message comes at least `gap` after the one before.
abbrev pub Paced : ℕ → ℕ → List ℕ → Type 0
Paced gap last [] = Unit {0}
Paced gap last (now ∷ times) = (last + gap ≤ now) × Paced gap now times

allow_paced :
    (b : TokenBucket) (gap now : ℕ)
    → billion ≤ gap * b.rate
    → billion ≤ b.capacity
    → b.last + gap ≤ now
    → ((allow b now).1 ≡ true)
      × ((allow b now).0.rate ≡ b.rate)
      × ((allow b now).0.capacity ≡ b.capacity)
      × ((allow b now).0.last ≡ now)
unfolding allow refill
allow_paced b gap now h cap paced = elim (Bool-cases (ltb b.last now)) [
  | inl p ↦ ground (arith, p, accrued)
  | inr p ↦ absurd (pos_gap gap b.rate h (ground arith))
]
  where
    pos_gap : (gap rate : ℕ) → billion ≤ gap * rate → gap ≢ 0
    pos_gap zero rate h p = omega arith
    pos_gap (suc k) rate h p = omega arith

    accrued : gap * b.rate ≤ (now - b.last) * b.rate
    accrued = let e : now - b.last ≡ gap + (now - b.last - gap) = omega arith in rw e (omega arith)

-- Whoever keeps to the rate is never refused.
pub Paced-admitted :
    (gap : ℕ) (times : List ℕ) (b : TokenBucket)
    → billion ≤ gap * b.rate
    → billion ≤ b.capacity
    → Paced gap b.last times
    → admitted b times ≡ length times
unfolding admitted
Paced-admitted gap [] b h cap paced = refl
Paced-admitted gap (now ∷ times) b h cap paced =
    let (let_through, r, c, l) = allow_paced b gap now h cap paced.0 in
    ground (
      arith,
      let_through,
      Paced-admitted gap times (allow b now).0 (rw r h) (rw c cap) (rw l paced.1),
    )
