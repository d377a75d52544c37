-- ===== src/Signaling/Client/Keepalive.antt =====
-- internal/signaling/client.go, and internal/inbox/conn.go, which does the same: pings and the read
-- deadline. Times are in nanoseconds.
use cb_back.Prelude.{ℕ, ◌+◌, ◌*◌, ◌/◌, ◌≤◌, ◌≡◌, Bool, true, ◌&&◌, List, [], ◌∷◌, leb, arith}

abbrev pub pong_wait : ℕ
pong_wait = 60_000_000_000

abbrev pub ping_period : ℕ
ping_period = pong_wait * 9 / 10

-- The read deadline, which is set at the start and again at each pong.
unfoldable pub read_deadline : ℕ → List ℕ → ℕ
read_deadline start [] = start + pong_wait
read_deadline start (pong ∷ pongs) = read_deadline pong pongs

-- Whether the reads have not timed out before each of the pongs, and by the given time.
unfoldable pub in_time : ℕ → List ℕ → ℕ → Bool
in_time start [] now = leb now (start + pong_wait)
in_time start (pong ∷ pongs) now = leb pong (start + pong_wait) && in_time pong pongs now

-- The ticker, which started at `tick`, fires at `tick + ping_period` and so on; each pong arrives within the
-- delay of its tick, in which the ping is written, too.
abbrev pub Answered : ℕ → ℕ → List ℕ → Type 0
Answered delay tick [] = Unit {0}
Answered delay tick (pong ∷ pongs) =
    (tick + ping_period ≤ pong)
    × (pong ≤ tick + ping_period + delay)
    × Answered delay (tick + ping_period) pongs

-- The last tick that was answered.
unfoldable pub last_tick : ℕ → List ℕ → ℕ
last_tick tick [] = tick
last_tick tick (pong ∷ pongs) = last_tick (tick + ping_period) pongs

answered_lem :
    (gap delay tick last now : ℕ) (pongs : List ℕ)
    → gap + delay + ping_period ≤ pong_wait
    → tick ≤ last + gap
    → Answered delay tick pongs
    → now + gap ≤ last_tick tick pongs + pong_wait
    → in_time last pongs now ≡ true
unfolding in_time last_tick
answered_lem gap delay tick last now [] d l a n = ground (arith, l, n)
answered_lem gap delay tick last now (pong ∷ pongs) d l a n = ground (
  arith,
  d,
  l,
  a.0,
  a.1,
  answered_lem gap delay (tick + ping_period) pong now pongs d (omega (arith, a.0)) a.2 n,
)

-- A peer that has fallen silent is read for no longer than a minute after its last pong.
pub silent_lem :
    (last now : ℕ) (pongs : List ℕ) → in_time last pongs now ≡ true → now ≤ read_deadline last pongs
unfolding in_time read_deadline
silent_lem last now [] h = ground (arith, h)
silent_lem last now (pong ∷ pongs) h = ground (arith, h, silent_lem pong now pongs)

-- The read deadline is first set at `start`, by one goroutine, and the ticker of the pings starts at `tick`,
-- in the other. Where the ticker starts no later than the gap after the deadline was set, and every ping is
-- answered within the delay of its tick, and the two together are at most six seconds, the reads do not time
-- out, until a minute less the gap has passed since the last tick whose ping was answered.
pub in_time_lem :
    (gap delay start tick now : ℕ) (pongs : List ℕ)
    → gap + delay ≤ pong_wait / 10
    → tick ≤ start + gap
    → Answered delay tick pongs
    → now + gap ≤ last_tick tick pongs + pong_wait
    → in_time start pongs now ≡ true
in_time_lem gap delay start tick now pongs d l a n =
    answered_lem gap delay tick start now pongs (omega (arith, d)) l a n
