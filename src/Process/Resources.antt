-- ===== src/Process/Resources.antt =====
-- cmd/server/main.go: what a process has opened, it closes.
use cb_back.Prelude.{Bool, true, false, not, ◌&&◌, Option, none, some, List, [], ◌∷◌, if◌then◌else◌}
use cb_back.Prelude.Options.{◌>>=◌}
use cb_back.Http.Origin.{OriginPolicy}
use cb_back.Process.{
  Resource, signals, startup_timer, ping_timer, pool, redis, shutdown_timer, Action, acquire,
  release, ping, migrates, starts_hub, stops_accepting, stops_inboxes, awaits_hub, logs_redis_error,
  listens, ends_listening,
}

-- What is open at a time, and whether the server accepts requests.
pub record Held : Type 0 where
  pub has_signals : Bool
  pub has_startup_timer : Bool
  pub has_ping_timer : Bool
  pub has_pool : Bool
  pub has_redis : Bool
  pub has_shutdown_timer : Bool
  pub accepts : Bool

abbrev pub nothing_held : Held
nothing_held = record {
  has_signals = false;
  has_startup_timer = false;
  has_ping_timer = false;
  has_pool = false;
  has_redis = false;
  has_shutdown_timer = false;
  accepts = false;
}

abbrev pub has : Resource → Held → Bool
has signals h = h.has_signals
has startup_timer h = h.has_startup_timer
has ping_timer h = h.has_ping_timer
has pool h = h.has_pool
has redis h = h.has_redis
has shutdown_timer h = h.has_shutdown_timer

abbrev pub set_has : Resource → Bool → Held → Held
set_has signals b h = record h { has_signals = b }
set_has startup_timer b h = record h { has_startup_timer = b }
set_has ping_timer b h = record h { has_ping_timer = b }
set_has pool b h = record h { has_pool = b }
set_has redis b h = record h { has_redis = b }
set_has shutdown_timer b h = record h { has_shutdown_timer = b }

abbrev only_if : Bool → Held → Option Held
only_if b h = if b then some h else none

-- What an action needs and changes: nothing is opened twice, used or closed when it is not open, or
-- closed while the server accepts requests; the server accepts requests only with both stores open;
-- and the inboxes are shut down and the hub is awaited only once it no longer does.
unfoldable pub permitted : Action → Held → Option Held
permitted (acquire r) h = only_if (not (has r h)) (set_has r true h)
permitted (release r) h = only_if (has r h && not h.accepts) (set_has r false h)
permitted (ping r) h = only_if (has r h) h
permitted migrates h = only_if h.has_pool h
permitted starts_hub h = only_if h.has_signals h
permitted (listens policy) h =
    only_if (h.has_pool && h.has_redis && not h.accepts) (record h { accepts = true })
permitted ends_listening h = only_if h.accepts (record h { accepts = false })
permitted stops_accepting h = only_if h.has_shutdown_timer (record h { accepts = false })
permitted stops_inboxes h = only_if (not h.accepts) h
permitted awaits_hub h = only_if (not h.accepts) h
permitted logs_redis_error h = only_if (not h.has_redis) h

-- What is open after the actions, of which the latest is first; none where one was not permitted.
unfoldable pub replay : List Action → Option Held
replay [] = some nothing_held
replay (a ∷ older) = replay older >>= permitted a

-- The policies that the server has listened with.
unfoldable pub policies : List Action → List OriginPolicy
policies [] = []
policies (listens policy ∷ older) = policy ∷ policies older
policies (a ∷ older) = policies older
