-- ===== src/Process/Shutdown.antt =====
-- cmd/server/main.go: the releases that run has deferred, and its shutdown.
use cb_back.Prelude.{AllOf, ◌≡◌, refl, Bool, true, false, some, List, [], ◌∷◌, Bool-cases, inl, inr}
use cb_back.Prelude.Results.{Result}
use cb_back.Http.Origin.{OriginPolicy}
use cb_back.Config.Load.{Config}
use cb_back.Process.{
  signals, startup_timer, pool, shutdown_timer, Action, acquire, release, stops_accepting,
  stops_inboxes, awaits_hub, ends_listening, World, Process, act_all, unwind, shut_down, Failure,
  redis_release, ended, awaited, Ending, listen_error, server_closed, signalled,
}
use cb_back.Process.Resources.{Held, nothing_held, permitted, replay, policies}

module _ (w : World) where
  abbrev while_started : Held
  while_started = record nothing_held { has_signals = true; has_startup_timer = true }

  abbrev pub while_connected : Held
  while_connected = record while_started { has_pool = true }

  abbrev pub while_serving : Bool → Held
  while_serving b = record while_connected { has_redis = true; accepts = b }

  abbrev pub pool_deferred : List (List Action)
  pool_deferred = (release pool ∷ []) ∷ (release startup_timer ∷ []) ∷ (release signals ∷ []) ∷ []

  -- `Ready` is what is to hold where the server listens, of its policy and of the database.
  module _ (Ready : OriginPolicy → w.postgres.State → Type 0) (c : Config) where
    abbrev pub all_deferred : List (List Action)
    all_deferred = redis_release w c.redis_url ∷ pool_deferred

    abbrev pub AllReady : w.postgres.State → List Action → Type 0
    AllReady s trace = AllOf (λ policy. Ready policy s) (policies trace)

    -- Of the process once the function's deferred releases have run.
    pub record Ended (deferred : List (List Action)) (trace : List Action) (s : w.postgres.State)
        : Type 0 where
      pub closed : replay (unwind w deferred trace) ≡ some nothing_held
      pub ready : AllReady s (unwind w deferred trace)

    abbrev pub Ends : Result Failure (Unit {0}) × Process w → Type 0
    Ends r = Ended r.1.deferred r.1.trace r.1.database

    -- Of the process while the function runs.
    pub record Stands (deferred : List (List Action)) (h : Held) (p : Process w) : Type 0 where
      pub replayed : replay p.trace ≡ some h
      pub on_stack : p.deferred ≡ deferred
      pub ready : AllReady p.database p.trace

    pub unwind_all :
        (trace : List Action) (s : w.postgres.State)
        → replay trace ≡ some (while_serving false)
        → AllReady s trace
        → Ended all_deferred trace s
    unfolding act_all unwind replay permitted policies
    unwind_all trace s h a = elim (Bool-cases (w.redis_close c.redis_url)) [
      | inl q ↦ record { closed = rw (q, h) refl; ready = rw q a }
      | inr q ↦ record { closed = rw (q, h) refl; ready = rw q a }
    ]

    stopped :
        {trace : List Action} {s : w.postgres.State}
        → Ended all_deferred (release shutdown_timer ∷ trace) s
        → Ended ((release shutdown_timer ∷ []) ∷ all_deferred) trace s
    unfolding act_all unwind
    stopped x = record { closed = x.closed; ready = x.ready }

    pub unwind_pool :
        (p : Process w)
        → Stands pool_deferred while_connected p
        → Ended p.deferred p.trace p.database
    unfolding act_all unwind replay permitted policies
    unwind_pool p v = record {
      closed = rw (v.on_stack, v.replayed) refl;
      ready = rw v.on_stack v.ready;
    }

    -- What shut_down has done when it begins to wait.
    abbrev told_to_stop : Process w → Process w
    told_to_stop p = record p {
      trace = stops_inboxes ∷ stops_accepting ∷ acquire shutdown_timer ∷ p.trace;
      deferred = (release shutdown_timer ∷ []) ∷ p.deferred;
    }

    awaited-Ends :
        (b in_time down : Bool) (p : Process w)
        → Stands all_deferred (while_serving b) p
        → Ends (awaited w in_time down (told_to_stop p))
    unfolding act_all unwind replay permitted policies
    awaited-Ends b false down p v = rw v.on_stack (
        stopped (
          unwind_all (release shutdown_timer ∷ (told_to_stop p).trace) p.database
            (rw v.replayed refl) v.ready))
    awaited-Ends b true false p v = rw v.on_stack (
        stopped (
          unwind_all (release shutdown_timer ∷ awaits_hub ∷ (told_to_stop p).trace) p.database
            (rw v.replayed refl) v.ready))
    awaited-Ends b true true p v = rw v.on_stack (
        stopped (
          unwind_all (release shutdown_timer ∷ awaits_hub ∷ (told_to_stop p).trace) p.database
            (rw v.replayed refl) v.ready))

    shut_down-Ends :
        (b : Bool) (p : Process w) → Stands all_deferred (while_serving b) p → Ends (shut_down w p)
    unfolding shut_down
    shut_down-Ends b p v = awaited-Ends b w.hub_done w.srv_shutdown p v

    pub ended-Ends :
        (ending : Ending) (p : Process w)
        → Stands all_deferred (while_serving true) p
        → Ends (ended w ending p)
    unfolding replay permitted policies
    ended-Ends listen_error p v =
        rw v.on_stack
          (unwind_all (ends_listening ∷ p.trace) p.database (rw v.replayed refl) v.ready)
    ended-Ends server_closed p v =
        shut_down-Ends false (record p { trace = ends_listening ∷ p.trace })
          (record { replayed = rw v.replayed refl; on_stack = v.on_stack; ready = v.ready })
    ended-Ends signalled p v = shut_down-Ends true p v
