-- ===== src/Process.antt =====
-- cmd/server/main.go: main, run and connectRedis, and internal/database/postgres.go: Connect. A process
-- is told by what it does, in order.
use cb_back.Prelude.{Bool, true, false, not, Option, none, some, List, [], ◌∷◌, Text, if◌then◌else◌}
pub mod Resources
pub mod Shutdown
pub mod Stages
pub mod Startup
pub mod Exit
pub mod Health
use cb_back.Prelude.Results.{Result, done, failed}
use cb_back.Prelude.Stateful.{Step, ◌>>=◌, ◌>>◌, pure, raise}
use cb_back.Config.Load
use cb_back.Config.Load.{Config, load}
use cb_back.Http.Origin
use cb_back.Http.Origin.{OriginPolicy, new_origin_policy}
use cb_back.Migrations
use cb_back.Migrations.{Postgres, migrate}

-- What has to be given back. The timers are contexts with a deadline.
pub data Resource : Type 0 where
  signals startup_timer ping_timer pool redis shutdown_timer : Resource

pub data Action : Type 0 where
  acquire release ping : Resource → Action
  migrates starts_hub stops_accepting stops_inboxes awaits_hub logs_redis_error : Action
  listens : OriginPolicy → Action
  ends_listening : Action

-- How the select in which run waits ends: ListenAndServe failed, or reports ErrServerClosed, or there
-- was a signal.
pub data Ending : Type 0 where
  listen_error server_closed signalled : Ending

-- Why a process stops; `ping_redis_failed` says whether closing the client failed, too.
pub data Failure : Type 0 where
  bad_config bad_database_url no_pool ping_database_failed bad_redis_url bad_origins : Failure
  migrate_failed : Migrations.Failure → Failure
  ping_redis_failed : Bool → Failure
  listen_failed clients_remain shutdown_failed : Failure

-- pgxpool, go-redis and net/http as they answer, and whether the signaling hub ends before the
-- shutdown's deadline. `schema` is the state of Postgres at the start.
pub record World : Type 1 where
  pub env : Load.Env
  pub origin : Origin.Env
  pub postgres : Postgres
  pub schema : postgres.State
  pub parse_pool_config : Text → Bool
  pub new_pool : Text → Bool
  pub pool_ping : Text → Bool
  pub parse_redis_url : Text → Bool
  pub redis_ping : Text → Bool
  pub redis_close : Text → Bool
  pub ending : Ending
  pub srv_shutdown : Bool
  pub hub_done : Bool

module _ (w : World) where
  open w use {
    env, origin, postgres, schema, parse_pool_config, new_pool, pool_ping, parse_redis_url,
    redis_ping, redis_close, ending, srv_shutdown, hub_done,
  }
  open postgres use {State}

  -- `trace` has the latest action first, and `deferred` is the stack of the function's deferred
  -- releases.
  pub record Process : Type 0 where
    pub trace : List Action
    pub deferred : List (List Action)
    pub database : State

  abbrev pub Run : Type 0 → Type 0
  Run A = Step Process Failure A

  abbrev pub act : Action → Run (Unit {0})
  act a p = (done tt, record p { trace = a ∷ p.trace })

  abbrev pub defer_ : List Action → Run (Unit {0})
  defer_ as' p = (done tt, record p { deferred = as' ∷ p.deferred })

  abbrev pub check : Bool → Failure → Run (Unit {0})
  check b e = if b then pure tt else raise e

  unfoldable pub act_all : List Action → List Action → List Action
  act_all [] trace = trace
  act_all (a ∷ as') trace = act_all as' (a ∷ trace)

  unfoldable pub unwind : List (List Action) → List Action → List Action
  unwind [] trace = trace
  unwind (as' ∷ deferred) trace = unwind deferred (act_all as' trace)

  abbrev pub returned :
      {A : Type 0} → List (List Action) → Result Failure A × Process → Result Failure A × Process
  returned outer (r, p) = (r, record p { trace = unwind p.deferred p.trace; deferred = outer })

  -- A function's body and then what it deferred, the latest first.
  abbrev pub called : {A : Type 0} → Run A → Run A
  called body p = returned p.deferred (body (record p { deferred = [] }))

  abbrev pub timed : Resource → Run (Unit {0})
  timed timer = do act (acquire timer); defer_ (release timer ∷ [])

  -- Connect closes the pool that does not answer.
  abbrev pub pinged : Bool → Run (Unit {0})
  pinged true = pure tt
  pinged false = act (release pool) >>= λ _. raise ping_database_failed

  abbrev pub connect_body : Text → Run (Unit {0})
  connect_body url = do
    check (parse_pool_config url) bad_database_url
    check (new_pool url) no_pool
    act (acquire pool)
    timed ping_timer
    act (ping pool)
    pinged (pool_ping url)

  unfoldable pub connect : Text → Run (Unit {0})
  connect url = called (connect_body url)

  abbrev pub answered : Text → Bool → Run (Unit {0})
  answered url true = pure tt
  answered url false =
      act (release redis) >>= λ _. raise (ping_redis_failed (not (redis_close url)))

  unfoldable pub connect_redis : Text → Run (Unit {0})
  connect_redis url = do
    check (parse_redis_url url) bad_redis_url
    act (acquire redis)
    act (ping redis)
    answered url (redis_ping url)

  -- The deferred function logs where closing the client fails.
  abbrev pub redis_release : Text → List Action
  redis_release url =
      if redis_close url then release redis ∷ [] else release redis ∷ logs_redis_error ∷ []

  abbrev pub migrated :
      Process → Result Migrations.Failure (Unit {0}) × State → Result Failure (Unit {0}) × Process
  migrated p (done _, s) = (done tt, record p { database = s })
  migrated p (failed e, s) = (failed (migrate_failed e), record p { database = s })

  unfoldable pub migrate_schema : Run (Unit {0})
  migrate_schema = act migrates >>= λ _ p. migrated p (migrate postgres p.database)

  abbrev pub with_policy : {A : Type 0} → Option OriginPolicy → (OriginPolicy → Run A) → Run A
  with_policy none f = raise bad_origins
  with_policy (some policy) f = f policy

  -- The wait for the signaling hub, which may take longer than the deadline, and then the error of
  -- the server's Shutdown.
  abbrev pub awaited : Bool → Bool → Run (Unit {0})
  awaited false down = raise clients_remain
  awaited true false = act awaits_hub >>= λ _. raise shutdown_failed
  awaited true true = act awaits_hub

  -- The shutdown, once the server has been told to stop.
  unfoldable pub shut_down : Run (Unit {0})
  shut_down = do
    timed shutdown_timer
    act stops_accepting
    act stops_inboxes
    awaited hub_done srv_shutdown

  abbrev pub ended : Ending → Run (Unit {0})
  ended listen_error = act ends_listening >>= λ _. raise listen_failed
  ended server_closed = act ends_listening >>= λ _. shut_down
  ended signalled = shut_down

  unfoldable pub serve : Config → OriginPolicy → Run (Unit {0})
  serve c policy = do act starts_hub; act (listens policy); ended ending

  -- The rest of run, from the connection to Redis on.
  abbrev pub with_redis : Config → Run (Unit {0})
  with_redis c = do
    connect_redis c.redis_url
    defer_ (redis_release c.redis_url)
    with_policy (new_origin_policy origin c.allowed_origins) (serve c)

  abbrev pub run_body : Config → Run (Unit {0})
  run_body c = do
    timed signals
    timed startup_timer
    connect c.database_url
    defer_ (release pool ∷ [])
    migrate_schema
    with_redis c

  unfoldable pub run : Config → Run (Unit {0})
  run c = called (run_body c)

  abbrev pub configured : Result (List Load.Problem) Config → Run (Unit {0})
  configured (failed problems) = raise bad_config
  configured (done c) = run c

  abbrev pub not_started : Process
  not_started = record { trace = []; deferred = []; database = schema }

  -- main; a failure is exit status 1.
  unfoldable pub main : Result Failure (Unit {0}) × Process
  main = configured (load env) not_started
