-- ===== src/Process/Stages.antt =====
-- cmd/server/main.go: run, stage by stage, up to the server: what each way out leaves.
use cb_back.Prelude.{◌≡◌, refl, true, false, Option, none, some, [], ◌∷◌, Bool-cases, inl, inr}
use cb_back.Prelude.Results.{Result, done, failed}
use cb_back.Http.Origin.{OriginPolicy, new_origin_policy}
use cb_back.Config.Load.{Config}
use cb_back.Migrations
use cb_back.Migrations.{migrate}
use cb_back.Prelude.Stateful.{resume}
use cb_back.Process.{
  signals, startup_timer, ping_timer, pool, redis, acquire, release, ping, migrates, starts_hub,
  listens, World, Process, act_all, unwind, connect, connect_redis, migrate_schema, serve, run,
  not_started, Failure, redis_release, with_policy, with_redis, returned, migrated, not_started,
}
use cb_back.Process.Resources.{nothing_held, permitted, replay, policies}
use cb_back.Process.Shutdown.{
  AllReady, Ends, Stands, all_deferred, ended-Ends, pool_deferred, unwind_all, unwind_pool,
  while_connected, while_serving,
}

module _ (w : World) where
  -- `Ready` is what is to hold where the server listens, of its policy and of the database.
  module _ (Ready : OriginPolicy → w.postgres.State → Type 0) (c : Config) where
    policy-Ends :
        (found : Option OriginPolicy) (p : Process w)
        → ((policy : OriginPolicy) → found ≡ some policy → Ready policy p.database)
        → Stands w Ready c (all_deferred w Ready c) (while_serving w false) p
        → Ends w Ready c (with_policy w found (serve w c) p)
    unfolding serve replay permitted policies
    policy-Ends none p k v =
        rw v.on_stack (unwind_all w Ready c p.trace p.database v.replayed v.ready)
    policy-Ends (some policy) p k v =
        ended-Ends w Ready c w.ending (record p { trace = listens policy ∷ starts_hub ∷ p.trace })
          (record {
            replayed = rw v.replayed refl;
            on_stack = v.on_stack;
            ready = (k policy refl, v.ready);
          })

    -- The rest of the function, with the pool open.
    redis-Ends :
        (p : Process w)
        → ((policy : OriginPolicy)
            → w.redis_ping c.redis_url ≡ true
            → new_origin_policy w.origin c.allowed_origins ≡ some policy
            → Ready policy p.database)
        → Stands w Ready c (pool_deferred w) (while_connected w) p
        → Ends w Ready c (with_redis w c p)
    unfolding connect_redis act_all unwind replay permitted policies
    redis-Ends p k v = elim (Bool-cases (w.parse_redis_url c.redis_url)) [
      | inr q ↦ rw q (unwind_pool w Ready c p v)
      | inl q ↦ elim (Bool-cases (w.redis_ping c.redis_url)) [
        | inr r ↦
            rw (q, r)
              (unwind_pool w Ready c
                (record p { trace = release redis ∷ ping redis ∷ acquire redis ∷ p.trace })
                (record { replayed = rw v.replayed refl; on_stack = v.on_stack; ready = v.ready }))
        | inl r ↦
            rw (q, r)
              (policy-Ends (new_origin_policy w.origin c.allowed_origins)
                (record p {
                  trace = ping redis ∷ acquire redis ∷ p.trace;
                  deferred = redis_release w c.redis_url ∷ p.deferred;
                })
                (λ policy. k policy r)
                (record {
                  replayed = rw v.replayed refl;
                  on_stack = rw v.on_stack refl;
                  ready = v.ready;
                }))
      ]
    ]

    schema-Ends :
        (p : Process w) (r : Result Migrations.Failure (Unit {0}) × w.postgres.State)
        → ((policy : OriginPolicy)
            → r.0 ≡ done tt
            → w.redis_ping c.redis_url ≡ true
            → new_origin_policy w.origin c.allowed_origins ≡ some policy
            → Ready policy r.1)
        → policies p.trace ≡ []
        → Stands w Ready c (pool_deferred w) (while_connected w) p
        → Ends w Ready c (resume (λ x. with_redis w c) (migrated w p r))
    schema-Ends p (done x, s) k n v =
        redis-Ends (record p { database = s }) (λ policy. k policy refl)
          (record { replayed = v.replayed; on_stack = v.on_stack; ready = rw n tt })
    schema-Ends p (failed e, s) k n v =
        unwind_pool w Ready c (record p { database = s })
          (record { replayed = v.replayed; on_stack = v.on_stack; ready = rw n tt })

    -- What run has once Connect has returned, and has logged that it migrates.
    abbrev connected : Process w
    connected = record {
      trace =
          migrates
          ∷ release ping_timer
          ∷ ping pool
          ∷ acquire ping_timer
          ∷ acquire pool
          ∷ acquire startup_timer
          ∷ acquire signals
          ∷ [];
      deferred = pool_deferred w;
      database = w.schema;
    }

    abbrev after_connect : Result Failure (Unit {0}) × Process w
    after_connect =
        resume (λ x. with_redis w c) (migrated w connected (migrate w.postgres w.schema))

    -- All is closed in the end, and what is to hold of the policy does.
    abbrev pub HasEnded : Result Failure (Unit {0}) × Process w → Type 0
    HasEnded r = (replay r.1.trace ≡ some nothing_held) × AllReady w Ready c r.1.database r.1.trace

    Ends-HasEnded :
        (r : Result Failure (Unit {0}) × Process w) → Ends w Ready c r → HasEnded (returned w [] r)
    Ends-HasEnded (e, p) x = (x.closed, x.ready)

    pub run-HasEnded :
        ((policy : OriginPolicy)
          → w.pool_ping c.database_url ≡ true
          → (migrate w.postgres w.schema).0 ≡ done tt
          → w.redis_ping c.redis_url ≡ true
          → new_origin_policy w.origin c.allowed_origins ≡ some policy
          → Ready policy (migrate w.postgres w.schema).1)
        → HasEnded (run w c (not_started w))
    unfolding run connect migrate_schema act_all unwind replay permitted policies
    run-HasEnded k = elim (Bool-cases (w.parse_pool_config c.database_url)) [
      | inr p ↦ rw p (refl, tt)
      | inl p ↦ elim (Bool-cases (w.new_pool c.database_url)) [
        | inr q ↦ rw (p, q) (refl, tt)
        | inl q ↦ elim (Bool-cases (w.pool_ping c.database_url)) [
          | inr r ↦ rw (p, q, r) (refl, tt)
          | inl r ↦
              rw (p, q, r)
                (Ends-HasEnded after_connect (
                  schema-Ends connected (migrate w.postgres w.schema) (λ policy. k policy r) refl
                    (record { replayed = refl; on_stack = refl; ready = tt })))
        ]
      ]
    ]
