-- ===== src/Process/Startup.antt =====
-- cmd/server/main.go: what holds of a process from main to its end.
use cb_back.Prelude.{◌≡◌, refl, true, AllOf, some, List, ◌++◌, Text}
use cb_back.Prelude.Strings.{IsOnce}
use cb_back.Prelude.Results.{Result, done, failed}
use cb_back.Http.Origin.{OriginPolicy, new_origin_policy}
use cb_back.Config.Load
use cb_back.Config.Load.{Config, load}
use cb_back.Config.Validity.{IsValid, load-IsValid}
use cb_back.Migrations.{sort}
use cb_back.Migrations.{pending}
use cb_back.Migrations.Resume.{migrate_resumes}
use cb_back.Process.{World, main, configured, not_started}
use cb_back.Process.Resources.{nothing_held, replay, policies}
use cb_back.Process.Stages.{run-HasEnded}

module _ (w : World) where
  configured-Closes :
      (read : Result (List Load.Problem) Config)
      → replay (configured w read (not_started w)).1.trace ≡ some nothing_held
  unfolding replay
  configured-Closes (failed problems) = refl
  configured-Closes (done c) = (run-HasEnded w (λ policy s. Unit {0}) c (λ policy p q r s. tt)).0

  -- However a process ends, and at whatever stage, all that it has opened is closed, once; and on the
  -- way nothing is opened twice, used while it is not open, or closed while the server accepts
  -- requests, and the server accepts requests only while both stores are open.
  pub main-Closes : replay (main w).1.trace ≡ some nothing_held
  unfolding main
  main-Closes = configured-Closes (load w.env)

  -- Of the policy that a process listens with, and of the database at that time.
  pub record IsReady (names : List Text) (policy : OriginPolicy) (s : w.postgres.State)
      : Type 0 where
    pub config : Config
    pub loaded : load w.env ≡ done config
    pub valid : IsValid config
    pub database_answers : w.pool_ping config.database_url ≡ true
    pub redis_answers : w.redis_ping config.redis_url ≡ true
    pub allowed : new_origin_policy w.origin config.allowed_origins ≡ some policy
    pub migrated :
        w.postgres.versions s
        ≡ w.postgres.versions w.schema ++ pending (w.postgres.versions w.schema) (sort names)

  module _ (names : List Text) (given : w.postgres.glob ≡ some names) (once : IsOnce names) where
    configured-IsReady :
        (read : Result (List Load.Problem) Config)
        → load w.env ≡ read
        → AllOf
            (λ policy. IsReady names policy (configured w read (not_started w)).1.database)
            (policies (configured w read (not_started w)).1.trace)
    unfolding policies
    configured-IsReady (failed problems) h = tt
    configured-IsReady (done c) h =
        (run-HasEnded w (IsReady names) c λ policy p q r s. record {
          config = c;
          loaded = h;
          valid = load-IsValid w.env c h;
          database_answers = p;
          redis_answers = r;
          allowed = s;
          migrated = migrate_resumes w.postgres names given once 0 w.schema q;
        }).1

    -- With the names of the migrations, each once: a process listens only with a configuration that
    -- was accepted and is valid, with a database and a Redis that have answered, with the policy that
    -- its allowlist stands for, and with every file that was pending recorded in the database, once
    -- and in ascending order.
    pub main-IsReady :
        AllOf (λ policy. IsReady names policy (main w).1.database) (policies (main w).1.trace)
    unfolding main
    main-IsReady = configured-IsReady (load w.env) refl
