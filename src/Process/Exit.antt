-- ===== src/Process/Exit.antt =====
-- cmd/server/main.go: what a process has done that ends with exit status 0.
use cb_back.Prelude.{
  inr, inl, ◌⊎◌, ◌≡◌, refl, ap, Bool, true, false, Option, none, some, List, [], ◌∷◌, ◌++◌,
}
use cb_back.Prelude.Results.{Result, done, failed}
use cb_back.Prelude.Stateful.{◌>>◌, Succeeds, Succeeds-bind, done-Succeeds, Succeeds-done}
use cb_back.Http.Origin.{OriginPolicy, new_origin_policy}
use cb_back.Config.Load
use cb_back.Config.Load.{Config, load}
use cb_back.Process.{
  redis_release, connect_redis, migrate_schema, connect, defer_, timed, startup_timer, signals,
  pool, release, shutdown_timer, Action, acquire, stops_accepting, stops_inboxes, awaits_hub,
  listens, ends_listening, starts_hub, World, Process, Run, act_all, unwind, shut_down, serve, run,
  run_body, Failure, ended, awaited, with_policy, with_redis, returned, Ending, listen_error,
  server_closed, signalled, main, configured, not_started,
}
use cb_back.Process.Resources.{policies}

module _ (w : World) where
  -- Of the actions of a process, the latest first: where the shutdown stands in them, and what the
  -- server was before it.
  pub record IsStopped (trace : List Action) : Type 0 where
    pub before : List Action
    pub after : List Action
    pub order :
        trace
        ≡ after ++ (awaits_hub ∷ stops_inboxes ∷ stops_accepting ∷ acquire shutdown_timer ∷ before)
    pub policy : OriginPolicy
    pub others : List OriginPolicy
    pub listened : policies before ≡ policy ∷ others
    pub in_order : (w.ending ≡ signalled) ⊎ (w.ending ≡ server_closed)
    pub hub_ended : w.hub_done ≡ true
    pub server_ended : w.srv_shutdown ≡ true

  abbrev Stops : Result Failure (Unit {0}) × Process w → Type 0
  Stops r = Succeeds (λ _ p. IsStopped p.trace) r

  act_all-IsStopped : (as' trace : List Action) → IsStopped trace → IsStopped (act_all w as' trace)
  unfolding act_all
  act_all-IsStopped [] trace v = v
  act_all-IsStopped (a ∷ as') trace v = act_all-IsStopped as' (a ∷ trace) (record {
    before = v.before;
    after = a ∷ v.after;
    order = ap (λ t. a ∷ t) v.order;
    policy = v.policy;
    others = v.others;
    listened = v.listened;
    in_order = v.in_order;
    hub_ended = v.hub_ended;
    server_ended = v.server_ended;
  })

  unwind-IsStopped :
      (deferred : List (List Action)) (trace : List Action)
      → IsStopped trace
      → IsStopped (unwind w deferred trace)
  unfolding unwind
  unwind-IsStopped [] trace v = v
  unwind-IsStopped (as' ∷ deferred) trace v =
      unwind-IsStopped deferred (act_all w as' trace) (act_all-IsStopped as' trace v)

  returned-Stops :
      (outer : List (List Action)) (r : Result Failure (Unit {0}) × Process w)
      → Stops r
      → Stops (returned w outer r)
  returned-Stops outer (done x, p) v = unwind-IsStopped p.deferred p.trace v
  returned-Stops outer (failed e, p) v = tt

  -- What stands before the last stage does not matter.
  later-Stops :
      (m n : Run w (Unit {0}))
      → ((p : Process w) → Stops (n p))
      → (p : Process w) → Stops ((m >> n) p)
  later-Stops m n k p =
      Succeeds-bind (λ _ _. Unit {0}) (λ _ p'. IsStopped p'.trace) m (λ _. n) p
        (done-Succeeds (λ _ _. Unit {0}) (m p) (λ a h. tt)) (λ a p' u. k p')

  awaited-Stops :
      (in_time down : Bool) (policy : OriginPolicy) (others : List OriginPolicy) (p : Process w)
      → w.hub_done ≡ in_time
      → w.srv_shutdown ≡ down
      → (w.ending ≡ signalled) ⊎ (w.ending ≡ server_closed)
      → policies p.trace ≡ policy ∷ others
      → Stops (
          awaited w in_time down (record p {
            trace = stops_inboxes ∷ stops_accepting ∷ acquire shutdown_timer ∷ p.trace;
            deferred = (release shutdown_timer ∷ []) ∷ p.deferred;
          }))
  awaited-Stops false down policy others p h d n l = tt
  awaited-Stops true false policy others p h d n l = tt
  awaited-Stops true true policy others p h d n l = record {
    before = p.trace;
    after = [];
    order = refl;
    policy = policy;
    others = others;
    listened = l;
    in_order = n;
    hub_ended = h;
    server_ended = d;
  }

  shut_down-Stops :
      (policy : OriginPolicy) (others : List OriginPolicy) (p : Process w)
      → (w.ending ≡ signalled) ⊎ (w.ending ≡ server_closed)
      → policies p.trace ≡ policy ∷ others
      → Stops (shut_down w p)
  unfolding shut_down
  shut_down-Stops policy others p n l =
      awaited-Stops w.hub_done w.srv_shutdown policy others p refl refl n l

  ended-Stops :
      (ending : Ending) (policy : OriginPolicy) (others : List OriginPolicy) (p : Process w)
      → w.ending ≡ ending
      → policies p.trace ≡ policy ∷ others
      → Stops (ended w ending p)
  unfolding policies
  ended-Stops listen_error policy others p h l = tt
  ended-Stops server_closed policy others p h l =
      shut_down-Stops policy others (record p { trace = ends_listening ∷ p.trace }) (inr h) l
  ended-Stops signalled policy others p h l = shut_down-Stops policy others p (inl h) l

  policy-Stops :
      (c : Config) (found : Option OriginPolicy) (p : Process w)
      → Stops (with_policy w found (serve w c) p)
  unfolding serve policies
  policy-Stops c none p = tt
  policy-Stops c (some policy) p =
      ended-Stops w.ending policy (policies p.trace)
        (record p { trace = listens policy ∷ starts_hub ∷ p.trace }) refl refl

  with_redis-Stops : (c : Config) (p : Process w) → Stops (with_redis w c p)
  with_redis-Stops c =
      let start = with_policy w (new_origin_policy w.origin c.allowed_origins) (serve w c) in
      let keep = defer_ w (redis_release w c.redis_url) in
      later-Stops (connect_redis w c.redis_url) (keep >> start)
        (later-Stops keep start (policy-Stops c (new_origin_policy w.origin c.allowed_origins)))

  body-Stops : (c : Config) (p : Process w) → Stops (run_body w c p)
  body-Stops c =
      let migrating = migrate_schema w >> with_redis w c in
      let keeping = defer_ w (release pool ∷ []) >> migrating in
      let connecting = connect w c.database_url >> keeping in
      let timing = timed w startup_timer >> connecting in
      later-Stops (timed w signals) timing (
        later-Stops (timed w startup_timer) connecting (
          later-Stops (connect w c.database_url) keeping (
            later-Stops (defer_ w (release pool ∷ [])) migrating
              (later-Stops (migrate_schema w) (with_redis w c) (with_redis-Stops c)))))

  configured-Stops :
      (read : Result (List Load.Problem) Config) → Stops (configured w read (not_started w))
  unfolding run
  configured-Stops (failed problems) = tt
  configured-Stops (done c) =
      returned-Stops [] _ (body-Stops c (record (not_started w) { deferred = [] }))

  -- A process that ends with exit status 0 has listened, then told the server to stop accepting requests,
  -- closed the inboxes and saw the signaling hub end before the deadline, in this order; what it had waited
  -- for was a signal or ListenAndServe reporting ErrServerClosed, and Shutdown did not fail.
  pub main-IsStopped : (main w).0 ≡ done tt → IsStopped (main w).1.trace
  unfolding main
  main-IsStopped h =
      Succeeds-done (λ _ p. IsStopped p.trace) (configured w (load w.env) (not_started w)) tt
        (configured-Stops (load w.env)) h
