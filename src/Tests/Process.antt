-- ===== src/Tests/Process.antt =====
-- A process that starts, listens and is told to stop.
use cb_back.Process.Exit.{IsStopped, main-IsStopped}
use cb_back.Http.Respond.Chain.{chain-IsAnswered, IsAnswered}
use cb_back.Http.Respond.{
  write_header, write, json, error, guard, security_headers, recover, response, new_writer, chain,
  ErrorBody, Handler,
}
use cb_back.Prelude.Results.{done}
use cb_back.Prelude.{Option, length, ◌≡◌, refl, true, AllOf, some, [], ◌∷◌, Text, codes, text_eq}
use cb_back.Config.Load.{parse_duration, parse_bool, parse_level, entries, load}
use cb_back.Http.Origin
use cb_back.Http.Origin.{csrf, permitted_of, new_origin_policy}
use cb_back.Migrations.{apply_migration, apply_all, migrate, sort, insert_sorted, text_leb}
use cb_back.Process.{
  unwind, act_all, shut_down, serve, connect_redis, migrate_schema, connect, run, World, main,
  signalled,
}
use cb_back.Process.Resources.{nothing_held, replay, policies}
use cb_back.Process.Startup.{main-Closes, IsReady, main-IsReady}
use cb_back.Tests.Start.{postgres}
use cb_back.Tests.Backend.{policy, environment, urls}
use cb_back.Prelude.Strings.{split, trim_right, trim_left, among}

-- The schema's second file no longer fails.
abbrev machine : World
machine = record {
  env = environment;
  origin = urls;
  postgres = postgres;
  schema = ([], 1);
  parse_pool_config = λ url. true;
  new_pool = λ url. true;
  pool_ping = λ url. true;
  parse_redis_url = λ url. true;
  redis_ping = λ url. true;
  redis_close = λ url. true;
  ending = signalled;
  srv_shutdown = true;
  hub_done = true;
}

main-Closes_example : replay (main machine).1.trace ≡ some nothing_held
main-Closes_example = main-Closes machine

main-IsReady_example :
    AllOf
      (λ policy.
        IsReady machine (codes "2.sql" ∷ codes "1.sql" ∷ []) policy (main machine).1.database)
      (policies (main machine).1.trace)
unfolding among text_eq
main-IsReady_example =
    main-IsReady machine (codes "2.sql" ∷ codes "1.sql" ∷ []) refl (refl, (refl, tt))

-- The process does listen, and it ends without a failure.
machine_listens : (length (policies (main machine).1.trace) ≡ 1) × ((main machine).0 ≡ done tt)
unfolding policies main run connect migrate_schema connect_redis serve shut_down act_all unwind load
    text_eq trim_left trim_right entries parse_level parse_bool parse_duration split
    new_origin_policy permitted_of migrate sort insert_sorted text_leb apply_all apply_migration
    among
machine_listens = (refl, refl)

main-IsStopped_example : IsStopped machine (main machine).1.trace
main-IsStopped_example = main-IsStopped machine machine_listens.1

-- A handler that panics before it answers, at a read.
abbrev panicking : Handler
panicking w = (true, w)

abbrev reading : Origin.Request
reading = record { method = codes "GET"; host = codes "api.b"; origin = []; authorization = [] }

abbrev marshal : ErrorBody → Option Text
marshal e = some e.error

chain-IsAnswered_example :
    IsAnswered marshal urls policy reading panicking
      (chain marshal urls policy reading panicking new_writer)
chain-IsAnswered_example = chain-IsAnswered marshal urls policy reading panicking (λ w h. h)

panic_status : (response (chain marshal urls policy reading panicking new_writer)).0 ≡ 500
unfolding response chain recover security_headers guard csrf error json write write_header text_eq
panic_status = refl
