-- ===== src/Samples/Startup.antt =====
-- The theorem on the processes of cmd at a concrete input, and the worker.
use trust_lot.Prelude.{true, false, none, some, ◌≡◌}
use trust_lot.Startup.{Outside, server_closed, run_api}
use trust_lot.Startup.Pools.{orderly, run_api-orderly}
use trust_lot.Samples.Config.{unset}

-- The database does not answer.
abbrev no_answer : Outside
no_answer = record {
  create = λ url. none;
  ping = λ url. some "connection refused";
  listen = λ addr. server_closed;
  stop = none;
}

run_api-orderly_example : orderly false false (run_api ⦃e = unset⦄ ⦃o = no_answer⦄) ≡ true
run_api-orderly_example = run_api-orderly unset no_answer
