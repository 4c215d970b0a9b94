-- ===== src/Startup.antt =====
-- cmd/api/main.go, cmd/worker/main.go and what they call: internal/db/db.go, internal/telemetry and the
-- start and shutdown of internal/http/server.go. A process is the list of what it does, in order; pgxpool
-- and net/http are parameters. The context's cancellation and log lines are left out.
pub mod Pools
use trust_lot.Prelude.{String, Bool, true, false, Option, none, some, List, [], ◌∷◌, ◌++◌}
use trust_lot.Db.Exec.{Error, driver, wrap, Result, ok, err}
use trust_lot.Config.{Environment, Config, load}

-- What `ListenAndServe` answers, which never is nil: http.ErrServerClosed or a failure.
pub data Ended : Type 0 where
  server_closed : Ended
  failed : String → Ended

-- `pgxpool.New`, `pool.Ping`, `ListenAndServe` of an address, and `srv.Shutdown`: the error, if any.
pub record Outside : Type 0 where
  pub create : String → Option String
  pub ping : String → Option String
  pub listen : String → Ended
  pub stop : Option String

-- `launched`: the goroutine that serves an address, on a server with a store or without, and what Start
-- returns in it in the end. `shutdown_returned`: the error, if any.
pub data Event : Type 0 where
  telemetry_started : String → Event
  telemetry_stopped : String → Event
  pool_created : String → Event
  pool_closed : Event
  launched : String → Bool → Result (Unit {0}) → Event
  signalled : Event
  shutdown_returned : Option String → Event

module _ ⦃o : Outside⦄ where
  abbrev pinged : Option String → Result (Unit {0}) × List Event
  pinged none = (ok tt, [])
  pinged (some e) = (err (wrap "db: ping" (driver e)), pool_closed ∷ [])

  abbrev created : String → Option String → Result (Unit {0}) × List Event
  created url none = let (r, events) = pinged (o.ping url) in (r, pool_created url ∷ events)
  created url (some e) = (err (wrap "db: create pool" (driver e)), [])

  -- A pool, or an error, and what was done on the way.
  unfoldable pub new_pool : String → Result (Unit {0}) × List Event
  new_pool url = created url (o.create url)

  abbrev ended : Ended → Result (Unit {0})
  ended server_closed = ok tt
  ended (failed e) = err (wrap "http: listen" (driver e))

  unfoldable pub start : String → Result (Unit {0})
  start addr = ended (o.listen addr)

  unfoldable pub shutdown : List Event
  shutdown = shutdown_returned o.stop ∷ []

abbrev pub has_pool : {A : Type 0} → Result A → Bool
has_pool (ok a) = true
has_pool (err e) = false

-- `if pool != nil { defer pool.Close() }`
abbrev deferred_close : {A : Type 0} → Result A → List Event
deferred_close (ok a) = pool_closed ∷ []
deferred_close (err e) = []

module _ ⦃e : Environment⦄ ⦃o : Outside⦄ where
  -- main of cmd/api; what is deferred comes last, in reverse.
  unfoldable pub run_api : List Event
  unfolding load new_pool start shutdown
  run_api =
      let (pool, opening) = new_pool load.database_url in
      telemetry_started "trustlot-api" ∷ opening
      ++ launched load.http_addr (has_pool pool) (start load.http_addr) ∷ signalled ∷ shutdown
      ++ deferred_close pool
      ++ telemetry_stopped "trustlot-api" ∷ []

-- main of cmd/worker, which waits for a signal and does nothing else yet.
unfoldable pub run_worker : List Event
run_worker =
    telemetry_started "trustlot-worker" ∷ signalled ∷ telemetry_stopped "trustlot-worker" ∷ []
