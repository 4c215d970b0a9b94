-- ===== src/Db/Ping.antt =====
-- internal/db/store.go: the check that the database answers.
use trust_lot.Platform.{Env}
use trust_lot.Db.Exec.{Exec, ok, query}

module _ {N : Type 0} ⦃env : Env⦄ where
  unfoldable pub ping : Exec N (Unit {0})
  ping = query (λ t. ok tt)
