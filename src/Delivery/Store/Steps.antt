-- ===== src/Delivery/Store/Steps.antt =====
-- The processes that share the tables of internal/deliverypg/store.go: any transaction of any of them, in any
-- order.
use relaypoint.Common.{ℕ, String, List, Option, Bool}
use relaypoint.Delivery.{Receipt, AppendInput, Externals}
use relaypoint.Delivery.Acks.{AckResult}
use relaypoint.Delivery.Store.Rows.{Db}
use relaypoint.Delivery.Store.{Ending, Drawn, append, claim, complete, retry}

module _ (x : Externals) (unmarshal_receipt : List ℕ → Option Receipt)
    (before : String → String → Bool) where
  -- What any process may do to the tables.
  pub data Step (db : Db) : Db → Type 0 where
    appends :
        (ending : Ending) (input : AppendInput) (drawn : Drawn)
        → Step db (append x unmarshal_receipt ending db input drawn).0
    claims :
        (ending : Ending) (locked : String → Bool) (tenant_id token : String) (now at : ℕ)
        → Step db (claim x unmarshal_receipt before ending locked tenant_id token now at db).0
    completes :
        (ending : Ending) (tenant_id receipt_id token : String) (result : AckResult)
        → Step db (complete ending tenant_id receipt_id token result db).0
    retries :
        (ending : Ending) (tenant_id receipt_id token : String) (message : List ℕ) (now : ℕ)
        → Step db (retry ending tenant_id receipt_id token message now db).0

  pub data Steps (db : Db) : Db → Type 0 where
    here : Steps db db
    next : {d e : Db} → Steps db d → Step d e → Steps db e
