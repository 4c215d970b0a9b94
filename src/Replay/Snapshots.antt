-- ===== src/Replay/Snapshots.antt =====
-- The snapshots of internal/replay/service.go: json.Marshal and json.Unmarshal between the records and
-- their JSON, and the replay of a pair. Decoding sets the fields that the text names and leaves the
-- others zero; `null` sets none.
use trust_lot.Prelude.{
  String, Bool, true, ◌&&◌, ltb, Bool-cases, inl, inr, Option, none, some, List, [], ◌∷◌, ◌==◌,
  concat, ◌≡◌, refl, sym, arith, if◌then◌else◌,
}
use trust_lot.Platform.{Time, Float64}
use trust_lot.Model.{Position, Transaction}
use trust_lot.Db.Tables.{
  ReconConfig, Json, ReplayCaseRow, null, position_json, transaction_json, config_json, malformed,
}
use trust_lot.Db.Exec.{Error, message, wrap, Result, ok, err, recover}
use trust_lot.Recon.Rules.{Verdict, apply_rules, default_config, position_rules, transaction_rules}

-- The first number that is not finite.
abbrev first_unsupported : {N : Type 0} ⦃f : Float64 N⦄ → List N → Option N
first_unsupported [] = none
first_unsupported ⦃f⦄ (a ∷ rest) = if f.finite a then first_unsupported rest else some a

-- January 1 of year 10000, the first instant that encoding/json refuses.
abbrev pub year_10000 : Time
year_10000 = 315_537_897_600_000_000_000

abbrev all_datable : List Time → Bool
all_datable [] = true
all_datable (t ∷ rest) = ltb t year_10000 && all_datable rest

abbrev year_error : Error
year_error = message (
    concat (
      "json: error calling MarshalJSON for type time.Time: "
      ∷ "Time.MarshalJSON: year outside of range [0,9999]" ∷ []))

abbrev marshalled : {N : Type 0} ⦃f : Float64 N⦄ → Option N → List Time → Json N → Result (Json N)
marshalled none times j = if all_datable times then ok j else err year_error
marshalled ⦃f⦄ (some a) times j =
    err (message (concat ("json: unsupported value: " ∷ f.unsupported a ∷ [])))

abbrev pub and_then : {A B : Type 0} → Result A → (A → Result B) → Result B
and_then (ok a) f = f a
and_then (err e) f = err e

-- The status and the reason; the name of the rule is dropped.
abbrev pub answer : Verdict → String × Option String
answer v = (v.status, v.reason)

abbrev pub incomplete : String → Result (String × Option String)
incomplete id = err (message (concat ("incomplete snapshots for case " ∷ id ∷ [])))

module _ {N : Type 0} ⦃f : Float64 N⦄ where
  -- `nil` is marshalled as `null`. The numbers of a record come before its dates, and the first field
  -- that cannot be marshalled decides.
  unfoldable pub marshal_position : Option (Position N) → Result (Json N)
  marshal_position none = ok null
  marshal_position (some p) =
      marshalled (first_unsupported (p.quantity ∷ p.market_value ∷ [])) (p.as_of_date ∷ [])
        (position_json p)

  unfoldable pub marshal_transaction : Option (Transaction N) → Result (Json N)
  marshal_transaction none = ok null
  marshal_transaction (some t) =
      marshalled (first_unsupported (t.quantity ∷ t.price ∷ t.amount ∷ []))
        (t.trade_date ∷ t.settle_date ∷ []) (transaction_json t)

  unfoldable pub marshal_config : ReconConfig N → Result (Json N)
  marshal_config c =
      marshalled (first_unsupported (c.price_tolerance ∷ c.quantity_tolerance ∷ [])) []
        (config_json c)

  abbrev pub zero_position : Position N
  zero_position = record {
    id = "";
    account_id = "";
    security_id = "";
    quantity = f.zero;
    market_value = f.zero;
    as_of_date = 0;
    source = "";
    batch_id = none;
  }

  abbrev pub zero_transaction : Transaction N
  zero_transaction = record {
    id = "";
    account_id = "";
    security_id = "";
    txn_type = "";
    quantity = f.zero;
    price = f.zero;
    amount = f.zero;
    trade_date = 0;
    settle_date = 0;
    source = "";
    batch_id = none;
  }

  abbrev zero_config : ReconConfig N
  zero_config = record { price_tolerance = f.zero; quantity_tolerance = f.zero }

  unfoldable pub unmarshal_position : Json N → Result (Position N)
  unmarshal_position null = ok zero_position
  unmarshal_position (position_json p) = ok p
  unmarshal_position (transaction_json t) = ok (record zero_position {
    id = t.id;
    account_id = t.account_id;
    security_id = t.security_id;
    quantity = t.quantity;
    source = t.source;
    batch_id = t.batch_id;
  })
  unmarshal_position (config_json c) = ok zero_position
  unmarshal_position (malformed s) = err (message s)

  unfoldable pub unmarshal_transaction : Json N → Result (Transaction N)
  unmarshal_transaction null = ok zero_transaction
  unmarshal_transaction (position_json p) = ok (record zero_transaction {
    id = p.id;
    account_id = p.account_id;
    security_id = p.security_id;
    quantity = p.quantity;
    source = p.source;
    batch_id = p.batch_id;
  })
  unmarshal_transaction (transaction_json t) = ok t
  unmarshal_transaction (config_json c) = ok zero_transaction
  unmarshal_transaction (malformed s) = err (message s)

  unfoldable pub unmarshal_config : Json N → Result (ReconConfig N)
  unmarshal_config null = ok zero_config
  unmarshal_config (position_json p) = ok zero_config
  unmarshal_config (transaction_json t) = ok zero_config
  unmarshal_config (config_json c) = ok c
  unmarshal_config (malformed s) = err (message s)

  unfoldable pub replay_position : Json N → Json N → ReconConfig N → Result (String × Option String)
  replay_position internal custodian config =
      and_then (recover (wrap "unmarshal internal position") (unmarshal_position internal)) λ p.
        and_then (recover (wrap "unmarshal custodian position") (unmarshal_position custodian)) λ q.
          ok (
            answer (
              apply_rules position_rules (record { internal = p; custodian = q; config = config })))

  unfoldable pub replay_transaction :
      Json N → Json N → ReconConfig N → Result (String × Option String)
  replay_transaction internal custodian config =
      and_then (recover (wrap "unmarshal internal transaction") (unmarshal_transaction internal))
        λ s.
          and_then
            (recover (wrap "unmarshal custodian transaction") (unmarshal_transaction custodian))
            λ t. ok (
              answer (
                apply_rules transaction_rules
                  (record { internal = s; custodian = t; config = config })))

  abbrev pub config_of : Option (Json N) → Result (ReconConfig N)
  config_of none = ok default_config
  config_of (some j) = recover (wrap "unmarshal config") (unmarshal_config j)

  abbrev pub replay_pair :
      String → Json N → Json N → Option (Json N) → Result (String × Option String)
  replay_pair entity_type internal custodian snapshot = and_then (config_of snapshot) λ config.
      if entity_type == "position"
      then replay_position internal custodian config
      else if entity_type == "transaction"
      then replay_transaction internal custodian config
      else err (message (concat ("unsupported entity type: " ∷ entity_type ∷ [])))

  abbrev pub replay_present :
      ReplayCaseRow N → Option (Json N) → Option (Json N) → Result (String × Option String)
  replay_present row (some internal) (some custodian) =
      replay_pair row.entity_type internal custodian row.config_snapshot
  replay_present row none c = incomplete row.id
  replay_present row (some internal) none = incomplete row.id

  unfoldable pub replay_from_snapshots : ReplayCaseRow N → Result (String × Option String)
  unfolding replay_position replay_transaction unmarshal_config
  replay_from_snapshots row = replay_present row row.internal_snapshot row.custodian_snapshot

ok-injective : {A : Type 0} (a b : A) → ◌≡◌ {A = Result A} (ok a) (ok b) → a ≡ b
ok-injective a b e = ground arith

marshalled-ok :
    {N : Type 0} ⦃f : Float64 N⦄ (o : Option N) (times : List Time) (i j : Json N)
    → marshalled o times i ≡ ok j
    → i ≡ j
marshalled-ok none times i j h = elim (Bool-cases (all_datable times)) [
  | inl e ↦ ok-injective i j (rw e at h)
  | inr e ↦ absurd (ground arith)
]
marshalled-ok (some a) times i j h = absurd (ground arith)

module _ {N : Type 0} ⦃f : Float64 N⦄ where
  -- A snapshot of a position, of a transaction or of a configuration that can be marshalled is
  -- unmarshalled to what it was taken of.
  pub snapshot_roundtrip :
      (p : Position N) (t : Transaction N) (c : ReconConfig N) (i j k : Json N)
      → marshal_position (some p) ≡ ok i
      → marshal_transaction (some t) ≡ ok j
      → marshal_config c ≡ ok k
      → (unmarshal_position i ≡ ok p)
        × (unmarshal_transaction j ≡ ok t)
        × (unmarshal_config k ≡ ok c)
  unfolding marshal_position unmarshal_position marshal_transaction unmarshal_transaction
      marshal_config unmarshal_config
  snapshot_roundtrip p t c i j k hp ht hc =
      let position =
        marshalled-ok (first_unsupported (p.quantity ∷ p.market_value ∷ [])) (p.as_of_date ∷ [])
          (position_json p) i hp in
      let transaction =
        marshalled-ok (first_unsupported (t.quantity ∷ t.price ∷ t.amount ∷ []))
          (t.trade_date ∷ t.settle_date ∷ []) (transaction_json t) j ht in
      let config =
        marshalled-ok (first_unsupported (c.price_tolerance ∷ c.quantity_tolerance ∷ [])) []
          (config_json c) k hc in
      (rw (sym position) refl, rw (sym transaction) refl, rw (sym config) refl)
