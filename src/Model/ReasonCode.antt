-- ===== src/Model/ReasonCode.antt =====
-- internal/model/reason_codes.go: the match statuses and the reason codes.
use trust_lot.Prelude.{String, Bool, true, ◌&&◌, not, ◌≡◌, refl, List, [], ◌∷◌, contains, length}

abbrev pub status_match : String
status_match = "MATCH"

abbrev pub status_near_match : String
status_near_match = "NEAR_MATCH"

abbrev pub status_break : String
status_break = "BREAK"

abbrev pub ing_schema_drift : String
ing_schema_drift = "ING_SCHEMA_DRIFT"

abbrev pub ing_late_feed : String
ing_late_feed = "ING_LATE_FEED"

abbrev pub map_security_ambiguous : String
map_security_ambiguous = "MAP_SECURITY_AMBIGUOUS"

abbrev pub map_account_unmapped : String
map_account_unmapped = "MAP_ACCOUNT_UNMAPPED"

abbrev pub txn_trade_settle_window : String
txn_trade_settle_window = "TXN_TRADE_SETTLE_WINDOW"

abbrev pub txn_duplicate : String
txn_duplicate = "TXN_DUPLICATE"

abbrev pub txn_correction_posted : String
txn_correction_posted = "TXN_CORRECTION_POSTED"

abbrev pub txn_amount_mismatch : String
txn_amount_mismatch = "TXN_AMOUNT_MISMATCH"

abbrev pub pos_quantity_mismatch : String
pos_quantity_mismatch = "POS_QUANTITY_MISMATCH"

abbrev pub pos_price_source_diff : String
pos_price_source_diff = "POS_PRICE_SOURCE_DIFF"

abbrev pub cash_unposted_fee : String
cash_unposted_fee = "CASH_UNPOSTED_FEE"

abbrev pub lot_cost_basis_mismatch : String
lot_cost_basis_mismatch = "LOT_COST_BASIS_MISMATCH"

abbrev pub lot_relief_method_diff : String
lot_relief_method_diff = "LOT_RELIEF_METHOD_DIFF"

abbrev pub lot_share_adjustment_ca : String
lot_share_adjustment_ca = "LOT_SHARE_ADJUSTMENT_CA"

abbrev pub lot_wash_sale_adj : String
lot_wash_sale_adj = "LOT_WASH_SALE_ADJ"

abbrev pub ca_event_missing : String
ca_event_missing = "CA_EVENT_MISSING"

abbrev pub ops_manual_override : String
ops_manual_override = "OPS_MANUAL_OVERRIDE"

-- `AllReasonCodes`
unfoldable pub all_reason_codes : List String
all_reason_codes =
    ing_schema_drift ∷ ing_late_feed ∷ map_security_ambiguous ∷ map_account_unmapped
    ∷ txn_trade_settle_window ∷ txn_duplicate ∷ txn_correction_posted ∷ txn_amount_mismatch
    ∷ pos_quantity_mismatch ∷ pos_price_source_diff ∷ cash_unposted_fee ∷ lot_cost_basis_mismatch
    ∷ lot_relief_method_diff ∷ lot_share_adjustment_ca ∷ lot_wash_sale_adj ∷ ca_event_missing
    ∷ ops_manual_override ∷ []

distinct : List String → Bool
distinct [] = true
distinct (c ∷ cs) = not (contains c cs) && distinct cs

-- Every code is a value of its own, so a code names one cause.
all_reason_codes-distinct : distinct all_reason_codes ≡ true
unfolding distinct all_reason_codes contains
all_reason_codes-distinct = refl

all_reason_codes_count : length all_reason_codes ≡ 17
unfolding all_reason_codes
all_reason_codes_count = refl
