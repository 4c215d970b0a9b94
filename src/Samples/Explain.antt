-- ===== src/Samples/Explain.antt =====
-- The theorems on internal/explain at concrete inputs.
use trust_lot.Prelude.{none, some, refl, ◌≡◌, ◌≢◌}
use trust_lot.Prelude.Int.{ℤ, pos}
use trust_lot.Db.Exec.{ok, World, query, on_error, attempt, pure, ◌>>=◌}
use trust_lot.Db.Records.{
  get_position, get_transaction, find_paired_position, find_paired_transaction,
}
use trust_lot.Replay.Service.{load_position_pair, load_transaction_pair}
use trust_lot.Db.Recon.{of_row}
use trust_lot.Explain.Report.{a_position, a_transaction}
use trust_lot.Explain.Builders.{build_explanation}
use trust_lot.Explain.Service.{explain_exception, explain_position_pair, explain_transaction_pair}
use trust_lot.Explain.Answers.{Names, build_explanation-Names}
use trust_lot.Explain.Panics.{explain_exception-answers}
use trust_lot.Explain.Pairs.{of_positions, of_transactions, explained_as_captured}
use trust_lot.Samples.Replay.{trades}
use trust_lot.Samples.Numbers.{cents}
use trust_lot.Samples.Data.{
  quiet, ours, theirs, quantity_result, quantity_exception, database, position_run, trade,
}

build_explanation-Names_example : Names quantity_exception (of_row quantity_result) (
    build_explanation quantity_exception
      (of_row quantity_result)
      (some (a_position ours))
      (some (a_position theirs)))
build_explanation-Names_example =
    build_explanation-Names quantity_exception (of_row quantity_result) (some (a_position ours))
      (some (a_position theirs)) refl refl

explain_exception-answers_example : (explain_exception "exc-1" database).0 ≢ ok none
explain_exception-answers_example = explain_exception-answers "exc-1" database (refl, tt)

abbrev after_two : World ℤ
after_two = record trades { calls = 2 }

positions_loaded :
    load_position_pair "p-1" position_run trades ≡ (ok (some ours, some theirs), after_two)
unfolding load_position_pair get_position find_paired_position query on_error attempt pure ◌>>=◌
positions_loaded = refl

trades_loaded : load_transaction_pair "t-1" position_run trades ≡ (
  ok (some (trade "t-1" (pos 50) "internal"), some (trade "u-1" (pos 60) "custodian")),
  after_two,
)
unfolding load_transaction_pair get_transaction find_paired_transaction query on_error attempt pure
    ◌>>=◌
trades_loaded = refl

positions_explained :
    explain_position_pair "p-1" position_run trades
    ≡ (ok (some (a_position ours), some (a_position theirs)), after_two)
positions_explained =
    explained_as_captured of_positions "p-1" position_run trades after_two (some ours, some theirs)
      positions_loaded

explained_as_captured_example : explain_transaction_pair "t-1" trades ≡ (
  ok (
    some (a_transaction (trade "t-1" (pos 50) "internal")),
    some (a_transaction (trade "u-1" (pos 60) "custodian")),
  ),
  after_two,
)
explained_as_captured_example =
    explained_as_captured of_transactions "t-1" position_run trades after_two
      (some (trade "t-1" (pos 50) "internal"), some (trade "u-1" (pos 60) "custodian"))
      trades_loaded
