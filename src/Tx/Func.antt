-- ===== src/Tx/Func.antt =====
-- tx.go: `beginFuncExec`, on any Tx.
pub mod Laws
use solo_coder.Common.{Option, none, some}
use solo_coder.Tx.{TxError, tx_closed, tx_commit_rollback, conn_error, Conn, DbTx}
use solo_coder.Tx.Simulated.{Handle, commit_tx, rollback_tx}

-- A function returns an error or none, or it panics.
pub data Ending (E : Type 0) : Type 0 where
  returns : Option (TxError E) → Ending E
  panics : Ending E

-- `err = rollbackErr`, where that is an error other than ErrTxClosed.
unfoldable pub keep_error :
    {E : Type 0} → Option (TxError E) → Option (TxError E) → Option (TxError E)
keep_error e none = e
keep_error e (some tx_closed) = e
keep_error e (some tx_commit_rollback) = some tx_commit_rollback
keep_error e (some (conn_error x)) = some (conn_error x)

module _ {C E A R : Type 0} (c : Conn C E A R) where
  -- The deferred function: it runs on a return and on a panic, which then goes on.
  unfoldable pub deferred_rollback : Handle → Ending E × DbTx C → Ending E × DbTx C
  deferred_rollback h (returns e, t) =
      let (rollback_err, t') = rollback_tx c h t in (returns (keep_error e rollback_err), t')
  deferred_rollback h (panics, t) = (panics, (rollback_tx c h t).1)

  -- Behind the call of fn; a panic leaves the body.
  unfoldable pub finish_func : Handle → Ending E → DbTx C → Ending E × DbTx C
  finish_func h (returns none) t = let (e, t') = commit_tx c h t in (returns e, t')
  finish_func h (returns (some e)) t = (returns (some e), (rollback_tx c h t).1)
  finish_func h panics t = (panics, t)

  -- `beginFuncExec`, for a function that changes the transaction by any calls of the Tx.
  unfoldable pub begin_func_exec :
      Handle → (Handle → DbTx C → Ending E × DbTx C) → DbTx C → Ending E × DbTx C
  begin_func_exec h fn t = let (f_err, t') = fn h t in deferred_rollback h (finish_func h f_err t')
