-- ===== src/Tx/Laws.antt =====
-- tx.go: the calls of a Tx, and what they do once the transaction is closed.
use solo_coder.Common.{ℕ, ◌≡◌, true, Option, some, List}
use solo_coder.Tx.{
  TxError, tx_closed, Reply, Conn, DbTx, exec_root, begin_root, commit_root, rollback_root,
  prepare_root, query_root, query_row_root, copy_from_root, send_batch_root,
}
use solo_coder.Tx.Simulated.{
  begin_nested, exec_nested, prepare_nested, query_nested, query_row_nested, copy_from_nested,
  send_batch_nested, error_of, commit_nested, rollback_nested, Handle, real, simulated,
}

-- The calls of the methods Begin, Commit, Rollback, Exec, Prepare, Query, QueryRow, CopyFrom and
-- SendBatch, with their arguments.
pub data Call (A : Type 0) : Type 0 where
  begin_call commit_call rollback_call : Call A
  exec_call query_call query_row_call : List ℕ → List A → Call A
  prepare_call : List ℕ → List ℕ → Call A
  copy_from_call : List (List ℕ) → List (List ℕ) → List (List A) → Call A
  send_batch_call : List (List ℕ × List A) → Call A

module _ {C E A R : Type 0} (c : Conn C E A R) where
  abbrev failing : {T : Type 0} → Reply E T × DbTx C → Option (TxError E) × DbTx C
  failing r = (error_of c r.0, r.1)

  -- The error that the call returns, and the transaction behind it.
  unfoldable pub perform : Handle → Call A → DbTx C → Option (TxError E) × DbTx C
  perform real begin_call t = failing (begin_root c t)
  perform real commit_call t = commit_root c t
  perform real rollback_call t = rollback_root c t
  perform real (exec_call s args) t = failing (exec_root c s args t)
  perform real (query_call s args) t = failing (query_root c s args t)
  perform real (query_row_call s args) t = failing (query_row_root c s args t)
  perform real (prepare_call name s) t = failing (prepare_root c name s t)
  perform real (copy_from_call table columns rows) t =
      failing (copy_from_root c table columns rows t)
  perform real (send_batch_call b) t = failing (send_batch_root c b t)
  perform (simulated p) begin_call t = failing (begin_nested c p t)
  perform (simulated p) commit_call t = commit_nested c p t
  perform (simulated p) rollback_call t = rollback_nested c p t
  perform (simulated p) (exec_call s args) t = failing (exec_nested c p s args t)
  perform (simulated p) (query_call s args) t = failing (query_nested c p s args t)
  perform (simulated p) (query_row_call s args) t = failing (query_row_nested c p s args t)
  perform (simulated p) (prepare_call name s) t = failing (prepare_nested c p name s t)
  perform (simulated p) (copy_from_call table columns rows) t =
      failing (copy_from_nested c p table columns rows t)
  perform (simulated p) (send_batch_call b) t = failing (send_batch_nested c p b t)

  abbrev pub IsSilent : DbTx C → Option (TxError E) × DbTx C → Type 0
  IsSilent t r = (r.0 ≡ some tx_closed) × (r.1.conn ≡ t.conn) × (r.1.closed ≡ true)
