-- ===== src/Tx/Simulated.antt =====
-- tx.go: nested transactions, which savepoints simulate, and the methods of the interface Tx.
use solo_coder.Common.{ℕ, Bool, true, Option, none, some, List, [], ◌∷◌, ◌++◌, ◌==◌, if◌then◌else◌}
use solo_coder.Common.Int.{ℤ, pos}
use solo_coder.Pgtype.Integers.{format_int}
use solo_coder.Tx.{
  TxError, tx_closed, Reply, failed, returned, Conn, Nested, DbTx, release_sql, rollback_to_sql,
  exec_root, begin_root, commit_root, rollback_root, prepare_root, query_root, copy_from_root,
  send_batch_root,
}

-- The nested transaction at an address is closed, as is one that was never begun.
unfoldable pub is_closed : ℕ → List Nested → Bool
is_closed p [] = true
is_closed p (x ∷ xs) = let rest = is_closed p xs in if x.address == p then x.nested_closed else rest

-- `sp.savepointNum`.
unfoldable pub number_at : ℕ → List Nested → ℤ
number_at p [] = pos 0
number_at p (x ∷ xs) = let rest = number_at p xs in if x.address == p then x.number else rest

-- `sp.closed = true`.
unfoldable pub close_nested : ℕ → List Nested → List Nested
close_nested p [] = []
close_nested p (x ∷ xs) =
    let rest = close_nested p xs in
    (if x.address == p then record x { nested_closed = true } else x) ∷ rest

-- The interface Tx: a real transaction, or the nested one at an address.
pub data Handle : Type 0 where
  real : Handle
  simulated : ℕ → Handle

module _ {C E A R : Type 0} (c : Conn C E A R) where
  -- `dbSimulatedNestedTx.Begin`.
  unfoldable pub begin_nested : ℕ → DbTx C → Reply E ℕ × DbTx C
  begin_nested p t = if is_closed p t.nested then (failed tx_closed, t) else begin_root c t

  -- `dbSimulatedNestedTx.Exec`.
  unfoldable pub exec_nested : ℕ → List ℕ → List A → DbTx C → Reply E (List ℕ) × DbTx C
  exec_nested p sql args t =
      if is_closed p t.nested then (failed tx_closed, t) else exec_root c sql args t

  -- `dbSimulatedNestedTx.Prepare`.
  unfoldable pub prepare_nested : ℕ → List ℕ → List ℕ → DbTx C → Reply E R × DbTx C
  prepare_nested p name sql t =
      if is_closed p t.nested then (failed tx_closed, t) else prepare_root c name sql t

  -- `dbSimulatedNestedTx.Query`.
  unfoldable pub query_nested : ℕ → List ℕ → List A → DbTx C → Reply E R × DbTx C
  query_nested p sql args t =
      if is_closed p t.nested then (failed tx_closed, t) else query_root c sql args t

  -- `dbSimulatedNestedTx.QueryRow`.
  unfoldable pub query_row_nested : ℕ → List ℕ → List A → DbTx C → Reply E R × DbTx C
  query_row_nested p sql args t = query_nested p sql args t

  -- `dbSimulatedNestedTx.CopyFrom`.
  unfoldable pub copy_from_nested :
      ℕ → List (List ℕ) → List (List ℕ) → List (List A) → DbTx C → Reply E R × DbTx C
  copy_from_nested p table columns rows t =
      if is_closed p t.nested then (failed tx_closed, t) else copy_from_root c table columns rows t

  -- `dbSimulatedNestedTx.SendBatch`.
  unfoldable pub send_batch_nested : ℕ → List (List ℕ × List A) → DbTx C → Reply E R × DbTx C
  send_batch_nested p b t =
      if is_closed p t.nested then (failed tx_closed, t) else send_batch_root c b t

  abbrev pub error_of : {T : Type 0} → Reply E T → Option (TxError E)
  error_of (failed e) = some e
  error_of (returned x) = none

  -- `dbSimulatedNestedTx.Commit` and `Rollback`, with their own texts.
  unfoldable pub end_nested : List ℕ → ℕ → DbTx C → Option (TxError E) × DbTx C
  end_nested text p t =
      if is_closed p t.nested
      then (some tx_closed, t)
      else (let (reply, t) = exec_nested p (text ++ format_int (number_at p t.nested)) [] t in
          (error_of reply, record t { nested = close_nested p t.nested }))

  unfoldable pub commit_nested : ℕ → DbTx C → Option (TxError E) × DbTx C
  commit_nested p t = end_nested release_sql p t

  unfoldable pub rollback_nested : ℕ → DbTx C → Option (TxError E) × DbTx C
  rollback_nested p t = end_nested rollback_to_sql p t

  -- Commit and Rollback of a Tx.
  unfoldable pub commit_tx : Handle → DbTx C → Option (TxError E) × DbTx C
  commit_tx real t = commit_root c t
  commit_tx (simulated p) t = commit_nested p t

  unfoldable pub rollback_tx : Handle → DbTx C → Option (TxError E) × DbTx C
  rollback_tx real t = rollback_root c t
  rollback_tx (simulated p) t = rollback_nested p t
