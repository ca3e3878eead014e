-- ===== src/Tx.antt =====
-- tx.go: a real transaction, and what is kept of the nested ones. The connection is a parameter.
pub mod Simulated
pub mod Func
pub mod Laws
mod Counts
pub mod Savepoints
mod Tests
use solo_coder.Common.{
  ℕ, zero, suc, ◌+◌, ◌-◌, ◌^◌, Bool, true, false, ◌&&◌, Option, none, some, List, [], ◌∷◌, ◌++◌,
  ltb, ◌==◌, if◌then◌else◌, length,
}
use solo_coder.Common.Int.{ℤ, pos, negsuc}
use solo_coder.Pgtype.Integers.{format_int}

pub data TxError (E : Type 0) : Type 0 where
  tx_closed tx_commit_rollback : TxError E
  conn_error : E → TxError E

-- What a method returns: an error, or a value, of Exec the command tag.
pub data Reply (E : Type 0) (R : Type 0) : Type 0 where
  failed : TxError E → Reply E R
  returned : R → Reply E R

-- The methods that a transaction hands on, with their arguments: the name and the SQL of Prepare,
-- the table, the columns and the rows of CopyFrom, the queries of SendBatch.
pub data Request (A : Type 0) : Type 0 where
  prepare : List ℕ → List ℕ → Request A
  query : List ℕ → List A → Request A
  copy_from : List (List ℕ) → List (List ℕ) → List (List A) → Request A
  send_batch : List (List ℕ × List A) → Request A

-- What a transaction uses of its connection C: Exec, Prepare, Query, CopyFrom and SendBatch,
-- `PgConn().TxStatus() == 'I'`, Close and die. An argument is an A, what the methods besides Exec
-- return is an R.
pub record Conn (C : Type 0) (E : Type 0) (A : Type 0) (R : Type 0) : Type 0 where
  pub exec : List ℕ → List A → C → Reply E (List ℕ) × C
  pub request : Request A → C → Reply E R × C
  pub is_idle : C → Bool
  pub close : C → C
  pub die : C → C

-- `dbSimulatedNestedTx`: the address, by which a caller holds it, and its fields. Its `tx` is always
-- the real transaction.
pub record Nested : Type 0 where
  pub address : ℕ
  pub number : ℤ
  pub nested_closed : Bool

-- `dbTx`, and the nested transactions begun so far.
pub record DbTx (C : Type 0) : Type 0 where
  pub conn : C
  pub savepoint_num : ℤ
  pub closed : Bool
  pub commit_query : List ℕ
  pub nested : List Nested

-- The transaction that BeginTx returns.
unfoldable pub start_tx : {C : Type 0} → C → List ℕ → DbTx C
start_tx conn commit_query = record {
  conn = conn;
  savepoint_num = pos 0;
  closed = false;
  commit_query = commit_query;
  nested = [];
}

-- `n++` of an int64.
unfoldable pub next_int64 : ℤ → ℤ
next_int64 (pos n) = if ltb (n + 1) (2 ^ 63) then pos (n + 1) else negsuc (2 ^ 63 - 1)
next_int64 (negsuc zero) = pos 0
next_int64 (negsuc (suc n)) = negsuc n

-- The texts in front of a savepoint's number.
abbrev pub savepoint_sql : List ℕ
savepoint_sql =
    b's' ∷ b'a' ∷ b'v' ∷ b'e' ∷ b'p' ∷ b'o' ∷ b'i' ∷ b'n' ∷ b't' ∷ b' ' ∷ b's' ∷ b'p' ∷ b'_' ∷ []

abbrev pub release_sql : List ℕ
release_sql = b'r' ∷ b'e' ∷ b'l' ∷ b'e' ∷ b'a' ∷ b's' ∷ b'e' ∷ b' ' ∷ savepoint_sql

abbrev pub rollback_sql : List ℕ
rollback_sql = b'r' ∷ b'o' ∷ b'l' ∷ b'l' ∷ b'b' ∷ b'a' ∷ b'c' ∷ b'k' ∷ []

abbrev pub rollback_to_sql : List ℕ
rollback_to_sql = rollback_sql ++ (b' ' ∷ b't' ∷ b'o' ∷ b' ' ∷ savepoint_sql)

abbrev pub commit_sql : List ℕ
commit_sql = b'c' ∷ b'o' ∷ b'm' ∷ b'm' ∷ b'i' ∷ b't' ∷ []

abbrev rollback_tag : List ℕ
rollback_tag = b'R' ∷ b'O' ∷ b'L' ∷ b'L' ∷ b'B' ∷ b'A' ∷ b'C' ∷ b'K' ∷ []

unfoldable pub same_bytes : List ℕ → List ℕ → Bool
same_bytes [] [] = true
same_bytes (a ∷ s) (b ∷ t) = a == b && same_bytes s t
same_bytes s t = false

module _ {C E A R : Type 0} (c : Conn C E A R) where
  -- `dbTx.Exec`.
  unfoldable pub exec_root : List ℕ → List A → DbTx C → Reply E (List ℕ) × DbTx C
  exec_root sql args t =
      if t.closed
      then (failed tx_closed, t)
      else (let (reply, conn) = c.exec sql args t.conn in (reply, record t { conn = conn }))

  -- Behind the Exec of `dbTx.Begin`: the error, or the address of the nested transaction.
  unfoldable pub finish_begin : Reply E (List ℕ) → DbTx C → Reply E ℕ × DbTx C
  finish_begin (failed e) t = (failed e, t)
  finish_begin (returned s) t =
      let sp : Nested = record {
        address = length t.nested;
        number = t.savepoint_num;
        nested_closed = false;
      } in
      (returned sp.address, record t { nested = sp ∷ t.nested })

  -- `dbTx.Begin`.
  unfoldable pub begin_root : DbTx C → Reply E ℕ × DbTx C
  begin_root t =
      if t.closed
      then (failed tx_closed, t)
      else (let t = record t { savepoint_num = next_int64 t.savepoint_num } in
          let (reply, t) = exec_root (savepoint_sql ++ format_int t.savepoint_num) [] t in
          finish_begin reply t)

  -- Behind the Exec of `dbTx.Commit`.
  unfoldable pub finish_commit : Reply E (List ℕ) → DbTx C → Option (TxError E) × DbTx C
  finish_commit (failed e) t =
      (some e, (if c.is_idle t.conn then t else record t { conn = c.close t.conn }))
  finish_commit (returned s) t =
      ((if same_bytes s rollback_tag then some tx_commit_rollback else none), t)

  -- `dbTx.Commit`.
  unfoldable pub commit_root : DbTx C → Option (TxError E) × DbTx C
  commit_root t =
      if t.closed
      then (some tx_closed, t)
      else (let sql = if length t.commit_query == 0 then commit_sql else t.commit_query in
          let (reply, t) = exec_root sql [] t in finish_commit reply (record t { closed = true }))

  -- Behind the Exec of `dbTx.Rollback`.
  unfoldable pub finish_rollback : Reply E (List ℕ) → DbTx C → Option (TxError E) × DbTx C
  finish_rollback (failed e) t = (some e, record t { conn = c.die t.conn })
  finish_rollback (returned s) t = (none, t)

  -- `dbTx.Rollback`.
  unfoldable pub rollback_root : DbTx C → Option (TxError E) × DbTx C
  rollback_root t =
      if t.closed
      then (some tx_closed, t)
      else (let (reply, t) = exec_root rollback_sql [] t in
          finish_rollback reply (record t { closed = true }))

  -- What the methods besides Exec do behind their guard.
  unfoldable pub hand_on : Request A → DbTx C → Reply E R × DbTx C
  hand_on q t = let (reply, conn) = c.request q t.conn in (reply, record t { conn = conn })

  -- `dbTx.Prepare`.
  unfoldable pub prepare_root : List ℕ → List ℕ → DbTx C → Reply E R × DbTx C
  prepare_root name sql t = if t.closed then (failed tx_closed, t) else hand_on (prepare name sql) t

  -- `dbTx.Query`: the error of its rows, too.
  unfoldable pub query_root : List ℕ → List A → DbTx C → Reply E R × DbTx C
  query_root sql args t = if t.closed then (failed tx_closed, t) else hand_on (query sql args) t

  -- `dbTx.QueryRow`: the row is the rows of Query.
  unfoldable pub query_row_root : List ℕ → List A → DbTx C → Reply E R × DbTx C
  query_row_root sql args t = query_root sql args t

  -- `dbTx.CopyFrom`.
  unfoldable pub copy_from_root :
      List (List ℕ) → List (List ℕ) → List (List A) → DbTx C → Reply E R × DbTx C
  copy_from_root table columns rows t =
      if t.closed then (failed tx_closed, t) else hand_on (copy_from table columns rows) t

  -- `dbTx.SendBatch`.
  unfoldable pub send_batch_root : List (List ℕ × List A) → DbTx C → Reply E R × DbTx C
  send_batch_root b t = if t.closed then (failed tx_closed, t) else hand_on (send_batch b) t
