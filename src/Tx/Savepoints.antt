-- ===== src/Tx/Savepoints.antt =====
-- tx.go: the numbers of savepoints.
use solo_coder.Common.{ℕ, suc, ◌+◌, ◌^◌, ◌<◌, refl, List, [], ◌∷◌, arith, length}
use solo_coder.Tx.{
  Conn, DbTx, start_tx, release_sql, rollback_to_sql, exec_root, begin_root, commit_root,
  rollback_root, prepare_root, query_root, query_row_root, copy_from_root, send_batch_root, prepare,
  query, copy_from, send_batch,
}
use solo_coder.Tx.Simulated.{
  is_closed, begin_nested, exec_nested, prepare_nested, query_nested, query_row_nested,
  copy_from_nested, send_batch_nested, end_nested, commit_nested, rollback_nested, Handle, real,
  simulated,
}
use solo_coder.Tx.Laws.{
  Call, begin_call, commit_call, rollback_call, exec_call, query_call, query_row_call, prepare_call,
  copy_from_call, send_batch_call, perform,
}
use solo_coder.Tx.Counts.{
  IsCounted, IsNumbered, guarded, counted_less, exec_root-IsCounted, begin_root-IsNumbered,
  commit_root-IsCounted, rollback_root-IsCounted, end_nested-IsCounted, hand_on-IsNumbered,
}

module _ {C E A R : Type 0} (c : Conn C E A R) where
  real-IsNumbered :
      (n : ℕ) (k : Call A) (t : DbTx C)
      → suc n < 2 ^ 63
      → IsCounted n t
      → IsNumbered (suc n) (perform c real k t).1
  unfolding perform prepare_root query_root query_row_root copy_from_root send_batch_root
  real-IsNumbered n begin_call t small v = begin_root-IsNumbered c n t small v
  real-IsNumbered n commit_call t small v =
      counted_less c n (commit_root c t).1 (commit_root-IsCounted c n t v)
  real-IsNumbered n rollback_call t small v =
      counted_less c n (rollback_root c t).1 (rollback_root-IsCounted c n t v)
  real-IsNumbered n (exec_call s args) t small v =
      counted_less c n (exec_root c s args t).1 (exec_root-IsCounted c n s args t v)
  real-IsNumbered n (query_call s args) t small v =
      hand_on-IsNumbered c n t.closed (query s args) t v
  real-IsNumbered n (query_row_call s args) t small v =
      hand_on-IsNumbered c n t.closed (query s args) t v
  real-IsNumbered n (prepare_call name s) t small v =
      hand_on-IsNumbered c n t.closed (prepare name s) t v
  real-IsNumbered n (copy_from_call table columns rows) t small v =
      hand_on-IsNumbered c n t.closed (copy_from table columns rows) t v
  real-IsNumbered n (send_batch_call b) t small v =
      hand_on-IsNumbered c n t.closed (send_batch b) t v

  perform-IsNumbered :
      (n : ℕ) (h : Handle) (k : Call A) (t : DbTx C)
      → suc n < 2 ^ 63
      → IsCounted n t
      → IsNumbered (suc n) (perform c h k t).1
  unfolding perform begin_nested exec_nested prepare_nested query_nested query_row_nested
      copy_from_nested send_batch_nested commit_nested rollback_nested query_row_root
  perform-IsNumbered n real k t small v = real-IsNumbered n k t small v
  perform-IsNumbered n (simulated p) commit_call t small v =
      counted_less c n (end_nested c release_sql p t).1 (end_nested-IsCounted c n release_sql p t v)
  perform-IsNumbered n (simulated p) rollback_call t small v =
      counted_less c n (end_nested c rollback_to_sql p t).1
        (end_nested-IsCounted c n rollback_to_sql p t v)
  perform-IsNumbered n (simulated p) begin_call t small v =
      guarded c (IsNumbered (suc n)) (is_closed p t.nested) t (begin_root c t)
        (counted_less c n t v) (real-IsNumbered n begin_call t small v)
  perform-IsNumbered n (simulated p) (exec_call s args) t small v =
      guarded c (IsNumbered (suc n)) (is_closed p t.nested) t (exec_root c s args t)
        (counted_less c n t v) (real-IsNumbered n (exec_call s args) t small v)
  perform-IsNumbered n (simulated p) (query_call s args) t small v =
      guarded c (IsNumbered (suc n)) (is_closed p t.nested) t (query_root c s args t)
        (counted_less c n t v) (real-IsNumbered n (query_call s args) t small v)
  perform-IsNumbered n (simulated p) (query_row_call s args) t small v =
      guarded c (IsNumbered (suc n)) (is_closed p t.nested) t (query_root c s args t)
        (counted_less c n t v) (real-IsNumbered n (query_call s args) t small v)
  perform-IsNumbered n (simulated p) (prepare_call name s) t small v =
      guarded c (IsNumbered (suc n)) (is_closed p t.nested) t (prepare_root c name s t)
        (counted_less c n t v) (real-IsNumbered n (prepare_call name s) t small v)
  perform-IsNumbered n (simulated p) (copy_from_call table columns rows) t small v =
      guarded c (IsNumbered (suc n)) (is_closed p t.nested) t
        (copy_from_root c table columns rows t) (counted_less c n t v)
        (real-IsNumbered n (copy_from_call table columns rows) t small v)
  perform-IsNumbered n (simulated p) (send_batch_call b) t small v =
      guarded c (IsNumbered (suc n)) (is_closed p t.nested) t (send_batch_root c b t)
        (counted_less c n t v) (real-IsNumbered n (send_batch_call b) t small v)

  -- The transaction behind a sequence of calls, each on the real transaction or a nested one.
  unfoldable pub run_calls : List (Handle × Call A) → DbTx C → DbTx C
  run_calls [] t = t
  run_calls ((h, k) ∷ ks) t = run_calls ks (perform c h k t).1

  run_calls-IsCounted :
      (n : ℕ) (ks : List (Handle × Call A)) (t : DbTx C)
      → n + length ks < 2 ^ 63
      → IsCounted n t
      → IsNumbered (n + length ks) (run_calls ks t)
  unfolding run_calls
  run_calls-IsCounted n [] t small (e, b) = (n, omega arith, e, b)
  run_calls-IsCounted n ((h, k) ∷ ks) t small v =
      let (m, l, e, b) = perform-IsNumbered n h k t (omega (arith, small)) v in
      let (m', l', e', b') =
        run_calls-IsCounted m ks (perform c h k t).1 (omega (arith, small, l)) (e, b) in
      (m', omega (arith, l, l'), e', b')

  -- From a transaction that BeginTx returned, behind every sequence of fewer than 2^63 calls of the
  -- methods of it and of its nested transactions, with every replies of the connection: the count of
  -- savepoints has not wrapped round, and is no more than the number of calls; the numbers of the
  -- nested transactions, closed ones included, fall from the last begun to the first, none above the
  -- count, so that no number stands twice.
  pub run_calls-IsNumbered :
      (conn : C) (commit_query : List ℕ) (ks : List (Handle × Call A))
      → length ks < 2 ^ 63
      → IsNumbered (length ks) (run_calls ks (start_tx conn commit_query))
  unfolding start_tx
  run_calls-IsNumbered conn commit_query ks small =
      let (n, l, e, b) =
        run_calls-IsCounted 0 ks (start_tx conn commit_query) (omega (arith, small)) (refl, tt) in
      (n, omega (arith, l), e, b)
