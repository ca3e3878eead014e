-- ===== src/Tx/Func/Laws.antt =====
-- tx.go: how `beginFuncExec` ends.
use mathlib.Core.Path.{subst}
use solo_coder.Common.{
  ℕ, ◌≡◌, refl, sym, inl, inr, true, Option, none, some, List, [], ◌∷◌, ◌==◌, Bool-cases,
}
use solo_coder.Tx.{
  failed, returned, TxError, tx_closed, Reply, Conn, Nested, DbTx, finish_commit, commit_root,
  finish_rollback, rollback_root, release_sql, rollback_to_sql,
}
use solo_coder.Tx.Simulated.{
  is_closed, close_nested, Handle, real, simulated, end_nested, commit_nested, rollback_nested,
  commit_tx, rollback_tx,
}
use solo_coder.Tx.Func.{
  Ending, returns, panics, keep_error, deferred_rollback, finish_func, begin_func_exec,
}

close_nested-is_closed : (p : ℕ) (xs : List Nested) → is_closed p (close_nested p xs) ≡ true
unfolding is_closed close_nested
close_nested-is_closed p [] = refl
close_nested-is_closed p (x ∷ xs) = elim (Bool-cases (x.address == p)) [
  | inl this ↦ rw (this, this) refl
  | inr that ↦ rw (that, that) (close_nested-is_closed p xs)
]

module _ {C E A R : Type 0} (c : Conn C E A R) where
  -- The Tx is closed.
  abbrev pub IsEnded : Handle → DbTx C → Type 0
  IsEnded real t = t.closed ≡ true
  IsEnded (simulated p) t = is_closed p t.nested ≡ true

  finish_commit-closed :
      (reply : Reply E (List ℕ)) (t : DbTx C) → (finish_commit c reply t).1.closed ≡ t.closed
  unfolding finish_commit
  finish_commit-closed (failed e) t = elim (Bool-cases (c.is_idle t.conn)) [
    | inl idle ↦ rw idle refl
    | inr busy ↦ rw busy refl
  ]
  finish_commit-closed (returned s) t = refl

  finish_rollback-closed :
      (reply : Reply E (List ℕ)) (t : DbTx C) → (finish_rollback c reply t).1.closed ≡ t.closed
  unfolding finish_rollback
  finish_rollback-closed (failed e) t = refl
  finish_rollback-closed (returned s) t = refl

  end_nested-IsEnded :
      (s : List ℕ) (p : ℕ) (t : DbTx C) → IsEnded (simulated p) (end_nested c s p t).1
  unfolding end_nested
  end_nested-IsEnded s p t = elim (Bool-cases (is_closed p t.nested)) [
    | inl ended ↦ rw ended ended
    | inr going ↦ rw going (close_nested-is_closed p _)
  ]

  commit_tx-IsEnded : (h : Handle) (t : DbTx C) → IsEnded h (commit_tx c h t).1
  unfolding commit_tx commit_root commit_nested
  commit_tx-IsEnded (simulated p) t = end_nested-IsEnded release_sql p t
  commit_tx-IsEnded real t = elim (Bool-cases t.closed) [
    | inl ended ↦ rw ended refl
    | inr going ↦ rw going (finish_commit-closed _ _)
  ]

  rollback_tx-IsEnded : (h : Handle) (t : DbTx C) → IsEnded h (rollback_tx c h t).1
  unfolding rollback_tx rollback_root rollback_nested
  rollback_tx-IsEnded (simulated p) t = end_nested-IsEnded rollback_to_sql p t
  rollback_tx-IsEnded real t = elim (Bool-cases t.closed) [
    | inl ended ↦ rw ended refl
    | inr going ↦ rw going (finish_rollback-closed _ _)
  ]

  -- Rollback of a closed Tx does nothing but return ErrTxClosed.
  rollback_tx-ended :
      (h : Handle) (t : DbTx C) → IsEnded h t → rollback_tx c h t ≡ (some tx_closed, t)
  unfolding rollback_tx rollback_root rollback_nested end_nested
  rollback_tx-ended real t ended = rw ended refl
  rollback_tx-ended (simulated p) t ended = rw ended refl

  -- How fn ended and left the transaction decides what is done: Commit, whose error is returned;
  -- Rollback, and the error of fn; Rollback, and the panic goes on.
  abbrev pub Finished : Handle → Ending E → DbTx C → Ending E × DbTx C → Type 0
  Finished h (returns none) t r = (r.0 ≡ returns (commit_tx c h t).0) × (r.1 ≡ (commit_tx c h t).1)
  Finished h (returns (some e)) t r = (r.0 ≡ returns (some e)) × (r.1 ≡ (rollback_tx c h t).1)
  Finished h panics t r = (r.0 ≡ panics) × (r.1 ≡ (rollback_tx c h t).1)

  deferred_rollback-ended :
      (h : Handle) (e : Option (TxError E)) (t : DbTx C)
      → IsEnded h t
      → deferred_rollback c h (returns e, t) ≡ (returns e, t)
  unfolding deferred_rollback keep_error
  deferred_rollback-ended h e t ended = rw (rollback_tx-ended h t ended) refl

  finish_func-Finished :
      (h : Handle) (o : Ending E) (t : DbTx C)
      → IsEnded h (deferred_rollback c h (finish_func c h o t)).1
        × Finished h o t (deferred_rollback c h (finish_func c h o t))
  unfolding finish_func
  finish_func-Finished h (returns none) t =
      let ended = commit_tx-IsEnded h t in
      subst (λ (r : Ending E × DbTx C). IsEnded h r.1 × Finished h (returns none) t r)
        (sym (deferred_rollback-ended h _ _ ended)) (ended, (refl, refl))
  finish_func-Finished h (returns (some e)) t =
      let ended = rollback_tx-IsEnded h t in
      subst (λ (r : Ending E × DbTx C). IsEnded h r.1 × Finished h (returns (some e)) t r)
        (sym (deferred_rollback-ended h (some e) _ ended)) (ended, (refl, refl))
  finish_func-Finished h panics t =
      unfold deferred_rollback in (rollback_tx-IsEnded h t, (refl, refl))

  -- For every Tx, real or nested, every function, and every replies of the connection: beginFuncExec
  -- ends with the Tx closed. Where the function returned no error, its result is what Commit returns
  -- in the state that the function left, and the state is that behind Commit; where it returned an
  -- error, that error, and the state behind Rollback; where it panicked, the panic goes on, with the
  -- state behind Rollback. The deferred Rollback does nothing more in the first two cases.
  pub begin_func_exec-Finished :
      (h : Handle) (fn : Handle → DbTx C → Ending E × DbTx C) (t : DbTx C)
      → IsEnded h (begin_func_exec c h fn t).1
        × Finished h (fn h t).0 (fn h t).1 (begin_func_exec c h fn t)
  unfolding begin_func_exec
  begin_func_exec-Finished h fn t = finish_func-Finished h (fn h t).0 (fn h t).1
