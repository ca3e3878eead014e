-- ===== src/Tx/Counts.antt =====
-- tx.go: how each method changes the numbers of savepoints.
use solo_coder.Common.{
  ℕ, suc, ◌+◌, ◌^◌, ◌≤◌, ◌<◌, ◌≡◌, inl, inr, Bool, true, false, List, [], ◌∷◌, ◌++◌, arith, ltb,
  ◌==◌, if◌then◌else◌, Bool-cases, ap, ◌∙◌,
}
use solo_coder.Common.Int.{pos}
use solo_coder.Pgtype.Integers.{format_int}
use solo_coder.Tx.{
  failed, Reply, returned, tx_closed, Request, Conn, Nested, DbTx, next_int64, savepoint_sql,
  exec_root, finish_begin, begin_root, finish_commit, commit_root, finish_rollback, rollback_root,
  hand_on,
}
use solo_coder.Tx.Simulated.{is_closed, number_at, close_nested, exec_nested, end_nested}

-- The numbers are from 0 on and below m, and each is below the one begun after it.
abbrev pub Below : ℕ → List Nested → Type 0
Below m [] = Unit
Below m (x ∷ xs) = (k : ℕ) × (x.number ≡ pos k) × (k < m) × Below k xs

-- The transaction has counted n savepoints, and the numbers fall from its count on.
abbrev pub IsCounted : {C : Type 0} → ℕ → DbTx C → Type 0
IsCounted n t = (t.savepoint_num ≡ pos n) × Below (suc n) t.nested

-- It has counted at most m.
abbrev pub IsNumbered : {C : Type 0} → ℕ → DbTx C → Type 0
IsNumbered m t = (n : ℕ) × (n ≤ m) × (t.savepoint_num ≡ pos n) × Below (suc n) t.nested

Below-wider : (m n : ℕ) (xs : List Nested) → m ≤ n → Below m xs → Below n xs
Below-wider m n [] h b = tt
Below-wider m n (x ∷ xs) h (k, e, l, b) = (k, e, omega (arith, h, l), b)

close_nested-Below : (m p : ℕ) (xs : List Nested) → Below m xs → Below m (close_nested p xs)
unfolding close_nested
close_nested-Below m p [] b = tt
close_nested-Below m p (x ∷ xs) (k, e, l, b) = elim (Bool-cases (x.address == p)) [
  | inl this ↦ rw this (k, e, l, close_nested-Below k p xs b)
  | inr that ↦ rw that (k, e, l, close_nested-Below k p xs b)
]

next_int64-pos : (n : ℕ) → suc n < 2 ^ 63 → next_int64 (pos n) ≡ pos (suc n)
unfolding next_int64
next_int64-pos n h =
    let less : ltb (n + 1) (2 ^ 63) ≡ true = ground (arith, h) in rw less (ap pos (omega arith))

module _ {C E A R : Type 0} (c : Conn C E A R) where
  -- A method that returns ErrTxClosed, or goes on.
  pub guarded :
      {T : Type 0} (P : DbTx C → Type 0) (b : Bool) (t : DbTx C) (r : Reply E T × DbTx C)
      → P t
      → P r.1
      → P (if b then (failed tx_closed, t) else r).1
  guarded P true t r h k = h
  guarded P false t r h k = k

  pub exec_root-IsCounted :
      (n : ℕ) (s : List ℕ) (args : List A) (t : DbTx C)
      → IsCounted n t
      → IsCounted n (exec_root c s args t).1
  unfolding exec_root
  exec_root-IsCounted n s args t h = guarded (IsCounted n) t.closed t _ h h

  -- Behind Exec the count is above all numbers by one.
  finish_begin-IsCounted :
      (n : ℕ) (reply : Reply E (List ℕ)) (t : DbTx C)
      → t.savepoint_num ≡ pos (suc n)
      → Below (suc n) t.nested
      → IsCounted (suc n) (finish_begin c reply t).1
  unfolding finish_begin
  finish_begin-IsCounted n (failed e) t h b =
      (h, Below-wider (suc n) (suc (suc n)) t.nested (omega arith) b)
  finish_begin-IsCounted n (returned s) t h b = (h, (suc n, h, omega arith, b))

  pub counted_less : (n : ℕ) (t : DbTx C) → IsCounted n t → IsNumbered (suc n) t
  counted_less n t (e, b) = (n, omega arith, e, b)

  pub begin_root-IsNumbered :
      (n : ℕ) (t : DbTx C) → suc n < 2 ^ 63 → IsCounted n t → IsNumbered (suc n) (begin_root c t).1
  unfolding begin_root exec_root
  begin_root-IsNumbered n t small (e, b) = elim (Bool-cases t.closed) [
    | inl ended ↦ rw ended (n, omega arith, e, b)
    | inr going ↦
        let next : next_int64 t.savepoint_num ≡ pos (suc n) =
          ap next_int64 e ∙ next_int64-pos n small in
        let (reply, conn) =
          c.exec (savepoint_sql ++ format_int (next_int64 t.savepoint_num)) [] t.conn in
        let u = record t {
          savepoint_num = next_int64 t.savepoint_num;
          closed = false;
          conn = conn;
        } in
        let (e', b') = finish_begin-IsCounted n reply u next b in
        rw going (suc n, omega arith, e', b')
  ]

  finish_commit-IsCounted :
      (n : ℕ) (reply : Reply E (List ℕ)) (t : DbTx C)
      → IsCounted n t
      → IsCounted n (finish_commit c reply t).1
  unfolding finish_commit
  finish_commit-IsCounted n (returned s) t h = h
  finish_commit-IsCounted n (failed e) t h = elim (Bool-cases (c.is_idle t.conn)) [
    | inl idle ↦ rw idle h
    | inr busy ↦ rw busy h
  ]

  finish_rollback-IsCounted :
      (n : ℕ) (reply : Reply E (List ℕ)) (t : DbTx C)
      → IsCounted n t
      → IsCounted n (finish_rollback c reply t).1
  unfolding finish_rollback
  finish_rollback-IsCounted n (returned s) t h = h
  finish_rollback-IsCounted n (failed e) t h = h

  pub commit_root-IsCounted : (n : ℕ) (t : DbTx C) → IsCounted n t → IsCounted n (commit_root c t).1
  unfolding commit_root exec_root
  commit_root-IsCounted n t h = elim (Bool-cases t.closed) [
    | inl ended ↦ rw ended h
    | inr going ↦ rw going (finish_commit-IsCounted n _ _ h)
  ]

  pub rollback_root-IsCounted :
      (n : ℕ) (t : DbTx C) → IsCounted n t → IsCounted n (rollback_root c t).1
  unfolding rollback_root exec_root
  rollback_root-IsCounted n t h = elim (Bool-cases t.closed) [
    | inl ended ↦ rw ended h
    | inr going ↦ rw going (finish_rollback-IsCounted n _ _ h)
  ]

  pub end_nested-IsCounted :
      (n : ℕ) (s : List ℕ) (p : ℕ) (t : DbTx C) → IsCounted n t → IsCounted n (end_nested c s p t).1
  unfolding end_nested exec_nested
  end_nested-IsCounted n s p t h = elim (Bool-cases (is_closed p t.nested)) [
    | inl ended ↦ rw ended h
    | inr going ↦
        let sql = s ++ format_int (number_at p t.nested) in
        let (e, b) = exec_root-IsCounted n sql [] t h in
        rw going (e, close_nested-Below (suc n) p (exec_root c sql [] t).1.nested b)
  ]

  pub hand_on-IsNumbered :
      (n : ℕ) (b : Bool) (q : Request A) (t : DbTx C)
      → IsCounted n t
      → IsNumbered (suc n) (if b then (failed tx_closed, t) else hand_on c q t).1
  unfolding hand_on
  hand_on-IsNumbered n b q t v =
      guarded (IsNumbered (suc n)) b t (hand_on c q t) (counted_less n t v) (counted_less n t v)
