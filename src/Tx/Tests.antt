-- ===== src/Tx/Tests.antt =====
-- tx.go on a connection that logs what is sent.
use solo_coder.Common.{
  ℕ, ◌≡◌, ◌-◌, ◌^◌, refl, Bool, true, false, some, List, [], ◌∷◌, arith, length,
}
use solo_coder.Common.Int.{pos, negsuc}
use solo_coder.Tx.{
  tx_commit_rollback, returned, Conn, DbTx, next_int64, same_bytes, exec_root, finish_commit,
  commit_root,
}
use solo_coder.Tx.Simulated.{Handle, real, simulated}
use solo_coder.Tx.Func.{Ending, panics, begin_func_exec}
use solo_coder.Tx.Func.Laws.{IsEnded, Finished, begin_func_exec-Finished}
use solo_coder.Tx.Laws.{Call, begin_call, rollback_call, query_call, perform}
use solo_coder.Tx.Counts.{IsNumbered}
use solo_coder.Tx.Savepoints.{run_calls, run_calls-IsNumbered}
use solo_coder.Tx.{start_tx}

-- The log is the connection, and ROLLBACK is the tag of every reply.
abbrev logged : Conn (List (List ℕ)) ℕ ℕ ℕ
logged = record {
  exec = λ s args log.
      (returned (b'R' ∷ b'O' ∷ b'L' ∷ b'L' ∷ b'B' ∷ b'A' ∷ b'C' ∷ b'K' ∷ []), s ∷ log);
  request = λ q log. (returned 0, [] ∷ log);
  is_idle = λ log. true;
  close = λ log. log;
  die = λ log. log;
}

abbrev nothing_sent : List (List ℕ)
nothing_sent = []

-- One savepoint was begun, and is open.
abbrev transaction : Bool → DbTx (List (List ℕ))
transaction ended = record {
  conn = [];
  savepoint_num = pos 1;
  closed = ended;
  commit_query = [];
  nested = record { address = 0; number = pos 1; nested_closed = false } ∷ [];
}

-- Two savepoints, the second in the first, which is rolled back.
abbrev calls : List (Handle × Call ℕ)
calls = (real, begin_call) ∷ (simulated 0, begin_call) ∷ (simulated 0, rollback_call) ∷ []

run_calls-IsNumbered_example :
    IsNumbered (length calls) (run_calls logged calls (start_tx nothing_sent []))
run_calls-IsNumbered_example = run_calls-IsNumbered logged nothing_sent [] calls (omega arith)

-- A function that sends a query and panics.
abbrev panicking : Handle → DbTx (List (List ℕ)) → Ending ℕ × DbTx (List (List ℕ))
panicking h t = (panics, (perform logged h (query_call (b'q' ∷ []) []) t).1)

begin_func_exec-Finished_example :
    IsEnded logged
      (simulated 0)
      (begin_func_exec logged (simulated 0) panicking (transaction false)).1
    × Finished logged
        (simulated 0)
        (panicking (simulated 0) (transaction false)).0
        (panicking (simulated 0) (transaction false)).1
        (begin_func_exec logged (simulated 0) panicking (transaction false))
begin_func_exec-Finished_example =
    begin_func_exec-Finished logged (simulated 0) panicking (transaction false)

-- A commit whose tag is ROLLBACK is an error.
commit_runs : (commit_root logged (transaction false)).0 ≡ some tx_commit_rollback
unfolding commit_root exec_root finish_commit same_bytes
commit_runs = refl

-- The count of savepoints wraps round.
next_int64_wraps : next_int64 (pos (2 ^ 63 - 1)) ≡ negsuc (2 ^ 63 - 1)
unfolding next_int64
next_int64_wraps = refl
