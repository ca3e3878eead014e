-- ===== src/Pgproto3/Source.antt =====
-- What `Frontend.Receive` and `Backend.Receive` need of the chunkReader that they read from.
use solo_coder.Common.{ℕ, ◌≤◌, ◌<◌, ◌≡◌, List, ◌++◌, length, take, drop}
use solo_coder.Pgproto3.Message.{Error, Result, ok, err}

pub record Source : Type 1 where
  pub State : Type 0
  -- `Next(n)`.
  pub next : ℕ → State → Result (List ℕ) × State
  -- The bytes that can be had before the connection fails or ends.
  pub available : State → List ℕ
  -- Where n bytes can be had, `Next` gives the first n, and the others stay.
  pub next_enough :
      (n : ℕ) (s : State)
      → n ≤ length (available s)
      → (s' : State) × (next n s ≡ (ok (take n (available s)), s'))
        × (available s' ≡ drop n (available s))
  -- Where fewer can be had, `Next` fails, and no byte is lost.
  pub next_short :
      (n : ℕ) (s : State)
      → length (available s) < n
      → (e : Error) × (s' : State) × (more : List ℕ) × (next n s ≡ (err e, s'))
        × (available s' ≡ available s ++ more)
