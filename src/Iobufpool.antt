-- ===== src/Iobufpool.antt =====
-- internal/iobufpool/iobufpool.go as its callers see it: a pool whose `Get` gives a buffer of the
-- length that is asked for, with unknown bytes in it.
pub mod Classes
mod Tests
use solo_coder.Common.{ℕ, ◌≡◌, List, length}

pub record BufferPool : Type 1 where
  pub State : Type 0
  -- `Get(size)`.
  pub get : ℕ → State → List ℕ × State
  -- `Put(buf)`.
  pub put : List ℕ → State → State
  pub length-get : (size : ℕ) (s : State) → length (get size s).0 ≡ size
