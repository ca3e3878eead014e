-- ===== src/Pgproto3/Tests/Sources.antt =====
-- Concrete readers, pools and writers on which the theorems are tried.
use solo_coder.Pgproto3.Source.{Source}
use solo_coder.Iobufpool.Classes.{zeros}
use solo_coder.Iobufpool.Classes.Laws.{length-zeros}
use solo_coder.Common.{
  ◌<◌, ℕ, suc, ◌-◌, ◌≡◌, refl, sym, true, false, none, List, [], ◌++◌, append-nil, arith, leb,
  if◌then◌else◌, le→leb, length, take, drop,
}
use solo_coder.Iobufpool.{BufferPool}
use solo_coder.Pgproto3.Endpoint.{Endpoint}
use solo_coder.Pgproto3.Endpoint.Send.{Writer}
use solo_coder.Pgproto3.Message.{unexpected_eof, Result, ok, err}

abbrev pub next_list : ℕ → List ℕ → Result (List ℕ) × List ℕ
next_list n s = if leb n (length s) then (ok (take n s), drop n s) else (err unexpected_eof, s)

pub lt→leb : (a b : ℕ) → b < a → leb a b ≡ false
lt→leb a b h = ground arith

-- A reader whose bytes are all there.
abbrev pub list_source : Source
list_source = record {
  State = List ℕ;
  next = next_list;
  available = λ s. s;
  next_enough =
      λ n s h. let e : leb n (length s) ≡ true = le→leb n (length s) h in (drop n s, rw e, refl);
  next_short = λ n s h.
      let e : leb n (length s) ≡ false = lt→leb n (length s) h in
      (unexpected_eof, s, [], rw e, sym (append-nil s));
}

-- A Frontend or a Backend with no limit, at the start of a message.
abbrev pub fresh_endpoint : {S : Type 0} → S → Endpoint S
fresh_endpoint s = record {
  reader = s;
  wbuf = [];
  encode_error = none;
  body_len = 0;
  max_body_len = 0;
  msg_type = 0;
  partial_msg = false;
  auth_type = 0;
}

-- A pool that keeps nothing but the number of its buffers in use.
abbrev pub counting_pool : BufferPool
counting_pool = record {
  State = ℕ;
  get = λ size s. (zeros size, suc s);
  put = λ buf s. s - 1;
  length-get = λ size s. length-zeros size;
}

-- A writer that takes all it is given.
abbrev pub list_writer : Writer
list_writer = record { State = List ℕ; write = λ p w. (length p, none, w ++ p) }
