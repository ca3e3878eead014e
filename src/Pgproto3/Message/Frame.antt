-- ===== src/Pgproto3/Message/Frame.antt =====
-- What a message looks like on the wire: a type byte, a length that counts itself, a body.
use solo_coder.Common.{
  ℕ, ◌+◌, ◌≡◌, refl, ◌∙◌, List, [], ◌∷◌, ◌++◌, append_assoc, length, length-append, drop,
  take_append, drop_append, drop_add_append, ltb, if◌then◌else◌,
}
use solo_coder.Common.Int.{pos, negsuc}
use solo_coder.Pgio.{uint32_of, set_int32, append_int32}
use solo_coder.Pgio.Laws.{be32, append_int32-be32, append_uint32-be32, length-be32}
use solo_coder.Pgproto3.Message.{
  Result, ok, err, message, max_message_body_len, begin_message, finish_message,
}

-- The length field and what follows it.
unfoldable pub sized : List ℕ → List ℕ
sized body = be32 (uint32_of (pos (4 + length body))) ++ body

abbrev pub frame : ℕ → List ℕ → List ℕ
frame t body = t ∷ sized body

-- What an encoder owes its caller: the old bytes and a framed body, or a refusal of one that is too
-- long for the length field's limit.
abbrev pub framed : List ℕ → List ℕ → List ℕ → Result (List ℕ)
framed dst head body =
    if ltb max_message_body_len (4 + length body)
    then err (message "message body too large")
    else ok (dst ++ (head ++ sized body))

finish_sized :
    (front body : List ℕ) (junk : ℕ)
    → finish_message (front ++ (be32 junk ++ body)) (length front) ≡ (
        if ltb max_message_body_len (4 + length body)
        then err (message "message body too large")
        else ok (front ++ sized body))
unfolding finish_message set_int32 sized
finish_sized front body junk = rw (
  drop_append front (be32 junk ++ body),
  length-append (be32 junk) body,
  length-be32 junk,
  append_uint32-be32,
  take_append front (be32 junk ++ body),
  append_assoc,
  drop_four,
)
  where
    drop_four : drop (length front + 4) (front ++ (be32 junk ++ body)) ≡ body
    drop_four = drop_add_append front (be32 junk ++ body) 4 ∙ unfold be32 in refl

-- A message of any type byte that `begin_message` began, with any body appended, is finished as
-- the buffer and the frame: the type, the length of the body and of the length itself, and the
-- body; or it is refused where that length is over the limit.
pub finish-begin :
    (dst : List ℕ) (t : ℕ) (body : List ℕ)
    → finish_message ((begin_message dst t).0 ++ body) (begin_message dst t).1
      ≡ framed dst (t ∷ []) body
unfolding begin_message
finish-begin dst t body =
    rw (append_int32-be32, append_assoc)
      (finish_sized (dst ++ (t ∷ [])) body (uint32_of (negsuc 0)) ∙ rw append_assoc)

-- The same for a message with no type byte.
pub finish-begin_untyped :
    (dst body : List ℕ)
    → finish_message (append_int32 dst (negsuc 0) ++ body) (length dst) ≡ framed dst [] body
finish-begin_untyped dst body =
    rw (append_int32-be32, append_assoc) (finish_sized dst body (uint32_of (negsuc 0)))
