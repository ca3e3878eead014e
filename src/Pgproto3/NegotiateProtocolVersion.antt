-- ===== src/Pgproto3/NegotiateProtocolVersion.antt =====
-- pgproto3/negotiate_protocol_version.go. The bound on the capacity of the new slice leaves no
-- trace in the value.
use mathlib.Core.List.{foldl}
use solo_coder.Common.{
  ℕ, ◌%◌, ◌^◌, ◌≡◌, true, List, [], ◌∷◌, ◌++◌, append_assoc, arith, leb, length, All,
}
use solo_coder.Pgio.{append_uint32}
use solo_coder.Pgio.Laws.{be32, append_uint32-be32}
use solo_coder.Pgproto3.Message.{
  ◌>>=◌, ◌>>◌, guard, begin_message, finish_message, Error, Result, invalid_message_len,
  invalid_message_format, ok,
}
use solo_coder.Pgproto3.Message.Frame.{framed, finish-begin}
use solo_coder.Pgproto3.Read.{read_uint32, read_cstring, read_many}
use solo_coder.Pgproto3.Read.Laws.{
  NoNul, read_uint32-be32, cstring_bytes, read_cstring-bytes, flat, foldl-flat, read_many-flat_end,
  IsUint32,
}

pub record NegotiateProtocolVersion : Type 0 where
  pub newest_minor_protocol : ℕ
  pub unrecognized_options : List (List ℕ)

abbrev bad : Error
bad = invalid_message_format "NegotiateProtocolVersion" ""

unfoldable pub decode : List ℕ → Result NegotiateProtocolVersion
decode src = do
  let short = invalid_message_len "NegotiateProtocolVersion" 8 (length src)
  guard (leb 8 (length src)) short
  (newest_minor_protocol, r) ← read_uint32 short src
  (option_count, r) ← read_uint32 short r
  (unrecognized_options, r) ← read_many (read_cstring bad) option_count r
  ok (record {
    newest_minor_protocol = newest_minor_protocol;
    unrecognized_options = unrecognized_options;
  })

-- One round of the loop of `encode`.
unfoldable pub append_option : List ℕ → List ℕ → List ℕ
append_option dst option = let dst = dst ++ option in dst ++ (0 ∷ [])

unfoldable pub encode : List ℕ → NegotiateProtocolVersion → Result (List ℕ)
encode dst src =
    let (dst, sp) = begin_message dst b'v' in
    let dst = append_uint32 dst src.newest_minor_protocol in
    let dst = append_uint32 dst (length src.unrecognized_options % 2 ^ 32) in
    let dst = foldl append_option dst src.unrecognized_options in finish_message dst sp

pub record IsValid (m : NegotiateProtocolVersion) : Type 0 where
  pub newest : IsUint32 m.newest_minor_protocol
  pub few : IsUint32 (length m.unrecognized_options)
  pub options : All NoNul m.unrecognized_options

unfoldable pub body : NegotiateProtocolVersion → List ℕ
body m =
    be32 m.newest_minor_protocol
    ++ (be32 (length m.unrecognized_options % 2 ^ 32) ++ flat cstring_bytes m.unrecognized_options)

append_option-bytes : (dst option : List ℕ) → append_option dst option ≡ dst ++ cstring_bytes option
unfolding append_option cstring_bytes
append_option-bytes dst option = append_assoc dst option (0 ∷ [])

pub encode-framed :
    (dst : List ℕ) (m : NegotiateProtocolVersion) → encode dst m ≡ framed dst (b'v' ∷ []) (body m)
unfolding encode body
encode-framed dst m =
    simp (append_uint32-be32, foldl-flat _ cstring_bytes append_option-bytes, append_assoc)
      (finish-begin dst b'v' (body m))

pub decode-body : (m : NegotiateProtocolVersion) → IsValid m → decode (body m) ≡ ok m
unfolding decode
decode-body m v =
    let same : length m.unrecognized_options % 2 ^ 32 ≡ length m.unrecognized_options =
      omega arith in
    rw (long_body m) (
      unfold body in
      rw (
        read_uint32-be32 _ m.newest_minor_protocol _ v.newest,
        same,
        read_uint32-be32 _ (length m.unrecognized_options) _ v.few,
        read_many-flat_end (read_cstring bad) cstring_bytes NoNul (read_cstring-bytes bad)
            m.unrecognized_options v.options,
      ))
  where
    long_body : (m : NegotiateProtocolVersion) → leb 8 (length (body m)) ≡ true
    long_body m = unfold body be32 in ground arith
