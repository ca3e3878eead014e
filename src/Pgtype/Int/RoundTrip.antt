-- ===== src/Pgtype/Int/RoundTrip.antt =====
-- pgtype/int.go: what a codec encodes, and what its plans scan.
use solo_coder.Pgio.{
  uint32_of, append_uint32, append_int32, uint16_of, append_uint16, append_int16, append_uint64,
}
use solo_coder.Pgtype.Integers.Laws.{
  append_int64-be64, big_endian-be64, big_endian-be32, convert-IsInt, to_unsigned_lt,
  big_endian-be16, be64, IsInt,
}
use solo_coder.Pgio.Laws.{be32, be16}
use solo_coder.Pgtype.Int.Int2
use solo_coder.Pgtype.Int.Int4
use solo_coder.Pgtype.Int.Int8
use solo_coder.Common.{arith, none, refl, [], ap, ℕ, ◌<◌, ◌≡◌, ◌∙◌, Option, some, List, length, All}
use solo_coder.Pgtype.Int.{
  encode_go_int, byte_size, read_int, store_signed, scan_to_signed, store_unsigned,
  scan_to_unsigned, store_int, scan_to_int, store_uint, scan_to_uint,
}
use solo_coder.Common.Int.{ℤ, pos, negsuc}
use solo_coder.Pgtype.Int.Stores.{
  IsGoInt, bounded, store_signed-bounded, store_unsigned-bounded, store_int-bounded,
  store_uint-bounded, read_int-IsInt, scan_checked-read,
}
use solo_coder.Pgtype.Integers.{to_signed, to_unsigned, Width, w8, w16, w32, w64}
use solo_coder.Pgtype.Plan.{
  given, refused, go_int, Answer, plan_not_found, Format, binary_format, Target, signed, unsigned,
  int, uint, int64_scanner, text_scanner, other_target, ScanPlan, Value, EncodePlan, codec_scan,
}

-- The codecs of the three sizes.
pub data IntCodec : Type 0 where
  int2 int4 int8 : IntCodec

abbrev pub width : IntCodec → Width
width int2 = w16
width int4 = w32
width int8 = w64

abbrev pub plan_encode : IntCodec → Format → Value → Option EncodePlan
plan_encode int2 = Int2.plan_encode
plan_encode int4 = Int4.plan_encode
plan_encode int8 = Int8.plan_encode

abbrev pub plan_scan : IntCodec → Format → Target → Option ScanPlan
plan_scan int2 = Int2.plan_scan
plan_scan int4 = Int4.plan_scan
plan_scan int8 = Int8.plan_scan

module _ (w : Width) (s : List ℕ) (e : length s ≡ byte_size w) (h : All (λ b. b < 256) s) where
  scan_to_signed-bounded :
      (d : Width) → scan_to_signed w d (some s) (signed d) ≡ bounded (signed d) (read_int w s)
  unfolding scan_to_signed
  scan_to_signed-bounded d =
      scan_checked-read w (signed d) (store_signed w d) s e
      ∙ store_signed-bounded w d (read_int w s) (read_int-IsInt w s e h)

  scan_to_unsigned-bounded :
      (d : Width) → scan_to_unsigned w d (some s) (unsigned d) ≡ bounded (unsigned d) (read_int w s)
  unfolding scan_to_unsigned
  scan_to_unsigned-bounded d =
      scan_checked-read w (unsigned d) (store_unsigned w d) s e
      ∙ store_unsigned-bounded w d (read_int w s) (read_int-IsInt w s e h)

  scan_to_int-bounded : scan_to_int w (some s) int ≡ bounded int (read_int w s)
  unfolding scan_to_int
  scan_to_int-bounded =
      scan_checked-read w int (store_int w) s e
      ∙ store_int-bounded w (read_int w s) (read_int-IsInt w s e h)

  scan_to_uint-bounded : scan_to_uint w (some s) uint ≡ bounded uint (read_int w s)
  unfolding scan_to_uint
  scan_to_uint-bounded =
      scan_checked-read w uint (store_uint w) s e
      ∙ store_uint-bounded w (read_int w s) (read_int-IsInt w s e h)

-- For each of the three codecs, every target that is one of Go's integers and every bytes of the
-- codec's size, the binary plan stores the integer that the bytes are in two's complement where the
-- target holds it, and refuses it as too small or too large elsewhere: no conversion changes a
-- value, the plans without a range test included.
pub scan_binary-bounded :
    (c : IntCodec) (t : Target) (s : List ℕ)
    → IsGoInt t
    → length s ≡ byte_size (width c)
    → All (λ b. b < 256) s
    → codec_scan (plan_scan c binary_format t) (some s) t ≡ bounded t (read_int (width c) s)
unfolding codec_scan Int2.plan_scan Int4.plan_scan Int8.plan_scan
scan_binary-bounded int2 (signed w8) s go e h = scan_to_signed-bounded w16 s e h w8
scan_binary-bounded int2 (signed w16) s go e h = scan_to_signed-bounded w16 s e h w16
scan_binary-bounded int2 (signed w32) s go e h = scan_to_signed-bounded w16 s e h w32
scan_binary-bounded int2 (signed w64) s go e h = scan_to_signed-bounded w16 s e h w64
scan_binary-bounded int2 (unsigned w8) s go e h = scan_to_unsigned-bounded w16 s e h w8
scan_binary-bounded int2 (unsigned w16) s go e h = scan_to_unsigned-bounded w16 s e h w16
scan_binary-bounded int2 (unsigned w32) s go e h = scan_to_unsigned-bounded w16 s e h w32
scan_binary-bounded int2 (unsigned w64) s go e h = scan_to_unsigned-bounded w16 s e h w64
scan_binary-bounded int2 int s go e h = scan_to_int-bounded w16 s e h
scan_binary-bounded int2 uint s go e h = scan_to_uint-bounded w16 s e h
scan_binary-bounded int2 int64_scanner s go e h = absurd go
scan_binary-bounded int2 text_scanner s go e h = absurd go
scan_binary-bounded int2 other_target s go e h = absurd go
scan_binary-bounded int4 (signed w8) s go e h = scan_to_signed-bounded w32 s e h w8
scan_binary-bounded int4 (signed w16) s go e h = scan_to_signed-bounded w32 s e h w16
scan_binary-bounded int4 (signed w32) s go e h = scan_to_signed-bounded w32 s e h w32
scan_binary-bounded int4 (signed w64) s go e h = scan_to_signed-bounded w32 s e h w64
scan_binary-bounded int4 (unsigned w8) s go e h = scan_to_unsigned-bounded w32 s e h w8
scan_binary-bounded int4 (unsigned w16) s go e h = scan_to_unsigned-bounded w32 s e h w16
scan_binary-bounded int4 (unsigned w32) s go e h = scan_to_unsigned-bounded w32 s e h w32
scan_binary-bounded int4 (unsigned w64) s go e h = scan_to_unsigned-bounded w32 s e h w64
scan_binary-bounded int4 int s go e h = scan_to_int-bounded w32 s e h
scan_binary-bounded int4 uint s go e h = scan_to_uint-bounded w32 s e h
scan_binary-bounded int4 int64_scanner s go e h = absurd go
scan_binary-bounded int4 text_scanner s go e h = absurd go
scan_binary-bounded int4 other_target s go e h = absurd go
scan_binary-bounded int8 (signed w8) s go e h = scan_to_signed-bounded w64 s e h w8
scan_binary-bounded int8 (signed w16) s go e h = scan_to_signed-bounded w64 s e h w16
scan_binary-bounded int8 (signed w32) s go e h = scan_to_signed-bounded w64 s e h w32
scan_binary-bounded int8 (signed w64) s go e h = scan_to_signed-bounded w64 s e h w64
scan_binary-bounded int8 (unsigned w8) s go e h = scan_to_unsigned-bounded w64 s e h w8
scan_binary-bounded int8 (unsigned w16) s go e h = scan_to_unsigned-bounded w64 s e h w16
scan_binary-bounded int8 (unsigned w32) s go e h = scan_to_unsigned-bounded w64 s e h w32
scan_binary-bounded int8 (unsigned w64) s go e h = scan_to_unsigned-bounded w64 s e h w64
scan_binary-bounded int8 int s go e h = scan_to_int-bounded w64 s e h
scan_binary-bounded int8 uint s go e h = scan_to_uint-bounded w64 s e h
scan_binary-bounded int8 int64_scanner s go e h = absurd go
scan_binary-bounded int8 text_scanner s go e h = absurd go
scan_binary-bounded int8 other_target s go e h = absurd go

-- The bytes of an integer.
abbrev pub bytes : IntCodec → ℤ → List ℕ
bytes int2 n = be16 (to_unsigned w16 n)
bytes int4 n = be32 (to_unsigned w32 n)
bytes int8 n = be64 (to_unsigned w64 n)

bytes_of_size :
    (c : IntCodec) (n : ℤ)
    → (length (bytes c n) ≡ byte_size (width c)) × All (λ b. b < 256) (bytes c n)
unfolding be16 be32 be64 append_uint64
bytes_of_size int2 n = (refl, (omega arith, (omega arith, tt)))
bytes_of_size int4 n = (refl, (omega arith, (omega arith, (omega arith, (omega arith, tt)))))
bytes_of_size int8 n = (
  refl,
  (
    omega arith,
    (
      omega arith,
      (omega arith, (omega arith, (omega arith, (omega arith, (omega arith, (omega arith, tt)))))),
    ),
  ),
)

read_int-bytes : (c : IntCodec) (n : ℤ) → IsInt (width c) n → read_int (width c) (bytes c n) ≡ n
read_int-bytes int2 n h =
    ap (to_signed w16) (big_endian-be16 (to_unsigned w16 n) (to_unsigned_lt w16 n))
    ∙ convert-IsInt w16 n h
read_int-bytes int4 n h =
    ap (to_signed w32) (big_endian-be32 (to_unsigned w32 n) (to_unsigned_lt w32 n))
    ∙ convert-IsInt w32 n h
read_int-bytes int8 n h =
    ap (to_signed w64) (big_endian-be64 (to_unsigned w64 n) (to_unsigned_lt w64 n))
    ∙ convert-IsInt w64 n h

-- The plan that was found, on a value and an empty buffer.
abbrev pub encoded : Option EncodePlan → Value → Answer (Option (List ℕ))
encoded none v = refused plan_not_found
encoded (some plan) v = plan v []

encode_binary :
    (c : IntCodec) (n : ℤ)
    → encoded (plan_encode c binary_format (go_int (width c) n)) (go_int (width c) n)
      ≡ given (some (bytes c n))
unfolding Int2.plan_encode Int4.plan_encode Int8.plan_encode encode_go_int append_int16
    append_uint16 uint16_of append_int32 append_uint32 uint32_of be16 be32
encode_binary int2 (pos n) = refl
encode_binary int2 (negsuc n) = refl
encode_binary int4 (pos n) = refl
encode_binary int4 (negsuc n) = refl
encode_binary int8 n = ap (λ s. given (some s)) (append_int64-be64 n)

-- For each codec, every integer of its size and every target that is one of Go's integers: the
-- integer is encoded in binary, and what was encoded is scanned to the same integer where the
-- target holds it, and refused elsewhere.
pub binary_round_trip :
    (c : IntCodec) (t : Target) (n : ℤ)
    → IsGoInt t
    → IsInt (width c) n
    → (s : List ℕ) × (encoded
          (plan_encode c binary_format (go_int (width c) n))
          (go_int (width c) n)
        ≡ given (some s))
      × (codec_scan (plan_scan c binary_format t) (some s) t ≡ bounded t n)
binary_round_trip c t n go h =
    let (size, small) = bytes_of_size c n in
    (
      bytes c n,
      encode_binary c n,
      scan_binary-bounded c t (bytes c n) go size small ∙ ap (bounded t) (read_int-bytes c n h),
    )
