-- ===== src/Pgtype/Tests.antt =====
-- pgtype/int.go on concrete integers.

use solo_coder.Pgtype.Int.Valuer.{encode_valuer-narrow}
use solo_coder.Pgtype.Int.Int4
use solo_coder.Common.{ℕ, ◌≡◌, refl, ◌⊎◌, true, false, none, some, List, [], ◌∷◌, arith}
use solo_coder.Common.Int.{pos, negsuc}
use solo_coder.Pgio.{append_int16}
use solo_coder.Pgtype.Int.{
  read_int, scan_checked, store_signed, scan_to_signed, narrow_nullable, sql_int, sql_text,
  sql_bytes, scan_sql, sql_value, marshal_json, encode_valuer,
}
use solo_coder.Pgtype.Int.RoundTrip.{
  plan_encode, plan_scan, int2, int4, int8, scan_binary-bounded, encoded, binary_round_trip,
}
use solo_coder.Pgtype.Int.Sql.{scan_sql-value}
use solo_coder.Pgtype.Int.Stores.{bounded}
use solo_coder.Pgtype.Int.TextRoundTrip.{text_bounded, text_round_trip}
use solo_coder.Pgtype.Integers.{w8, w16, w32, w64, big_endian}
use solo_coder.Pgtype.Integers.Laws.{IsInt}
use solo_coder.Pgtype.Plan.{
  text_format, binary_format, signed, unsigned, Nullable, null_number, valid_number, CodecError,
  less_than_minimum, refused, given, go_int, valuer, codec_scan,
}

-- -70000 as an int4.
abbrev minus_70000 : List ℕ
minus_70000 = 0xFF ∷ 0xFE ∷ 0xEE ∷ 0x90 ∷ []

scan_binary-bounded_example :
    codec_scan (plan_scan int4 binary_format (signed w16)) (some minus_70000) (signed w16)
    ≡ bounded (signed w16) (read_int w32 minus_70000)
scan_binary-bounded_example =
    scan_binary-bounded int4 (signed w16) minus_70000 tt refl
      (omega arith, (omega arith, (omega arith, (omega arith, tt))))

binary_round_trip_example :
    (s : List ℕ) × (encoded
        (plan_encode int8 binary_format (go_int w64 (negsuc 69999)))
        (go_int w64 (negsuc 69999))
      ≡ given (some s))
    × (codec_scan (plan_scan int8 binary_format (signed w32)) (some s) (signed w32)
        ≡ bounded (signed w32) (negsuc 69999))
binary_round_trip_example = binary_round_trip int8 (signed w32) (negsuc 69999) tt (omega arith)

text_round_trip_example :
    (s : List ℕ) × (encoded
        (plan_encode int2 text_format (go_int w16 (pos 300)))
        (go_int w16 (pos 300))
      ≡ given (some s))
    × (codec_scan (plan_scan int2 text_format (unsigned w8)) (some s) (unsigned w8)
        ≡ text_bounded (unsigned w8) (pos 300))
text_round_trip_example = text_round_trip int2 (unsigned w8) (pos 300) tt (omega arith)

abbrev large : Nullable
large = valid_number (pos 32768)

encode_valuer-narrow_example :
    ((large.valid ≡ false)
      × (encode_valuer w16 append_int16 (valuer (given large)) [] ≡ given none)
      × (narrow_nullable w16 large ≡ given null_number))
    ⊎ ((large.valid ≡ true)
        × IsInt w16 large.number
        × (encode_valuer w16 append_int16 (valuer (given large)) []
            ≡ given (some (append_int16 [] large.number)))
        × (narrow_nullable w16 large ≡ given (valid_number large.number)))
    ⊎ ((large.valid ≡ true)
        × (¬ IsInt w16 large.number)
        × ((e : CodecError) × (encode_valuer w16 append_int16 (valuer (given large)) [] ≡ refused e)
            × (narrow_nullable w16 large ≡ refused e)))
encode_valuer-narrow_example = encode_valuer-narrow w16 append_int16 large []

scan_sql-value_example :
    (sql_value (valid_number (negsuc 32767)) ≡ some (negsuc 32767))
    × (scan_sql w16 (sql_int (negsuc 32767)) ≡ given (valid_number (negsuc 32767)))
    × (scan_sql w16 (sql_text (marshal_json (valid_number (negsuc 32767))))
        ≡ given (valid_number (negsuc 32767)))
    × (scan_sql w16 (sql_bytes (marshal_json (valid_number (negsuc 32767))))
        ≡ given (valid_number (negsuc 32767)))
scan_sql-value_example = scan_sql-value w16 (negsuc 32767) (omega arith)

-- A value that the target does not hold, and one that it does.
scan_runs :
    codec_scan (plan_scan int4 binary_format (signed w16)) (some minus_70000) (signed w16)
    ≡ refused (less_than_minimum (negsuc 69999))
unfolding codec_scan Int4.plan_scan scan_to_signed scan_checked store_signed big_endian
scan_runs = refl
