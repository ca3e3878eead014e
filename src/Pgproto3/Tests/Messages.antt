-- ===== src/Pgproto3/Tests/Messages.antt =====
-- The messages' round trips at concrete messages.
use solo_coder.Pgproto3.Bind
use solo_coder.Pgproto3.FunctionCall
use solo_coder.Pgproto3.Parse
use solo_coder.Pgproto3.RowDescription
use solo_coder.Pgproto3.DataRow
use solo_coder.Pgproto3.ErrorResponse
use solo_coder.Pgproto3.Startup.StartupMessage
use solo_coder.Pgproto3.FrontendMessage
use solo_coder.Pgproto3.BackendMessage
use solo_coder.Common.{ℕ, ◌≡◌, refl, inl, Option, none, some, List, [], ◌∷◌, arith}
use solo_coder.Common.Int.{pos, negsuc}
use solo_coder.Pgproto3.Authentication.{auth_type_gss}
use solo_coder.Pgproto3.Authentication.Sasl.{Sasl}
use solo_coder.Pgproto3.BackendMessage.{BackendMessage, error_response, decode_message}
use solo_coder.Pgproto3.BackendMessage.RoundTrip.{backend_message_round_trip}
use solo_coder.Pgproto3.Bind.{Bind}
use solo_coder.Pgproto3.DataRow.{DataRow}
use solo_coder.Pgproto3.Decimal.{itoa, parse_int32}
use solo_coder.Pgproto3.Decimal.Laws.{parse_int32-itoa}
use solo_coder.Pgproto3.ErrorResponse.{ErrorResponse, no_fields}
use solo_coder.Pgproto3.ErrorResponse.Fields.{known}
use solo_coder.Pgproto3.FrontendMessage.{FrontendMessage, bind, query, decoder}
use solo_coder.Pgproto3.FrontendMessage.Wire.{frontend_message_round_trip}
use solo_coder.Pgproto3.FunctionCall.{FunctionCall}
use solo_coder.Pgproto3.Message.{Result, ok}
use solo_coder.Pgproto3.Message.Frame.{framed}
use solo_coder.Pgproto3.Parse.{Parse}
use solo_coder.Pgproto3.RowDescription.{RowDescription}
use solo_coder.Pgproto3.Startup.{protocol_version_30}
use solo_coder.Pgproto3.Startup.StartupMessage.{StartupMessage}

abbrev portal : List ℕ
portal = b'p' ∷ b'1' ∷ []

abbrev two_values : List (Option (List ℕ))
two_values = some (b'4' ∷ b'2' ∷ []) ∷ none ∷ []

abbrev a_bind : Bind
a_bind = record {
  destination_portal = portal;
  prepared_statement = b's' ∷ [];
  parameter_format_codes = pos 1 ∷ negsuc 0 ∷ [];
  parameters = two_values;
  result_format_codes = pos 0 ∷ [];
}

a_bind-IsValid : Bind.Wire.IsValid a_bind
a_bind-IsValid = record {
  portal = (omega arith, (omega arith, tt));
  statement = (omega arith, tt);
  few_codes = omega arith;
  codes = (omega arith, (omega arith, tt));
  few_parameters = omega arith;
  parameters = (omega arith, (tt, tt));
  few_results = omega arith;
  results = (omega arith, tt);
}

abbrev a_parse : Parse
a_parse = record { name = b's' ∷ []; query = b'x' ∷ b'y' ∷ []; parameter_oids = 23 ∷ 25 ∷ [] }

a_parse-IsValid : Parse.IsValid a_parse
a_parse-IsValid = record {
  name = (omega arith, tt);
  query = (omega arith, (omega arith, tt));
  few = omega arith;
  oids = (omega arith, (omega arith, tt));
}

abbrev a_call : FunctionCall
a_call = record {
  function = 4294967295;
  arg_format_codes = 0 ∷ 1 ∷ [];
  arguments = two_values;
  result_format_code = 1;
}

a_call-IsValid : FunctionCall.IsValid a_call
a_call-IsValid = record {
  function = omega arith;
  few_codes = omega arith;
  codes = (omega arith, (omega arith, tt));
  few_arguments = omega arith;
  arguments = (omega arith, (tt, tt));
  code = omega arith;
}

abbrev a_row : DataRow
a_row = record { values = two_values }

a_row-IsValid : DataRow.IsValid a_row
a_row-IsValid = record { few = omega arith; values = (omega arith, (tt, tt)) }

abbrev a_description : RowDescription
a_description = record {
  fields =
      record {
        name = b'i' ∷ b'd' ∷ [];
        table_oid = 16384;
        table_attribute_number = 1;
        data_type_oid = 23;
        data_type_size = pos 4;
        type_modifier = negsuc 0;
        format = pos 1;
      }
      ∷ [];
}

a_description-IsValid : RowDescription.IsValid a_description
a_description-IsValid = record {
  few = omega arith;
  fields = (
    record {
      name = (omega arith, (omega arith, tt));
      table_oid = omega arith;
      table_attribute_number = omega arith;
      data_type_oid = omega arith;
      data_type_size = omega arith;
      type_modifier = omega arith;
      format = omega arith;
    },
    tt,
  );
}

abbrev an_error : ErrorResponse
an_error = record no_fields {
  severity = b'E' ∷ [];
  code = b'4' ∷ b'2' ∷ [];
  position = pos 15;
  line = negsuc 2;
  unknown_fields = (b'X', b'!' ∷ []) ∷ (b'Y', []) ∷ [];
}

an_error-IsValid : ErrorResponse.Fields.IsValid an_error
unfolding known
an_error-IsValid = record {
  severity = (omega arith, tt);
  severity_unlocalized = tt;
  code = (omega arith, (omega arith, tt));
  message_text = tt;
  detail = tt;
  hint = tt;
  position = omega arith;
  internal_position = omega arith;
  internal_query = tt;
  where_text = tt;
  schema_name = tt;
  table_name = tt;
  column_name = tt;
  data_type_name = tt;
  constraint_name = tt;
  file = tt;
  line = omega arith;
  routine = tt;
  unknown = ((refl, omega arith, (omega arith, tt)), ((refl, omega arith, tt), tt));
  distinct = ((refl, tt), (tt, tt));
}

abbrev two_mechanisms : Sasl
two_mechanisms = record { auth_mechanisms = (b'S' ∷ b'+' ∷ []) ∷ (b'S' ∷ []) ∷ [] }

abbrev a_startup : StartupMessage
a_startup = record {
  protocol_version = protocol_version_30;
  parameters = (b'u' ∷ [], b'j' ∷ b'o' ∷ []) ∷ (b'd' ∷ [], []) ∷ [];
}

a_startup-IsValid : StartupMessage.Wire.IsValid a_startup
unfolding StartupMessage.bytes_eq
a_startup-IsValid = record {
  version = inl refl;
  some_parameter = omega arith;
  parameters =
      (((omega arith, tt), (omega arith, (omega arith, tt))), (((omega arith, tt), tt), tt));
  distinct = ((refl, tt), (tt, tt));
}

parse_int32-itoa_example : parse_int32 (itoa (negsuc 2147483647)) ≡ negsuc 2147483647
parse_int32-itoa_example = parse_int32-itoa (negsuc 2147483647) (omega arith)

frontend_message_round_trip_example :
    (FrontendMessage.encode [] (bind a_bind)
      ≡ framed []
          (FrontendMessage.Wire.type_of (bind a_bind) ∷ [])
          (FrontendMessage.Wire.body_of (bind a_bind)))
    × ((decode : List ℕ → Result FrontendMessage) × (decoder auth_type_gss
            (FrontendMessage.Wire.type_of (bind a_bind))
          ≡ some decode)
        × (decode (FrontendMessage.Wire.body_of (bind a_bind)) ≡ ok (bind a_bind)))
frontend_message_round_trip_example =
    FrontendMessage.Wire.frontend_message_round_trip [] auth_type_gss (bind a_bind) tt
      a_bind-IsValid

backend_message_round_trip_example :
    (BackendMessage.encode portal (error_response an_error)
      ≡ framed portal
          (BackendMessage.Wire.type_of (error_response an_error) ∷ [])
          (BackendMessage.Wire.body_of (error_response an_error)))
    × (decode_message
          (BackendMessage.Wire.type_of (error_response an_error))
          (BackendMessage.Wire.body_of (error_response an_error))
        ≡ ok (error_response an_error))
backend_message_round_trip_example =
    BackendMessage.RoundTrip.backend_message_round_trip portal (error_response an_error)
      an_error-IsValid
