-- ===== src/ControlPlaneSecurity/Tests.antt =====
-- Requests to src/api/security.py, with the theorems applied to them.
use i_ja_for_u.Base.{true, Option, none, some, [], ◌∷◌, ◌≡◌, ◌↔◌, refl, eqb_list}
use i_ja_for_u.EventHub.Cursor.{decimal, digits}
use i_ja_for_u.ControlPlaneSecurity.{
  Text, returned, type_error, ◌>>=◌, pure, ControlPlaneSecurity, SplitResult, create, contains,
  contains_code, has_space, partition_at_blank, ends_with_space, or_empty, is_stripped,
  bearer_token, is_ascii, compare_digest, validate_http_authentication, websocket_authenticated,
  parse_authority, render_authority, normalize_origin, validate_request_boundary, http,
}
use i_ja_for_u.ControlPlaneSecurity.Access.{
  failure_of, validate_http_authentication-websocket, Presents, websocket_authenticated_iff,
  bearer_header, bearer_token-bearer_header, Passes, validate_request_boundary-Passes,
}

program : Unit {0}
unfolding create contains contains_code has_space partition_at_blank ends_with_space bearer_token
    is_ascii compare_digest validate_http_authentication websocket_authenticated parse_authority
    render_authority normalize_origin validate_request_boundary eqb_list decimal digits
program = tt

-- The token "ab", the credential "xyz", and the host "me".
abbrev token : Text
token = b'a' ∷ b'b' ∷ []

abbrev host : Text
host = b'm' ∷ b'e' ∷ []

abbrev security : ControlPlaneSecurity
security = record {
  token = token;
  session_credential = b'x' ∷ b'y' ∷ b'z' ∷ [];
  trusted_hosts = host ∷ [];
  trusted_origins = [];
}

abbrev header : Option Text
header = some (bearer_header token)

validate_http_authentication-websocket_example :
    validate_http_authentication header none security
    ≡ (websocket_authenticated header none security >>= λ ok. pure (failure_of ok))
validate_http_authentication-websocket_example =
    validate_http_authentication-websocket header none security

token_ascii : is_ascii token ≡ true
unfolding program
token_ascii = refl

credential_ascii : is_ascii security.session_credential ≡ true
unfolding program
credential_ascii = refl

header_token : bearer_token header ≡ some token
unfolding program
header_token = refl

presented_ascii : is_ascii (or_empty (bearer_token header)) ≡ true
unfolding program
presented_ascii = refl

absent_ascii : is_ascii [] ≡ true
unfolding program
absent_ascii = refl

websocket_authenticated_iff_example :
    (websocket_authenticated header none security ≡ returned true) ↔ Presents header none security
websocket_authenticated_iff_example =
    websocket_authenticated_iff header none security token_ascii credential_ascii presented_ascii
      absent_ascii

stripped : is_stripped token ≡ true
unfolding program
stripped = refl

bearer_token-bearer_header_example : bearer_token (some (bearer_header token)) ≡ some token
bearer_token-bearer_header_example = bearer_token-bearer_header token refl stripped

-- A token that is not ASCII makes the comparison raise.
not_ascii : websocket_authenticated (some (bearer_header (0xE9 ∷ []))) none security ≡ type_error
unfolding program
not_ascii = refl

abbrev split : Text → Option SplitResult
split t = some (record {
  scheme = http;
  username = [];
  password = [];
  hostname = some host;
  port = some none;
  path = [];
  query = [];
  fragment = [];
})

abbrev same : Text → Text
same t = t

passed : validate_request_boundary split same security (some host) (some host) http ≡ returned none
unfolding program
passed = refl

validate_request_boundary-Passes_example : Passes split same security (some host) (some host) http
validate_request_boundary-Passes_example =
    validate_request_boundary-Passes split same security (some host) (some host) http passed
