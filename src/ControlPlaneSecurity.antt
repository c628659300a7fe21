-- ===== src/ControlPlaneSecurity.antt =====
-- src/api/security.py: who may talk to the control plane. A text is the list of its code points,
-- and the headers and cookies are functions from the names that are read. `urlsplit` is a
-- parameter; the random credential of a process without a stored one is an argument.
pub mod Access
mod Tests
use i_ja_for_u.Base.{
  ℕ, ◌+◌, Bool, true, false, not, ◌&&◌, ◌||◌, Option, none, some, List, [], ◌∷◌, ◌++◌, map, leb,
  ltb, ◌==◌, if◌then◌else◌, eqb_list, is_some, String,
}
use i_ja_for_u.EventHub.Cursor.{decimal}

abbrev pub Text : Type 0
Text = List ℕ

pub record ControlAccessFailure : Type 0 where
  pub status_code : ℕ
  pub websocket_code : ℕ
  pub code : String

-- What a call does: it returns a value, or raises a `ValueError` or a `TypeError`.
pub data Outcome {ℓ} (A : Type ℓ) : Type ℓ where
  returned : A → Outcome A
  value_error type_error : Outcome A

module _ {ℓ κ} {A : Type ℓ} {B : Type κ} where
  infixl 10 ◌>>=◌
  abbrev pub ◌>>=◌ : Outcome A → (A → Outcome B) → Outcome B
  returned a >>= f = f a
  value_error >>= f = value_error
  type_error >>= f = type_error

abbrev pub pure {ℓ} : {A : Type ℓ} → A → Outcome A
pure a = returned a

-- The part of `ServerSettings` that is read.
pub record ServerSettings : Type 0 where
  pub control_token : Text
  pub session_credential : Text
  pub trusted_hosts : List Text
  pub trusted_origins : List Text

pub record ControlPlaneSecurity : Type 0 where
  pub token : Text
  pub session_credential : Text
  pub trusted_hosts : List Text
  pub trusted_origins : List Text

-- What `urlsplit` finds; `port` is `none` where reading it raises a `ValueError`. An absent user or
-- password is read like an empty one.
pub record SplitResult : Type 0 where
  pub scheme : Text
  pub username : Text
  pub password : Text
  pub hostname : Option Text
  pub port : Option (Option ℕ)
  pub path : Text
  pub query : Text
  pub fragment : Text

abbrev pub is_empty : Text → Bool
is_empty [] = true
is_empty (c ∷ cs) = false

abbrev pub or_empty : Option Text → Text
or_empty none = []
or_empty (some t) = t

unfoldable pub contains : Text → List Text → Bool
contains t [] = false
contains t (x ∷ xs) = eqb_list x t || contains t xs

unfoldable pub contains_code : ℕ → Text → Bool
contains_code c [] = false
contains_code c (x ∷ xs) = (x == c) || contains_code c xs

unfoldable pub is_ascii : Text → Bool
is_ascii [] = true
is_ascii (c ∷ cs) = ltb c 128 && is_ascii cs

abbrev pub with_credential : ServerSettings → Text → ControlPlaneSecurity
with_credential settings credential = record {
  token = settings.control_token;
  session_credential = credential;
  trusted_hosts = settings.trusted_hosts;
  trusted_origins = settings.trusted_origins;
}

-- `__init__`. `random` is the digest that is keyed with the token, which is to be ASCII.
unfoldable pub create : ServerSettings → (random : Text) → Outcome ControlPlaneSecurity
create settings random =
    if is_empty settings.control_token
    then returned (with_credential settings [])
    else if not (is_empty settings.session_credential)
    then returned (with_credential settings settings.session_credential)
    else if is_ascii settings.control_token
    then returned (with_credential settings random)
    else value_error

abbrev pub authentication_enabled : ControlPlaneSecurity → Bool
authentication_enabled s = not (is_empty s.token)

abbrev pub authentication_failure : ControlAccessFailure
authentication_failure = record {
  status_code = 401;
  websocket_code = 4401;
  code = "control_authentication_required";
}

abbrev pub origin_required_failure : ControlAccessFailure
origin_required_failure = record {
  status_code = 403;
  websocket_code = 4403;
  code = "origin_required";
}

abbrev pub untrusted_host : ControlAccessFailure
untrusted_host = record { status_code = 400; websocket_code = 4403; code = "untrusted_host" }

abbrev pub untrusted_origin : ControlAccessFailure
untrusted_origin = record { status_code = 403; websocket_code = 4403; code = "untrusted_origin" }

-- `str.isspace` of one character.
abbrev pub is_space : ℕ → Bool
is_space c =
    (leb 9 c && leb c 13)
    || (leb 28 c && leb c 32)
    || (c == 0x85)
    || (c == 0xA0)
    || (c == 0x1680)
    || (leb 0x2000 c && leb c 0x200A)
    || (c == 0x2028)
    || (c == 0x2029)
    || (c == 0x202F)
    || (c == 0x205F)
    || (c == 0x3000)

unfoldable pub has_space : Text → Bool
has_space [] = false
has_space (c ∷ cs) = is_space c || has_space cs

-- `str.lower`, for what is compared to "bearer": no other character becomes one of its letters.
abbrev pub lower : ℕ → ℕ
lower c = if leb b'A' c && leb c b'Z' then c + 32 else c

abbrev pub bearer : Text
bearer = b'b' ∷ b'e' ∷ b'a' ∷ b'r' ∷ b'e' ∷ b'r' ∷ []

-- `partition(" ")`; `none` where there is no separator.
unfoldable pub partition_at_blank : Text → Option (Text × Text)
partition_at_blank [] = none
partition_at_blank (c ∷ cs) =
    let rest = partition_at_blank cs in
    if c == 32 then some ([], cs) else elim rest [ none ↦ none | some p ↦ some (c ∷ p.0, p.1) ]

unfoldable pub ends_with_space : Text → Bool
ends_with_space [] = false
ends_with_space (c ∷ []) = is_space c
ends_with_space (c ∷ d ∷ cs) = ends_with_space (d ∷ cs)

abbrev pub starts_with_space : Text → Bool
starts_with_space [] = false
starts_with_space (c ∷ cs) = is_space c

-- `candidate == candidate.strip()`
abbrev pub is_stripped : Text → Bool
is_stripped t = not (starts_with_space t) && not (ends_with_space t)

abbrev pub bearer_of : Option (Text × Text) → Option Text
bearer_of none = none
bearer_of (some (scheme, candidate)) =
    if not (eqb_list (map lower scheme) bearer) || is_empty candidate || not (is_stripped candidate)
    then none
    else some candidate

-- `_bearer_token`
unfoldable pub bearer_token : Option Text → Option Text
bearer_token none = none
bearer_token (some raw) = bearer_of (partition_at_blank raw)

-- `secrets.compare_digest` on two texts: both are to be ASCII.
unfoldable pub compare_digest : Text → Text → Outcome Bool
compare_digest a b = if is_ascii a && is_ascii b then returned (eqb_list a b) else type_error

-- `candidate is not None and compare_digest(candidate, token)`
abbrev pub bearer_valid : ControlPlaneSecurity → Option Text → Outcome Bool
bearer_valid s none = returned false
bearer_valid s (some candidate) = compare_digest candidate s.token

-- `bool(cookie) and compare_digest(cookie, credential)`
abbrev pub cookie_valid : ControlPlaneSecurity → Text → Outcome Bool
cookie_valid s cookie =
    if is_empty cookie then returned false else compare_digest cookie s.session_credential

module _ (authorization : Option Text) (session_cookie : Option Text) where
  unfoldable pub validate_http_authentication :
      ControlPlaneSecurity → Outcome (Option ControlAccessFailure)
  validate_http_authentication s = if is_empty s.token then pure none else do
    by_bearer ← bearer_valid s (bearer_token authorization)
    by_cookie ← cookie_valid s (or_empty session_cookie)
    pure (if by_bearer || by_cookie then none else some authentication_failure)

  unfoldable pub websocket_authenticated : ControlPlaneSecurity → Outcome Bool
  websocket_authenticated s = if is_empty s.token then pure true else do
    by_bearer ← bearer_valid s (bearer_token authorization)
    by_cookie ← cookie_valid s (or_empty session_cookie)
    pure (by_bearer || by_cookie)

unfoldable pub bearer_authenticated : Option Text → ControlPlaneSecurity → Outcome Bool
bearer_authenticated authorization s =
    if is_empty s.token then pure false else bearer_valid s (bearer_token authorization)

-- `f"{rendered_host}:{port}"`, or without a port.
unfoldable pub render_authority : Text → Option ℕ → Text
render_authority host port =
    let rendered : Text = if contains_code b':' host then b'[' ∷ host ++ b']' ∷ [] else host in
    elim port [ none ↦ rendered | some n ↦ rendered ++ b':' ∷ decimal n ]

abbrev pub http : Text
http = b'h' ∷ b't' ∷ b't' ∷ b'p' ∷ []

abbrev pub https : Text
https = b'h' ∷ b't' ∷ b't' ∷ b'p' ∷ b's' ∷ []

abbrev pub wss : Text
wss = b'w' ∷ b's' ∷ b's' ∷ []

abbrev pub null : Text
null = b'n' ∷ b'u' ∷ b'l' ∷ b'l' ∷ []

-- `f"{scheme}://{authority}"`
abbrev pub origin_of : Text → Text → Text
origin_of scheme authority = scheme ++ b':' ∷ b'/' ∷ b'/' ∷ authority

abbrev pub request_scheme : Text → Text
request_scheme scheme = if eqb_list scheme https || eqb_list scheme wss then https else http

-- `urlsplit`, which may raise a `ValueError`, and `str.lower`.
module _ (urlsplit : Text → Option SplitResult) (lower_text : Text → Text) where
  abbrev pub authority_of_host : Option Text → Option (Option ℕ) → Option (Text × Text)
  authority_of_host none port = none
  authority_of_host (some host) none = none
  authority_of_host (some host) (some port) =
      some (lower_text host, render_authority (lower_text host) port)

  abbrev pub authority_of : Option SplitResult → Outcome (Option (Text × Text))
  authority_of none = value_error
  authority_of (some p) =
      if not (is_empty p.username)
        || not (is_empty p.password)
        || not (is_empty p.path)
        || not (is_empty p.query)
        || not (is_empty p.fragment)
      then returned none
      else returned (authority_of_host p.hostname p.port)

  -- `_parse_authority`
  unfoldable pub parse_authority : Option Text → Outcome (Option (Text × Text))
  parse_authority none = returned none
  parse_authority (some raw) =
      if is_empty raw || has_space raw
      then returned none
      else authority_of (urlsplit (b'/' ∷ b'/' ∷ raw))

  abbrev pub normal_of : Option SplitResult → Outcome (Option Text)
  normal_of none = value_error
  normal_of (some p) =
      if not (eqb_list p.scheme http || eqb_list p.scheme https)
        || not (is_empty p.username)
        || not (is_empty p.password)
        || not (is_empty p.path)
        || not (is_empty p.query)
        || not (is_empty p.fragment)
      then returned none
      else elim (authority_of_host p.hostname p.port) [
        | none ↦ returned none
        | some a ↦ returned (some (origin_of (lower_text p.scheme) a.1))
      ]

  -- `_normalize_origin`
  unfoldable pub normalize_origin : Text → Outcome (Option Text)
  normalize_origin raw =
      if is_empty raw || eqb_list raw null then returned none else normal_of (urlsplit raw)

  -- The part of `validate_request_boundary` on the origin, for a host that is trusted.
  abbrev pub origin_verdict :
      ControlPlaneSecurity → Text → Text → Option Text → Option ControlAccessFailure
  origin_verdict s scheme authority none = some untrusted_origin
  origin_verdict s scheme authority (some origin) =
      if not (eqb_list origin (origin_of (request_scheme scheme) authority))
        && not (contains origin s.trusted_origins)
      then some untrusted_origin
      else none

  abbrev pub validate_origin :
      ControlPlaneSecurity → Text → Text → Option Text → Outcome (Option ControlAccessFailure)
  validate_origin s scheme authority none = returned none
  validate_origin s scheme authority (some raw) = do
    origin ← normalize_origin raw
    pure (origin_verdict s scheme authority origin)

  abbrev pub validate_authority :
      ControlPlaneSecurity
      → (origin : Option Text) → Text
      → Option (Text × Text)
      → Outcome (Option ControlAccessFailure)
  validate_authority s origin scheme none = returned (some untrusted_host)
  validate_authority s origin scheme (some (host, authority)) =
      if not (contains host s.trusted_hosts)
      then returned (some untrusted_host)
      else validate_origin s scheme authority origin

  unfoldable pub validate_request_boundary :
      ControlPlaneSecurity
      → (host origin : Option Text) → (scheme : Text) → Outcome (Option ControlAccessFailure)
  validate_request_boundary s host origin scheme = do
    authority ← parse_authority host
    validate_authority s origin scheme authority
