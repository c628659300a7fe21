-- ===== src/ControlPlaneSecurity/Access.antt =====
-- Whom src/api/security.py lets in.
use i_ja_for_u.Base.{
  Bool, true, false, not, ◌&&◌, ◌||◌, Option, none, some, [], ◌∷◌, ◌≡◌, ◌≢◌, ◌↔◌, ◌⊎◌, inl, inr,
  refl, ap, ◌∙◌, if◌then◌else◌, eqb_list, eqb_list_sound, eqb_list_refl, Bool-cases, Option-cases,
  arith,
}
use i_ja_for_u.ControlPlaneSecurity.{
  Text, ControlAccessFailure, Outcome, returned, value_error, type_error, ◌>>=◌, pure,
  ControlPlaneSecurity, SplitResult, is_empty, or_empty, contains, authentication_failure,
  partition_at_blank, is_stripped, bearer_token, is_ascii, compare_digest, bearer_valid,
  cookie_valid, validate_http_authentication, websocket_authenticated, origin_of, request_scheme,
  parse_authority, normalize_origin, origin_verdict, validate_origin, validate_authority,
  validate_request_boundary,
}

-- The answer to an HTTP request that the answer to a WebSocket stands for.
abbrev pub failure_of : Bool → Option ControlAccessFailure
failure_of true = none
failure_of false = some authentication_failure

-- A WebSocket is let in exactly where an HTTP request with the same headers and cookies is, and an
-- exception is raised for both or for none.
pub validate_http_authentication-websocket :
    (authorization cookie : Option Text) (s : ControlPlaneSecurity)
    → validate_http_authentication authorization cookie s
      ≡ (websocket_authenticated authorization cookie s >>= λ ok. pure (failure_of ok))
unfolding validate_http_authentication websocket_authenticated
validate_http_authentication-websocket authorization cookie s =
    elim (Bool-cases (is_empty s.token)) [
      | inl off ↦ rw off refl
      | inr on ↦ rw on (
          by_parts (bearer_valid s (bearer_token authorization)) (cookie_valid s (or_empty cookie)))
    ]
  where
    by_parts :
        (b c : Outcome Bool)
        → (b >>= λ x. c >>= λ y. pure (if x || y then none else some authentication_failure))
          ≡ ((b >>= λ x. c >>= λ y. pure (x || y)) >>= λ ok. pure (failure_of ok))
    by_parts (returned true) (returned y) = refl
    by_parts (returned false) (returned true) = refl
    by_parts (returned false) (returned false) = refl
    by_parts (returned x) value_error = refl
    by_parts (returned x) type_error = refl
    by_parts value_error c = refl
    by_parts type_error c = refl

-- What a request has to present: the token, or the credential of the session.
pub data Presents (authorization cookie : Option Text) (s : ControlPlaneSecurity) : Type 0 where
  nothing_asked : s.token ≡ [] → Presents authorization cookie s
  the_token : bearer_token authorization ≡ some s.token → Presents authorization cookie s
  the_cookie :
      cookie ≡ some s.session_credential
      → s.session_credential ≢ []
      → Presents authorization cookie s

compare_digest_sound : (a b : Text) → compare_digest a b ≡ returned true → a ≡ b
unfolding compare_digest
compare_digest_sound a b e = eqb_list_sound a b (ground arith)

either_valid :
    (b c : Outcome Bool)
    → (b >>= λ x. c >>= λ y. pure (x || y)) ≡ returned true
    → (b ≡ returned true) ⊎ (c ≡ returned true)
either_valid (returned true) c h = inl refl
either_valid (returned false) (returned true) h = inr refl
either_valid (returned false) (returned false) h = absurd (ground arith)
either_valid (returned false) value_error h = absurd (ground arith)
either_valid (returned false) type_error h = absurd (ground arith)
either_valid value_error c h = absurd (ground arith)
either_valid type_error c h = absurd (ground arith)

cookie_valid_sound :
    (s : ControlPlaneSecurity) (c : Option Text)
    → cookie_valid s (or_empty c) ≡ returned true
    → (c ≡ some s.session_credential) × (s.session_credential ≢ [])
cookie_valid_sound s none h = absurd (ground arith)
cookie_valid_sound s (some []) h = absurd (ground arith)
cookie_valid_sound s (some (x ∷ xs)) h =
    let e : x ∷ xs ≡ s.session_credential = compare_digest_sound (x ∷ xs) s.session_credential h in
    (ap some e, λ none_stored. absurd (ground (arith, ap is_empty (e ∙ none_stored))))

is_empty_sound : (t : Text) → is_empty t ≡ true → t ≡ []
is_empty_sound [] h = refl
is_empty_sound (c ∷ cs) h = absurd (ground arith)

compare_digest-ascii :
    (a b : Text)
    → is_ascii a ≡ true
    → is_ascii b ≡ true
    → compare_digest a b ≡ returned (eqb_list a b)
unfolding compare_digest
compare_digest-ascii a b h k = rw (h, k) refl

abbrev bearer_matches : ControlPlaneSecurity → Option Text → Bool
bearer_matches s none = false
bearer_matches s (some candidate) = eqb_list candidate s.token

abbrev cookie_matches : ControlPlaneSecurity → Text → Bool
cookie_matches s c = not (is_empty c) && eqb_list c s.session_credential

bearer_valid-ascii :
    (s : ControlPlaneSecurity) (o : Option Text)
    → is_ascii s.token ≡ true
    → is_ascii (or_empty o) ≡ true
    → bearer_valid s o ≡ returned (bearer_matches s o)
bearer_valid-ascii s none h k = refl
bearer_valid-ascii s (some c) h k = compare_digest-ascii c s.token k h

cookie_valid-ascii :
    (s : ControlPlaneSecurity) (c : Text)
    → is_ascii s.session_credential ≡ true
    → is_ascii c ≡ true
    → cookie_valid s c ≡ returned (cookie_matches s c)
cookie_valid-ascii s [] h k = refl
cookie_valid-ascii s (x ∷ xs) h k = compare_digest-ascii (x ∷ xs) s.session_credential k h

matching :
    (s : ControlPlaneSecurity) (b c : Outcome Bool) (x y : Bool)
    → b ≡ returned x
    → c ≡ returned y
    → (is_empty s.token || (x || y)) ≡ true
    → (if is_empty s.token then pure true else b >>= λ x. c >>= λ y. pure (x || y)) ≡ returned true
matching s b c x y e f h = rw (e, f) (ground (arith, h))

nonempty : (t : Text) → t ≢ [] → is_empty t ≡ false
nonempty [] h = absurd (h refl)
nonempty (c ∷ cs) h = refl

module _ (authorization cookie : Option Text) (s : ControlPlaneSecurity) where
  bearer-Presents :
      bearer_valid s (bearer_token authorization) ≡ returned true → Presents authorization cookie s
  bearer-Presents h = elim (Option-cases (bearer_token authorization)) [
    | inl missing ↦ absurd (ground (arith, missing, h))
    | inr (candidate, found) ↦
        the_token (found ∙ ap some (compare_digest_sound candidate s.token (rw found at h)))
  ]

  -- A request that is let in presents the token or the credential, or no token is configured.
  websocket_authenticated-Presents :
      websocket_authenticated authorization cookie s ≡ returned true
      → Presents authorization cookie s
  unfolding websocket_authenticated
  websocket_authenticated-Presents h = elim (Bool-cases (is_empty s.token)) [
    | inl off ↦ nothing_asked (is_empty_sound s.token off)
    | inr on ↦
        elim (either_valid (bearer_valid s (bearer_token authorization))
          (cookie_valid s (or_empty cookie)) (rw on at h)) [
            | inl by_token ↦ bearer-Presents by_token
            | inr by_cookie ↦
                let (e, stored) = cookie_valid_sound s cookie by_cookie in the_cookie e stored
          ]
  ]

  matched :
      Presents authorization cookie s
      → (is_empty s.token
          || (bearer_matches s (bearer_token authorization) || cookie_matches s (or_empty cookie)))
        ≡ true
  matched (nothing_asked e) = ground (arith, ap is_empty e)
  matched (the_token e) = ground (arith, e, eqb_list_refl s.token)
  matched (the_cookie e stored) =
      ground (arith, e, eqb_list_refl s.session_credential, nonempty s.session_credential stored)

  -- Where what is compared is ASCII, a request is let in if and only if it presents the token or the
  -- stored credential, or no token is configured.
  pub websocket_authenticated_iff :
      is_ascii s.token ≡ true
      → is_ascii s.session_credential ≡ true
      → is_ascii (or_empty (bearer_token authorization)) ≡ true
      → is_ascii (or_empty cookie) ≡ true
      → (websocket_authenticated authorization cookie s ≡ returned true)
        ↔ Presents authorization cookie s
  unfolding websocket_authenticated
  websocket_authenticated_iff t c b k = (
    websocket_authenticated-Presents,
    λ p.
        matching s (bearer_valid s (bearer_token authorization)) (cookie_valid s (or_empty cookie))
          (bearer_matches s (bearer_token authorization)) (cookie_matches s (or_empty cookie))
          (bearer_valid-ascii s (bearer_token authorization) t b)
          (cookie_valid-ascii s (or_empty cookie) c k) (matched p),
  )

returned_injective : {A : Type 0} {a b : A} → Outcome.returned a ≡ Outcome.returned b → a ≡ b
returned_injective {A} {a} e =
    ap (λ (r : Outcome A). elim r [ returned x ↦ x | value_error ↦ a | type_error ↦ a ]) e

-- The header that carries a token.
abbrev pub bearer_header : Text → Text
bearer_header token = b'B' ∷ b'e' ∷ b'a' ∷ b'r' ∷ b'e' ∷ b'r' ∷ b' ' ∷ token

-- A token that is not empty and has no blank at its ends is read back from its header.
pub bearer_token-bearer_header :
    (token : Text)
    → is_empty token ≡ false
    → is_stripped token ≡ true
    → bearer_token (some (bearer_header token)) ≡ some token
unfolding bearer_token partition_at_blank eqb_list
bearer_token-bearer_header token some_token stripped = rw (some_token, stripped) refl

module _ (urlsplit : Text → Option SplitResult) (lower_text : Text → Text)
    (s : ControlPlaneSecurity) where
  -- A request that passes names a trusted host, and an origin that is its own or trusted, if any.
  pub record Passes (host origin : Option Text) (scheme : Text) : Type 0 where
    pub name : Text
    pub authority : Text
    pub parsed : parse_authority urlsplit lower_text host ≡ returned (some (name, authority))
    pub trusted : contains name s.trusted_hosts ≡ true
    pub own_or_trusted :
        (origin ≡ none)
        ⊎ ((raw : Text) × (o : Text) × (origin ≡ some raw)
            × (normalize_origin urlsplit lower_text raw ≡ returned (some o))
            × ((o ≡ origin_of (request_scheme scheme) authority)
                ⊎ (contains o s.trusted_origins ≡ true)))

  -- Why an origin was accepted.
  abbrev OriginIsTrusted : Text → Text → Option Text → Type 0
  OriginIsTrusted scheme authority origin =
      (origin ≡ none)
      ⊎ ((raw : Text) × (o : Text) × (origin ≡ some raw)
          × (normalize_origin urlsplit lower_text raw ≡ returned (some o))
          × ((o ≡ origin_of (request_scheme scheme) authority)
              ⊎ (contains o s.trusted_origins ≡ true)))

  origin_verdict-none :
      (scheme authority o : Text)
      → origin_verdict urlsplit lower_text s scheme authority (some o) ≡ none
      → (o ≡ origin_of (request_scheme scheme) authority) ⊎ (contains o s.trusted_origins ≡ true)
  origin_verdict-none scheme authority o h =
      elim (Bool-cases (eqb_list o (origin_of (request_scheme scheme) authority))) [
        | inl same ↦ inl (eqb_list_sound o (origin_of (request_scheme scheme) authority) same)
        | inr other ↦ elim (Bool-cases (contains o s.trusted_origins)) [
          | inl found ↦ inr found
          | inr missing ↦ absurd (ground (arith, h, other, missing))
        ]
      ]

  validate_origin-OriginIsTrusted :
      (scheme authority : Text) (origin : Option Text)
      → validate_origin urlsplit lower_text s scheme authority origin ≡ returned none
      → OriginIsTrusted scheme authority origin
  validate_origin-OriginIsTrusted scheme authority none h = inl refl
  validate_origin-OriginIsTrusted scheme authority (some raw) h =
      by_normal (normalize_origin urlsplit lower_text raw) refl h
    where
      by_normal :
          (a : Outcome (Option Text))
          → normalize_origin urlsplit lower_text raw ≡ a
          → (a >>= λ x. pure (origin_verdict urlsplit lower_text s scheme authority x))
            ≡ returned none
          → OriginIsTrusted scheme authority (some raw)
      by_normal value_error e k = absurd (ground arith)
      by_normal type_error e k = absurd (ground arith)
      by_normal (returned none) e k = absurd (ground arith)
      by_normal (returned (some o)) e k =
          inr (raw, o, refl, e, origin_verdict-none scheme authority o (returned_injective k))

  -- A request that passes the boundary has a host that parses and that is trusted, and if it has an
  -- origin, that one parses and is its own origin or a trusted one.
  pub validate_request_boundary-Passes :
      (host origin : Option Text) (scheme : Text)
      → validate_request_boundary urlsplit lower_text s host origin scheme ≡ returned none
      → Passes host origin scheme
  unfolding validate_request_boundary
  validate_request_boundary-Passes host origin scheme h =
      by_authority (parse_authority urlsplit lower_text host) refl h
    where
      by_authority :
          (a : Outcome (Option (Text × Text)))
          → parse_authority urlsplit lower_text host ≡ a
          → (a >>= λ x. validate_authority urlsplit lower_text s origin scheme x) ≡ returned none
          → Passes host origin scheme
      by_authority value_error e k = absurd (ground arith)
      by_authority type_error e k = absurd (ground arith)
      by_authority (returned none) e k = absurd (ground arith)
      by_authority (returned (some (name, authority))) e k =
          elim (Bool-cases (contains name s.trusted_hosts)) [
            | inl known ↦ record {
              name = name;
              authority = authority;
              parsed = e;
              trusted = known;
              own_or_trusted =
                  validate_origin-OriginIsTrusted scheme authority origin (rw known at k);
            }
            | inr unknown ↦ absurd (ground (arith, unknown, k))
          ]
