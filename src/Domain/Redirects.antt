-- ===== src/Domain/Redirects.antt =====
-- Redirect URIs: `HasRedirectURI` of internal/domain/client/entity.go and `ValidateRedirectURI` of
-- internal/domain/client/validation.go. The parser of net/url is the parameter `parse`.
mod Tests
use authserver.Common.{
  String, Bool, true, false, List, [], ◌∷◌, Option, none, some, ◌==◌, ◌&&◌, ◌||◌, not,
  if◌then◌else◌, any, ◌≡◌, ◌↔◌, ◌≢◌, ◌⊎◌, inl, inr, refl, In, eq_iff, arith, Bool-cases,
  Option-cases,
}

-- What is read of a `url.URL`.
pub record RedirectUrl : Type 0 where
  pub scheme : String
  pub host : String
  pub hostname : String
  pub path : String
  pub raw_query : String
  pub fragment : String

-- `isLoopback`.
unfoldable pub is_loopback : String → Bool
is_loopback host = host == "localhost" || host == "127.0.0.1" || host == "::1"

unfoldable pub same_but_port : RedirectUrl → RedirectUrl → Bool
same_but_port r u =
    r.scheme == u.scheme
    && r.hostname == u.hostname
    && r.path == u.path
    && r.raw_query == u.raw_query

unfoldable pub matches_parsed : Option RedirectUrl → Option RedirectUrl → Bool
matches_parsed (some r) (some u) = is_loopback r.hostname && same_but_port r u
matches_parsed _ _ = false

pub data RedirectError : Type 0 where
  not_a_url has_fragment no_host needs_https : RedirectError

unfoldable pub validate_parsed : Option RedirectUrl → Option RedirectError
validate_parsed none = some not_a_url
validate_parsed (some u) =
    if not (u.fragment == "")
    then some has_fragment
    else if u.scheme == "" || u.host == ""
    then some no_host
    else if u.scheme == "http"
    then (if not (is_loopback u.hostname) then some needs_https else none)
    else if not (u.scheme == "https")
    then some needs_https
    else none

module _ (parse : String → Option RedirectUrl) where
  unfoldable pub matches_loopback_redirect : String → String → Bool
  unfolding matches_parsed
  matches_loopback_redirect registered uri = matches_parsed (parse registered) (parse uri)

  unfoldable pub has_redirect_uri : List String → String → Bool
  unfolding matches_loopback_redirect
  has_redirect_uri [] uri = false
  has_redirect_uri (registered ∷ rest) uri =
      registered == uri || matches_loopback_redirect registered uri || has_redirect_uri rest uri

  unfoldable pub validate_redirect_uri : String → Option RedirectError
  unfolding validate_parsed
  validate_redirect_uri uri = validate_parsed (parse uri)

  -- A URI that agrees with a registered loopback URI in scheme, host name, path and query.
  pub record Loopback (uris : List String) (uri : String) : Type 0 where
    pub registered : String
    pub is_registered : In registered uris
    pub known : RedirectUrl
    pub asked : RedirectUrl
    pub known_parses : parse registered ≡ some known
    pub asked_parses : parse uri ≡ some asked
    pub on_loopback : is_loopback known.hostname ≡ true
    pub same_scheme : known.scheme ≡ asked.scheme
    pub same_hostname : known.hostname ≡ asked.hostname
    pub same_path : known.path ≡ asked.path
    pub same_query : known.raw_query ≡ asked.raw_query

  matches-Loopback :
      (uris : List String) (registered uri : String)
      → In registered uris
      → matches_loopback_redirect registered uri ≡ true
      → Loopback uris uri
  unfolding matches_loopback_redirect matches_parsed same_but_port
  matches-Loopback uris registered uri m h = elim (Option-cases (parse registered)) [
    | inl p ↦ ground (arith, p, h)
    | inr (r, p) ↦ elim (Option-cases (parse uri)) [
      | inl q ↦ ground (arith, p, q, h)
      | inr (u, q) ↦ record {
        registered = registered;
        is_registered = m;
        known = r;
        asked = u;
        known_parses = p;
        asked_parses = q;
        on_loopback = ground (arith, p, q, h);
        same_scheme = ground (arith, p, q, h, eq_iff r.scheme u.scheme);
        same_hostname = ground (arith, p, q, h, eq_iff r.hostname u.hostname);
        same_path = ground (arith, p, q, h, eq_iff r.path u.path);
        same_query = ground (arith, p, q, h, eq_iff r.raw_query u.raw_query);
      }
    ]
  ]

  widen : (x uri : String) (uris : List String) → Loopback uris uri → Loopback (x ∷ uris) uri
  widen x uri uris l = record {
    registered = l.registered;
    is_registered = inr l.is_registered;
    known = l.known;
    asked = l.asked;
    known_parses = l.known_parses;
    asked_parses = l.asked_parses;
    on_loopback = l.on_loopback;
    same_scheme = l.same_scheme;
    same_hostname = l.same_hostname;
    same_path = l.same_path;
    same_query = l.same_query;
  }

  has-Loopback :
      (uris : List String) (uri : String)
      → has_redirect_uri uris uri ≡ true
      → In uri uris ⊎ Loopback uris uri
  unfolding has_redirect_uri
  has-Loopback [] uri h = ground (arith, h)
  has-Loopback (x ∷ uris) uri h = elim (Bool-cases (x == uri)) [
    | inl p ↦ inl (inl ((eq_iff x uri).0 p))
    | inr p ↦ elim (Bool-cases (matches_loopback_redirect x uri)) [
      | inl q ↦ inr (matches-Loopback (x ∷ uris) x uri (inl refl) q)
      | inr q ↦ elim (has-Loopback uris uri (rw (p, q) at h)) [
        | inl m ↦ inl (inr m)
        | inr l ↦ inr (widen x uri uris l)
      ]
    ]
  ]

  has-listed :
      (uris : List String) (uri x : String)
      → In x uris
      → (x == uri) || matches_loopback_redirect x uri ≡ true
      → has_redirect_uri uris uri ≡ true
  unfolding has_redirect_uri
  has-listed [] uri x m h = absurd m
  has-listed (y ∷ uris) uri x (inl e) h = ground (arith, e, h)
  has-listed (y ∷ uris) uri x (inr m) h = ground (arith, has-listed uris uri x m h)

  Loopback-matches :
      (uris : List String) (uri : String) (l : Loopback uris uri)
      → matches_loopback_redirect l.registered uri ≡ true
  unfolding matches_loopback_redirect matches_parsed same_but_port
  Loopback-matches uris uri l = ground (
    arith,
    l.known_parses,
    l.asked_parses,
    l.on_loopback,
    (eq_iff l.known.scheme l.asked.scheme).1 l.same_scheme,
    (eq_iff l.known.hostname l.asked.hostname).1 l.same_hostname,
    (eq_iff l.known.path l.asked.path).1 l.same_path,
    (eq_iff l.known.raw_query l.asked.raw_query).1 l.same_query,
  )

  -- A redirect URI is accepted exactly when it is registered as it stands, or agrees in scheme, host
  -- name, path and query with a registered URI on a loopback host. The port, the user information
  -- and the fragment are not compared then.
  pub has_redirect_uri-Loopback :
      (uris : List String) (uri : String)
      → (has_redirect_uri uris uri ≡ true) ↔ (In uri uris ⊎ Loopback uris uri)
  has_redirect_uri-Loopback uris uri = (has-Loopback uris uri, accepted)
    where
      accepted : In uri uris ⊎ Loopback uris uri → has_redirect_uri uris uri ≡ true
      accepted (inl m) = has-listed uris uri uri m (ground (arith, (eq_iff uri uri).1 refl))
      accepted (inr l) =
          has-listed uris uri l.registered l.is_registered
            (ground (arith, Loopback-matches uris uri l))

  https-other : (s : String) → s ≡ "https" → ((s == "") ≡ false) × ((s == "http") ≡ false)
  https-other s h = rw h (refl, refl)

  http-other : (s : String) → s ≡ "http" → (s == "") ≡ false
  http-other s h = rw h refl

  -- A URL that a registration takes as a redirect URI.
  abbrev pub Permitted : RedirectUrl → Type 0
  Permitted u =
      (u.fragment ≡ "")
      × (u.host ≢ "")
      × ((u.scheme ≡ "https") ⊎ ((u.scheme ≡ "http") × (is_loopback u.hostname ≡ true)))

  parsed_iff : (u : RedirectUrl) → (validate_parsed (some u) ≡ none) ↔ Permitted u
  unfolding validate_parsed
  parsed_iff u = ground (
    arith,
    https-other u.scheme,
    http-other u.scheme,
    eq_iff u.fragment "",
    eq_iff u.host "",
    eq_iff u.scheme "",
    eq_iff u.scheme "http",
    eq_iff u.scheme "https",
  )

  unparsed : validate_parsed none ≢ none
  unfolding validate_parsed
  unparsed h = ground (arith, h)

  -- A redirect URI is valid for registration exactly when it parses, without a fragment and with a
  -- host, and has the scheme https, or http with a loopback host.
  pub validate_redirect_uri_iff :
      (uri : String)
      → (validate_redirect_uri uri ≡ none)
        ↔ ((u : RedirectUrl) × (parse uri ≡ some u) × Permitted u)
  unfolding validate_redirect_uri
  validate_redirect_uri_iff uri = (
    λ h. elim (Option-cases (parse uri)) [
      | inl p ↦ absurd (unparsed (rw p at h))
      | inr (u, p) ↦ (u, p, (parsed_iff u).0 (rw p at h))
    ],
    λ (u, p, k). rw p ((parsed_iff u).1 k),
  )
