-- ===== src/Domain/Redirects/Tests.antt =====
-- A client on a loopback address with a port of its own.
use authserver.Common.{
  String, Option, none, some, List, [], ◌∷◌, ◌==◌, ◌≡◌, ◌↔◌, ◌⊎◌, refl, In, true, if◌then◌else◌,
}
use authserver.Domain.Redirects.{
  RedirectUrl, is_loopback, has_redirect_uri, validate_redirect_uri, Loopback, Permitted,
  has_redirect_uri-Loopback, validate_redirect_uri_iff,
}

abbrev local : RedirectUrl
local = record {
  scheme = "http";
  host = "127.0.0.1:8080";
  hostname = "127.0.0.1";
  path = "/cb";
  raw_query = "";
  fragment = "";
}

abbrev read_url : String → Option RedirectUrl
read_url s = if s == "" then none else some local

abbrev registered : List String
registered = "http://127.0.0.1/cb" ∷ []

is_accepted : has_redirect_uri read_url registered "http://127.0.0.1:8080/cb" ≡ true
unfolding has_redirect_uri is_loopback authserver.Domain.Redirects.same_but_port
is_accepted = refl

has_redirect_uri-Loopback_example :
    (has_redirect_uri read_url registered "http://127.0.0.1:8080/cb" ≡ true) ↔ (
      In "http://127.0.0.1:8080/cb" registered
      ⊎ Loopback read_url registered "http://127.0.0.1:8080/cb")
has_redirect_uri-Loopback_example =
    has_redirect_uri-Loopback read_url registered "http://127.0.0.1:8080/cb"

validate_redirect_uri_iff_example :
    (validate_redirect_uri read_url "http://127.0.0.1:8080/cb" ≡ none)
    ↔ ((u : RedirectUrl) × (read_url "http://127.0.0.1:8080/cb" ≡ some u) × Permitted read_url u)
validate_redirect_uri_iff_example = validate_redirect_uri_iff read_url "http://127.0.0.1:8080/cb"
