-- ===== src/Token/Examples.antt =====
-- A server, a client and a database on which the grants of internal/services/token.go run.
use Prim.Native.String
use authserver.Common.{String, ℕ, zero, suc, true, false, [], ◌∷◌, none, some, ◌==◌, if◌then◌else◌}
use authserver.Domain.Clients.{Client, active, admin}
use authserver.Domain.Entities
use authserver.Domain.Entities.{Session, Family, RefreshToken}
use authserver.Store.Monad.{World, Outside}
use authserver.Token.Env.{Env, Url, Proof}
use authserver.Token.Exchange.{ExchangeRequest}
use authserver.Token.Refresh.{RefreshRequest}

abbrev pub nth : ℕ → String
nth zero = "r"
nth (suc n) = String.◌++◌ "r" (nth n)

abbrev pub verifier : String
verifier = "abcdefghijklmnopqrstuvwxyzabcdefghijklmnopqrstuvwxyz"

abbrev pub app : Client
app = record {
  id = "app";
  secret_hash = "secret";
  redirect_uris = "https://app/cb" ∷ [];
  grant_types = "authorization_code" ∷ "refresh_token" ∷ [];
  response_types = "code" ∷ [];
  token_endpoint_auth_method = "client_secret_basic";
  status = active;
  registration_source = admin;
  cimd_url = "";
  application_type = "web";
  scope = "read write";
  is_agent = false;
  updated_at = 0;
}

abbrev pub url : Url
url = record { scheme = "https"; host = "as"; path = "/token"; rest = "" }

abbrev pub proof : Proof
proof = record {
  headers = 1;
  typ = "dpop+jwt";
  jkt = some "thumb";
  signature_holds = true;
  jti = "proof-1";
  htm = "POST";
  htu = "https://as/token";
  iat = 1000;
  nonce = "";
  ath = "";
}

abbrev pub outside : Outside
outside = record { fails = λ c. false; now = 1000000000000; random = nth }

abbrev pub env : Env
env = record {
  outside = outside;
  hash = λ s. s;
  s256 = λ s. s;
  secret_matches = λ a b. a == b;
  parse_url = λ s. some url;
  print_url = λ u. u.host;
  lower = λ s. s;
  equal_fold = λ a b. a == b;
  parse_proof = λ s. some proof;
  sign_claims = λ c. c.jti;
  client = λ id. if id == "app" then some app else none;
  users = none;
  resolve = none;
  issuer_name = "https://as";
  has_revocation = true;
  has_audit = true;
  has_transactions = true;
  has_agent_identity = true;
  dpop = some (record { enabled = true; require_nonce = false; proof_lifetime = 60000000000 });
  access_expiry = 600000000000;
  refresh_expiry = 3600000000000;
  others = λ w. w;
}

abbrev pub session : Session
session = record {
  id = "session";
  client_id = "app";
  user_id = "user";
  redirect_uri = "https://app/cb";
  scope = "read";
  resource = "https://api";
  state = "";
  code_hash = some "code";
  code_challenge = verifier;
  code_challenge_method = "S256";
  expires_at = 2000000000000;
  consumed_at = none;
  created_at = 0;
}

abbrev pub family : Family
family = record {
  id = "family";
  client_id = "app";
  user_id = "user";
  scope = "read";
  resource = "https://api";
  status = Entities.active;
  created_at = 0;
  revoked_at = none;
  auth_session_id = some "session";
}

abbrev pub token : RefreshToken
token = record {
  id = "token";
  family_id = "family";
  token_hash = "refresh";
  expires_at = 2000000000000;
  consumed_at = none;
  created_at = 0;
}

abbrev pub world : World
world = record {
  sessions = session ∷ [];
  families = family ∷ [];
  tokens = token ∷ [];
  tracked = record { jti = "access"; family_id = "family"; expires_at = 3000 } ∷ [];
  denied = [];
  issuances = [];
  dpop_jtis = [];
  dpop_nonces = [];
  machine_tokens = [];
  resources = [];
  links = [];
  consents = [];
  providers = [];
  ceiling_logged = [];
  audit = [];
  drawn = 0;
}

abbrev pub refresh_request : RefreshRequest
refresh_request = record {
  refresh_token = "refresh";
  client_id = "app";
  client_secret = "secret";
  scope = "read";
  resource = "";
  dpop_proof = "";
  http_method = "POST";
  http_url = "https://as/token";
}

abbrev pub exchange_request : ExchangeRequest
exchange_request = record {
  code = "code";
  redirect_uri = "https://app/cb";
  client_id = "app";
  client_secret = "secret";
  code_verifier = verifier;
  resource = "";
  dpop_proof = "";
  http_method = "POST";
  http_url = "https://as/token";
}
