-- ===== src/TokenExchange/Gates.antt =====
-- The helpers at the end of internal/services/token_exchange.go: who may exchange, and for which
-- scopes. A map from targets to their sources is a function of the target.
use authserver.Common.{
  String, Bool, true, false, List, [], ◌∷◌, ◌++◌, Option, none, some, if◌then◌else◌, ◌==◌, ◌&&◌,
  ◌||◌, not, contains, add_key, sort_strings, is_empty, keep, all,
}
use authserver.Domain.Resources.{Scope, Resource, scope_name_set}
use authserver.Domain.FrontingLinks.{ScopeMap, values_from}
use authserver.Domain.Consents.{ConsentGrant}
use authserver.Scope.{Set}

-- No grant, and a grant without scopes, lack everything.
unfoldable pub scopes_not_consented : Option ConsentGrant → List String → List String
scopes_not_consented none requested = requested
scopes_not_consented (some g) requested =
    if is_empty g.scopes then requested else keep (λ s. not (contains g.scopes s)) requested

unfoldable pub operator_allows_client : List String → String → Bool
operator_allows_client allowed id = if is_empty allowed then true else contains allowed id

unfoldable pub fronted_caller_authorized : Resource → Resource → String → Bool
fronted_caller_authorized source target id =
    contains target.policy.exchange.allowed_client_ids id
    || contains source.policy.runtime.client_ids id

unfoldable pub fronted_inner_actor : String → String → String → String
fronted_inner_actor subject_client source_slug caller =
    if subject_client == "" || subject_client == source_slug then caller else subject_client

-- The distinct members of a list that pass a test, the latest first.
abbrev pub collect : (String → Bool) → List String → List String → List String
collect test out [] = out
collect test out (s ∷ rest) = collect test (if test s then add_key out s else out) rest

abbrev pub grants_scope : Resource → Set → String → Bool
grants_scope target subject s =
    contains (scope_name_set target.scopes) s && (is_empty subject || contains subject s)

unfoldable pub direct_broker_default_scopes : Option ConsentGrant → Resource → Set → List String
direct_broker_default_scopes none target subject = []
direct_broker_default_scopes (some g) target subject =
    sort_strings (collect (grants_scope target subject) [] g.scopes)

abbrev pub names : List Scope → List String
names [] = []
names (s ∷ ss) = s.name ∷ names ss

unfoldable pub direct_mint_default_scopes : Option ConsentGrant → Resource → Set → List String
unfolding direct_broker_default_scopes
direct_mint_default_scopes (some g) target subject =
    direct_broker_default_scopes (some g) target subject
direct_mint_default_scopes none target subject =
    sort_strings (collect (contains subject) [] (names target.scopes))

abbrev pub repeated : String → String → List String → List String
repeated src t [] = []
repeated src t (x ∷ xs) = if x == t then src ∷ repeated src t xs else repeated src t xs

-- `rev[t]`: the keys of the map that list the target.
unfoldable pub sources_of : ScopeMap → String → List String
sources_of [] t = []
sources_of (m ∷ rest) t = repeated m.source t m.targets ++ sources_of rest t

abbrev pub first : List String → Option String
first [] = none
first (s ∷ ss) = some s

abbrev pub smallest_source : ScopeMap → String → Option String
smallest_source m t = first (sort_strings (sources_of m t))

abbrev pub holds : Set → Option String → Bool
holds subject none = false
holds subject (some s) = contains subject s

abbrev pub reaches : ScopeMap → Set → String → Bool
reaches m subject t = holds subject (smallest_source m t)

unfoldable pub fronted_mint_targets_for : ScopeMap → Set → List String
fronted_mint_targets_for m subject = sort_strings (keep (reaches m subject) (values_from [] m))

abbrev pub held_by : Set → ScopeMap → ScopeMap
held_by subject m = keep (λ e. contains subject e.source) m

unfoldable pub fronted_broker_targets_for : ScopeMap → Set → List String
fronted_broker_targets_for m subject = sort_strings (values_from [] (held_by subject m))

pub record Required : Type 0 where
  pub sources : List String
  pub unmapped : List String

abbrev pub add_first : List String → Option String → List String
add_first out none = out
add_first out (some s) = add_key out s

abbrev pub sources_for : ScopeMap → List String → List String → List String
sources_for m out [] = out
sources_for m out (t ∷ ts) = sources_for m (add_first out (smallest_source m t)) ts

abbrev pub unmapped_in : ScopeMap → List String → List String
unmapped_in m ts = keep (λ t. is_empty (sources_of m t)) ts

unfoldable pub required_source_scopes_for_targets : ScopeMap → List String → Required
required_source_scopes_for_targets m targets =
    if is_empty (unmapped_in m targets)
    then record { sources = sort_strings (sources_for m [] targets); unmapped = [] }
    else record { sources = []; unmapped = unmapped_in m targets }

pub record BrokerTargets : Type 0 where
  pub valid : List String
  pub unmapped : List String
  pub missing_coverage : List String

abbrev pub any_held : Set → List String → Bool
any_held subject [] = false
any_held subject (s ∷ ss) = contains subject s || any_held subject ss

abbrev pub is_covered : ScopeMap → Set → String → Bool
is_covered m subject t = any_held subject (sources_of m t)

abbrev pub uncovered_in : ScopeMap → Set → List String → List String
uncovered_in m subject ts =
    keep (λ t. not (is_empty (sources_of m t)) && not (is_covered m subject t)) ts

unfoldable pub validate_broker_targets : ScopeMap → List String → Set → BrokerTargets
validate_broker_targets m requested subject =
    if is_empty (unmapped_in m requested) && is_empty (uncovered_in m subject requested)
    then record {
      valid = sort_strings (collect (is_covered m subject) [] requested);
      unmapped = [];
      missing_coverage = [];
    }
    else record {
      valid = [];
      unmapped = unmapped_in m requested;
      missing_coverage = uncovered_in m subject requested;
    }

-- The scopes of a fronted mint exchange: `none` is the error `invalid_scope`.
unfoldable pub check_fronted_mint : ScopeMap → Set → List String → Option (List String)
unfolding required_source_scopes_for_targets
check_fronted_mint m subject targets =
    let required = required_source_scopes_for_targets m targets in
    if not (is_empty required.unmapped)
    then none
    else if not (all (contains subject) required.sources)
    then none
    else some targets

unfoldable pub fronted_mint_scopes : ScopeMap → Set → List String → Option (List String)
unfolding check_fronted_mint fronted_mint_targets_for
fronted_mint_scopes m subject [] =
    let defaults = fronted_mint_targets_for m subject in
    if is_empty defaults then none else check_fronted_mint m subject defaults
fronted_mint_scopes m subject (t ∷ ts) = check_fronted_mint m subject (t ∷ ts)

-- The same for a fronted broker exchange, where `none` is a denial for consent.
unfoldable pub check_fronted_broker : ScopeMap → Set → List String → Option (List String)
unfolding validate_broker_targets
check_fronted_broker m subject targets =
    let result = validate_broker_targets m targets subject in
    if not (is_empty result.unmapped)
    then none
    else if not (is_empty result.missing_coverage)
    then none
    else some result.valid

unfoldable pub fronted_broker_scopes : ScopeMap → Set → List String → Option (List String)
unfolding check_fronted_broker fronted_broker_targets_for
fronted_broker_scopes m subject [] =
    let defaults = fronted_broker_targets_for m subject in
    if is_empty defaults then none else check_fronted_broker m subject defaults
fronted_broker_scopes m subject (t ∷ ts) = check_fronted_broker m subject (t ∷ ts)
