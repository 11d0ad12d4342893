-- ===== src/TokenExchange/Covered.antt =====
-- The scopes of a fronted broker exchange: any source of a target that the subject holds will do.
use authserver.Common.{
  String, true, false, List, [], ◌∷◌, ◌++◌, none, some, ◌≡◌, refl, ◌↔◌, arith, if◌then◌else◌, ◌&&◌,
  ◌||◌, not, contains, contains_iff, add_key, sort_strings, In-sort_strings, is_empty, all,
}
use authserver.Domain.FrontingLinks.{ScopeMap, add_values, values_from}
use authserver.Scope.{Set}
use authserver.TokenExchange.Gates.{
  repeated, sources_of, any_held, is_covered, held_by, collect, unmapped_in, uncovered_in,
  fronted_broker_targets_for, check_fronted_broker, fronted_broker_scopes, validate_broker_targets,
}
use authserver.TokenExchange.Defaults.{is_empty-append, In-values_from, all-contained}

any_held-append :
    (subject : Set) (xs ys : List String)
    → any_held subject (xs ++ ys) ≡ any_held subject xs || any_held subject ys
any_held-append subject [] ys = refl
any_held-append subject (x ∷ xs) ys = ground (arith, any_held-append subject xs ys)

any_held-repeated :
    (subject : Set) (src t : String) (xs : List String)
    → any_held subject (repeated src t xs)
      ≡ contains subject src && not (is_empty (repeated src t xs))
any_held-repeated subject src t [] = ground arith
any_held-repeated subject src t (x ∷ xs) = ground (arith, any_held-repeated subject src t xs)

-- A target has a source in what is left of the map when the subject holds one of its sources.
held_by-covered :
    (subject : Set) (t : String) (m : ScopeMap)
    → (is_empty (sources_of (held_by subject m) t) ≡ false) ↔ (is_covered m subject t ≡ true)
unfolding sources_of
held_by-covered subject t [] = ground arith
held_by-covered subject t (e ∷ rest) = ground (
  arith,
  any_held-append subject (repeated e.source t e.targets) (sources_of rest t),
  any_held-repeated subject e.source t e.targets,
  is_empty-append (repeated e.source t e.targets) (sources_of (held_by subject rest) t),
  held_by-covered subject t rest,
)

contains-fronted_broker_targets_for :
    (m : ScopeMap) (subject : Set) (t : String)
    → contains (fronted_broker_targets_for m subject) t ≡ is_covered m subject t
unfolding fronted_broker_targets_for
contains-fronted_broker_targets_for m subject t = ground (
  arith,
  contains_iff (fronted_broker_targets_for m subject) t,
  In-sort_strings t (values_from [] (held_by subject m)),
  In-values_from t [] (held_by subject m),
  held_by-covered subject t m,
)

all-default :
    (m : ScopeMap) (subject : Set) (ts : List String)
    → all (contains (fronted_broker_targets_for m subject)) ts ≡ all (is_covered m subject) ts
all-default m subject [] = refl
all-default m subject (t ∷ ts) =
    ground (arith, contains-fronted_broker_targets_for m subject t, all-default m subject ts)

any_held-mapped :
    (subject : Set) (xs : List String) → any_held subject xs ≡ true → is_empty xs ≡ false
any_held-mapped subject [] h = ground arith
any_held-mapped subject (x ∷ xs) h = refl

gaps-covered :
    (m : ScopeMap) (subject : Set) (ts : List String)
    → is_empty (unmapped_in m ts) && is_empty (uncovered_in m subject ts)
      ≡ all (is_covered m subject) ts
gaps-covered m subject [] = refl
gaps-covered m subject (t ∷ ts) =
    ground (arith, any_held-mapped subject (sources_of m t), gaps-covered m subject ts)

collect-covered :
    (m : ScopeMap) (subject : Set) (out ts : List String)
    → all (is_covered m subject) ts ≡ true
    → collect (is_covered m subject) out ts ≡ add_values out ts
unfolding add_values
collect-covered m subject out [] h = refl
collect-covered m subject out (t ∷ ts) h =
    ground (arith, collect-covered m subject (add_key out t) ts)

check_fronted_broker-within :
    (m : ScopeMap) (subject : Set) (ts : List String)
    → check_fronted_broker m subject ts ≡ (
        if all (contains (fronted_broker_targets_for m subject)) ts
        then some (sort_strings (add_values [] ts))
        else none)
unfolding check_fronted_broker validate_broker_targets
check_fronted_broker-within m subject ts =
    ground
      (arith, all-default m subject ts, gaps-covered m subject ts, collect-covered m subject [] ts)

-- A fronted broker exchange that names scopes is granted them, sorted and each once, when the list
-- of default targets holds each of them, and is refused otherwise; one that names none is granted
-- that list, sorted and each once, and is refused when it is empty.
pub fronted_broker_scopes-exact :
    (m : ScopeMap) (subject : Set) (t : String) (ts : List String)
    → (fronted_broker_scopes m subject (t ∷ ts) ≡ (
        if all (contains (fronted_broker_targets_for m subject)) (t ∷ ts)
        then some (sort_strings (add_values [] (t ∷ ts)))
        else none))
      × (fronted_broker_scopes m subject [] ≡ (
          if is_empty (fronted_broker_targets_for m subject)
          then none
          else some (sort_strings (add_values [] (fronted_broker_targets_for m subject)))))
unfolding fronted_broker_scopes
fronted_broker_scopes-exact m subject t ts = (
  check_fronted_broker-within m subject (t ∷ ts),
  ground (
    arith,
    check_fronted_broker-within m subject (fronted_broker_targets_for m subject),
    all-contained (fronted_broker_targets_for m subject) (fronted_broker_targets_for m subject)
        (λ a k. k),
  ),
)
