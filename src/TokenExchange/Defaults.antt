-- ===== src/TokenExchange/Defaults.antt =====
-- The scopes of a fronted exchange that names none, against those that a request may name.
use authserver.Common.{
  String, Bool, true, false, List, [], ◌∷◌, ◌++◌, none, some, ◌≡◌, refl, sym, ◌∙◌, ◌⊎◌, inl, inr,
  ◌↔◌, if◌then◌else◌, ◌&&◌, eq_iff, arith, contains, contains_iff, add_key, In-add_key,
  sort_strings, In-sort_strings, is_empty, all, keep, In, In-keep, keep-In, all-In,
}
use authserver.Domain.FrontingLinks.{ScopeMap, add_values, values_from}
use authserver.Scope.{Set}
use authserver.TokenExchange.Gates.{
  repeated, sources_of, first, smallest_source, holds, reaches, fronted_mint_targets_for,
  unmapped_in, sources_for, add_first, check_fronted_mint, fronted_mint_scopes,
  required_source_scopes_for_targets,
}

pub is_empty-append : (xs ys : List String) → is_empty (xs ++ ys) ≡ is_empty xs && is_empty ys
is_empty-append [] ys = refl
is_empty-append (x ∷ xs) ys = refl

pub repeated_iff :
    (src t : String) (xs : List String) → (is_empty (repeated src t xs) ≡ false) ↔ In t xs
repeated_iff src t [] = ground arith
repeated_iff src t (x ∷ xs) = ground (arith, eq_iff x t, repeated_iff src t xs)

pub In-add_values :
    (t : String) (seen vs : List String) → In t (add_values seen vs) ↔ (In t seen ⊎ In t vs)
unfolding add_values
In-add_values t seen [] = ground arith
In-add_values t seen (v ∷ vs) =
    ground (arith, In-add_values t (add_key seen v) vs, In-add_key seen v t)

-- The values of a scope map are the targets that have a source.
pub In-values_from :
    (t : String) (seen : List String) (m : ScopeMap)
    → In t (values_from seen m) ↔ (In t seen ⊎ (is_empty (sources_of m t) ≡ false))
unfolding values_from sources_of
In-values_from t seen [] = ground arith
In-values_from t seen (e ∷ rest) = ground (
  arith,
  In-values_from t (add_values seen e.targets) rest,
  In-add_values t seen e.targets,
  repeated_iff e.source t e.targets,
  is_empty-append (repeated e.source t e.targets) (sources_of rest t),
)

In-inhabited : (x : String) (xs : List String) → In x xs → is_empty xs ≡ false
In-inhabited x [] h = absurd h
In-inhabited x (a ∷ xs) h = refl

is_empty-sort : (xs : List String) → is_empty (sort_strings xs) ≡ is_empty xs
unfolding sort_strings
is_empty-sort [] = refl
is_empty-sort (x ∷ xs) =
    In-inhabited x (sort_strings (x ∷ xs)) ((In-sort_strings x (x ∷ xs)).1 (inl refl))

holds-first :
    (subject : Set) (xs : List String) → holds subject (first xs) ≡ true → is_empty xs ≡ false
holds-first subject [] h = ground arith
holds-first subject (x ∷ xs) h = refl

reaches-mapped :
    (m : ScopeMap) (subject : Set) (t : String)
    → reaches m subject t ≡ true
    → is_empty (sources_of m t) ≡ false
reaches-mapped m subject t h =
    sym (is_empty-sort (sources_of m t)) ∙ holds-first subject (sort_strings (sources_of m t)) h

-- The default targets are those that the subject reaches.
In-fronted_mint_targets_for :
    (m : ScopeMap) (subject : Set) (t : String)
    → In t (fronted_mint_targets_for m subject) ↔ (reaches m subject t ≡ true)
unfolding fronted_mint_targets_for
In-fronted_mint_targets_for m subject t = ground (
  arith,
  In-sort_strings t (keep (reaches m subject) (values_from [] m)),
  In-keep (reaches m subject) t (values_from [] m),
  keep-In (reaches m subject) t (values_from [] m),
  In-values_from t [] m,
  reaches-mapped m subject t,
)

all-add_key :
    (p : String → Bool) (a : String) (out : List String) → all p (add_key out a) ≡ p a && all p out
unfolding add_key
all-add_key p a out = ground (arith, contains_iff out a, all-In p a out)

all-add_first :
    (subject : Set) (out xs : List String)
    → is_empty xs ≡ false
    → all (contains subject) (add_first out (first xs))
      ≡ holds subject (first xs) && all (contains subject) out
all-add_first subject out [] h = ground arith
all-add_first subject out (x ∷ xs) h = all-add_key (contains subject) x out

all-sources_for :
    (m : ScopeMap) (subject : Set) (out ts : List String)
    → is_empty (unmapped_in m ts) ≡ true
    → all (contains subject) (sources_for m out ts)
      ≡ all (contains subject) out && all (reaches m subject) ts
all-sources_for m subject out [] h = ground arith
all-sources_for m subject out (t ∷ ts) h = ground (
  arith,
  is_empty-sort (sources_of m t),
  all-add_first subject out (sort_strings (sources_of m t)),
  all-sources_for m subject (add_first out (smallest_source m t)) ts,
)

reached-mapped :
    (m : ScopeMap) (subject : Set) (ts : List String)
    → all (reaches m subject) ts ≡ true
    → is_empty (unmapped_in m ts) ≡ true
reached-mapped m subject [] h = refl
reached-mapped m subject (t ∷ ts) h =
    ground (arith, reaches-mapped m subject t, reached-mapped m subject ts)

all-within :
    (p : String → Bool) (xs ys : List String)
    → ((a : String) → In a xs → In a ys)
    → all p ys ≡ true
    → all p xs ≡ true
all-within p [] ys sub h = refl
all-within p (x ∷ xs) ys sub h =
    ground (arith, all-In p x ys h (sub x (inl refl)), all-within p xs ys (λ a k. sub a (inr k)) h)

all-sort_iff :
    (p : String → Bool) (xs : List String) → (all p (sort_strings xs) ≡ true) ↔ (all p xs ≡ true)
all-sort_iff p xs = (
  all-within p xs (sort_strings xs) (λ a. (In-sort_strings a xs).1),
  all-within p (sort_strings xs) xs (λ a. (In-sort_strings a xs).0),
)

check_fronted_mint-reaches :
    (m : ScopeMap) (subject : Set) (ts : List String)
    → check_fronted_mint m subject ts ≡ (if all (reaches m subject) ts then some ts else none)
unfolding check_fronted_mint required_source_scopes_for_targets
check_fronted_mint-reaches m subject ts = ground (
  arith,
  all-sort_iff (contains subject) (sources_for m [] ts),
  all-sources_for m subject [] ts,
  reached-mapped m subject ts,
)

all-default :
    (m : ScopeMap) (subject : Set) (ts : List String)
    → all (contains (fronted_mint_targets_for m subject)) ts ≡ all (reaches m subject) ts
all-default m subject [] = refl
all-default m subject (t ∷ ts) = ground (
  arith,
  contains_iff (fronted_mint_targets_for m subject) t,
  In-fronted_mint_targets_for m subject t,
  all-default m subject ts,
)

pub all-contained :
    (ys zs : List String) → ((a : String) → In a zs → In a ys) → all (contains ys) zs ≡ true
all-contained ys [] sub = refl
all-contained ys (z ∷ zs) sub =
    ground (arith, contains_iff ys z, sub z (inl refl), all-contained ys zs (λ a k. sub a (inr k)))

check_fronted_mint-within :
    (m : ScopeMap) (subject : Set) (ts : List String)
    → check_fronted_mint m subject ts
      ≡ (if all (contains (fronted_mint_targets_for m subject)) ts then some ts else none)
check_fronted_mint-within m subject ts =
    ground (arith, check_fronted_mint-reaches m subject ts, all-default m subject ts)

-- A fronted mint exchange that names scopes is granted them when the list of default targets holds
-- each of them, and is refused otherwise; one that names none is granted that list, and is refused
-- when it is empty. So the gate never refuses a default, and an omitted scope gives all that a
-- request could name and no more.
pub fronted_mint_scopes-exact :
    (m : ScopeMap) (subject : Set) (t : String) (ts : List String)
    → (fronted_mint_scopes m subject (t ∷ ts) ≡ (
        if all (contains (fronted_mint_targets_for m subject)) (t ∷ ts)
        then some (t ∷ ts)
        else none))
      × (fronted_mint_scopes m subject [] ≡ (
          if is_empty (fronted_mint_targets_for m subject)
          then none
          else some (fronted_mint_targets_for m subject)))
unfolding fronted_mint_scopes
fronted_mint_scopes-exact m subject t ts = (
  check_fronted_mint-within m subject (t ∷ ts),
  ground (
    arith,
    check_fronted_mint-within m subject (fronted_mint_targets_for m subject),
    all-contained (fronted_mint_targets_for m subject) (fronted_mint_targets_for m subject)
        (λ a k. k),
  ),
)
