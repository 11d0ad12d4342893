-- ===== src/TokenExchange/Tests.antt =====
-- A scope map in which two sources reach one target, and the theorems at it.
use authserver.Common.{[], ◌∷◌, none, some, ◌≡◌, refl, contains, add_key, sort_strings}
use authserver.Domain.FrontingLinks.{ScopeMap, values_from, add_values}
use authserver.Scope.{Set}
use authserver.TokenExchange.Gates.{
  fronted_mint_scopes, fronted_broker_scopes, validate_broker_targets, sources_of,
}
use authserver.TokenExchange.Defaults.{fronted_mint_scopes-exact}
use authserver.TokenExchange.Covered.{fronted_broker_scopes-exact}

abbrev tools : ScopeMap
tools =
    record { source = "b"; targets = "mail" ∷ "files" ∷ [] }
    ∷ record { source = "a"; targets = "mail" ∷ [] }
    ∷ []

abbrev holds_b : Set
holds_b = "b" ∷ []

mint_needs_smallest : fronted_mint_scopes tools holds_b ("mail" ∷ []) ≡ none
unfolding fronted_mint_scopes values_from sources_of sort_strings add_key contains
mint_needs_smallest = refl

mint_default : fronted_mint_scopes tools holds_b [] ≡ some ("files" ∷ [])
unfolding fronted_mint_scopes values_from sources_of sort_strings add_key contains
mint_default = refl

broker_takes_any : fronted_broker_scopes tools holds_b ("mail" ∷ []) ≡ some ("mail" ∷ [])
unfolding fronted_broker_scopes values_from add_values sources_of sort_strings add_key contains
broker_takes_any = refl

-- One request may have a target without a source and one without a source that the subject holds.
both_gaps :
    validate_broker_targets tools ("none" ∷ "mail" ∷ []) []
    ≡ record { valid = []; unmapped = "none" ∷ []; missing_coverage = "mail" ∷ [] }
unfolding validate_broker_targets sources_of contains
both_gaps = refl

fronted_mint_scopes-exact_example :
    (fronted_mint_scopes tools holds_b ("files" ∷ []) ≡ some ("files" ∷ []))
    × (fronted_mint_scopes tools holds_b [] ≡ some ("files" ∷ []))
unfolding fronted_mint_scopes values_from sources_of sort_strings add_key contains
fronted_mint_scopes-exact_example = fronted_mint_scopes-exact tools holds_b "files" []

fronted_broker_scopes-exact_example :
    (fronted_broker_scopes tools holds_b ("mail" ∷ "mail" ∷ []) ≡ some ("mail" ∷ []))
    × (fronted_broker_scopes tools holds_b [] ≡ some ("files" ∷ "mail" ∷ []))
unfolding fronted_broker_scopes values_from add_values sources_of sort_strings add_key contains
fronted_broker_scopes-exact_example = fronted_broker_scopes-exact tools holds_b "mail" ("mail" ∷ [])
