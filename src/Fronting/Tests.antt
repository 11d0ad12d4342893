-- ===== src/Fronting/Tests.antt =====
-- Runs of the cycle check, and the theorems at concrete links.
use authserver.Common.{String, [], ◌∷◌, ◌≡◌, ◌≢◌, refl, ◌↔◌, inl, inr, In, subst}
use authserver.Domain.Errors.{fronting_link_cycle}
use authserver.Domain.FrontingLinks.{FrontingLink}
use authserver.Store.Links
use authserver.Store.Sorting.{order_by, page}
use authserver.Store.Monad.{World, ok, err}
use authserver.Token.Examples.{outside, world}
use authserver.Fronting.Cycle.{
  search, walk, scan, closes_cycle, no_cycle, out_of_fuel, assert_no_cycle,
}
use authserver.Fronting.Walks.{Walk, one, more}
use authserver.Fronting.Exact.{assert_no_cycle_iff, search_terminates}

abbrev link : String → String → FrontingLink
link s t = record {
  source_slug = s;
  target_slug = t;
  scope_map = record { source = "read"; targets = "read" ∷ [] } ∷ [];
  created_at = 0;
  created_by = "admin";
}

-- a → b → c
abbrev linked : World
linked = record world { links = link "b" "c" ∷ link "a" "b" ∷ [] }

-- A link from c to a would close a cycle, and one from a to c would not.
runs : (search outside "c" linked "a" ≡ closes_cycle) × (search outside "a" linked "c" ≡ no_cycle)
unfolding search walk scan authserver.Store.Links.list order_by page authserver.Common.contains
runs = (refl, refl)

search_terminates_example : search outside "a" linked "c" ≢ out_of_fuel
search_terminates_example = search_terminates outside "a" linked "c"

named : (l : FrontingLink) → In l linked.links → l.target_slug ≢ ""
named l (inl e) = subst (λ (x : FrontingLink). x.target_slug ≢ "") e (λ h. cc h)
named l (inr (inl e)) = subst (λ (x : FrontingLink). x.target_slug ≢ "") e (λ h. cc h)
named l (inr (inr m)) = absurd m

assert_no_cycle_iff_example :
    ((assert_no_cycle outside "c" "a" linked ≡ err fronting_link_cycle linked)
      ↔ Walk linked.links "a" "c")
    × ((assert_no_cycle outside "c" "a" linked ≡ ok tt linked) ↔ (¬ Walk linked.links "a" "c"))
assert_no_cycle_iff_example = assert_no_cycle_iff outside linked "c" "a" refl named (λ h. cc h)

-- The walk there is.
refused : assert_no_cycle outside "c" "a" linked ≡ err fronting_link_cycle linked
refused =
    assert_no_cycle_iff_example.0.1
      (more (one (link "a" "b", inr (inl refl), refl, refl)) (link "b" "c", inl refl, refl, refl))
