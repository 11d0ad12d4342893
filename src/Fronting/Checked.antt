-- ===== src/Fronting/Checked.antt =====
-- What a link that passes the checks of `FrontingService` has, and that the checks write nothing.
use authserver.Common.{
  String, false, List, none, some, ◌≡◌, ◌≢◌, refl, ◌⊎◌, inl, inr, arith, Bool-cases, Option-cases,
  eq_iff,
}
use authserver.Domain.Errors.{
  Error, internal, invalid_request, fronting_link_exists, fronting_link_cycle,
}
use authserver.Domain.Resources.{Resource}
use authserver.Domain.FrontingLinks.{FrontingLink, validate_link}
use authserver.Store.Table.{find}
use authserver.Store.Resources
use authserver.Store.Links
use authserver.Store.Links.{has_slug, joins}
use authserver.Store.Monad.{World, Outside, ok, err, get_resource, get_link, list_links}
use authserver.Fronting.Cycle.{
  assert_no_cycle, search, Verdict, no_cycle, closes_cycle, out_of_fuel, failed, conclude, walk,
}
use authserver.Fronting.Rules.{validate, check_link, check_ends, lookup_resource, assert_unique}

-- Both ends of a link are resources that its scope map fits.
pub record Fits (rs : List Resource) (l : FrontingLink) : Type 0 where
  pub source : Resource
  pub target : Resource
  pub from_source : find (has_slug l.source_slug) rs ≡ some source
  pub to_target : find (has_slug l.target_slug) rs ≡ some target
  pub ends_fit : check_ends l.scope_map source target ≡ none

module _ (o : Outside) (l : FrontingLink) (w : World) where
  lookup-cases :
      (slug : String)
      → ((r : Resource) × (find (has_slug slug) w.resources ≡ some r)
          × (lookup_resource o slug w ≡ ok r w))
        ⊎ ((e : Error) × (lookup_resource o slug w ≡ err e w))
  unfolding lookup_resource Resources.get_by_slug
  lookup-cases slug = elim (Bool-cases (o.fails get_resource)) [
    | inl p ↦ inr (internal, ground (arith, p))
    | inr p ↦ elim (Option-cases (find (has_slug slug) w.resources)) [
      | inl q ↦ inr (invalid_request, ground (arith, p, q))
      | inr (r, q) ↦ inl (r, q, ground (arith, p, q))
    ]
  ]

  pub check_link-cases :
      (Fits w.resources l × (validate_link l ≡ none) × (check_link o l w ≡ ok tt w))
      ⊎ ((e : Error) × (check_link o l w ≡ err e w))
  unfolding check_link
  check_link-cases = elim (Option-cases (validate_link l)) [
    | inr (e, p) ↦ inr (e, ground (arith, p))
    | inl p ↦ elim (lookup-cases l.source_slug) [
      | inr (e, q) ↦ inr (e, ground (arith, p, q))
      | inl (s, f, q) ↦ elim (lookup-cases l.target_slug) [
        | inr (e, r) ↦ inr (e, ground (arith, p, q, r))
        | inl (t, g, r) ↦ elim (Option-cases (check_ends l.scope_map s t)) [
          | inr (e, c) ↦ inr (e, ground (arith, p, q, r, c))
          | inl c ↦ inl (
            record { source = s; target = t; from_source = f; to_target = g; ends_fit = c },
            p,
            ground (arith, p, q, r, c),
          )
        ]
      ]
    ]
  ]

  unique-cases :
      ((find (joins l.source_slug l.target_slug) w.links ≡ none) × (assert_unique o l w ≡ ok tt w))
      ⊎ ((e : Error) × (assert_unique o l w ≡ err e w))
  unfolding assert_unique Links.get
  unique-cases = elim (Bool-cases (o.fails get_link)) [
    | inl p ↦ inr (internal, ground (arith, p))
    | inr p ↦ elim (Option-cases (find (joins l.source_slug l.target_slug) w.links)) [
      | inl q ↦ inl (q, ground (arith, p, q))
      | inr (r, q) ↦ inr (fronting_link_exists, ground (arith, p, q))
    ]
  ]

  conclude-cases :
      (v : Verdict) → (conclude v w ≡ ok tt w) ⊎ ((e : Error) × (conclude v w ≡ err e w))
  conclude-cases no_cycle = inl refl
  conclude-cases closes_cycle = inr (fronting_link_cycle, refl)
  conclude-cases out_of_fuel = inr (internal, refl)
  conclude-cases (failed e) = inr (e, refl)

  -- Every check that a new link passes.
  pub record Valid : Type 0 where
    pub fits : Fits w.resources l
    pub well_formed : validate_link l ≡ none
    pub is_new : find (joins l.source_slug l.target_slug) w.links ≡ none
    pub no_cycle : assert_no_cycle o l.source_slug l.target_slug w ≡ ok tt w

  pub validate-cases :
      (Valid × (validate o (some l) w ≡ ok tt w))
      ⊎ ((e : Error) × (validate o (some l) w ≡ err e w))
  unfolding validate assert_no_cycle
  validate-cases = elim check_link-cases [
    | inr (e, p) ↦ inr (e, ground (arith, p))
    | inl (f, v, p) ↦ elim unique-cases [
      | inr (e, q) ↦ inr (e, ground (arith, p, q))
      | inl (n, q) ↦ elim (conclude-cases (search o l.source_slug w l.target_slug)) [
        | inr (e, r) ↦ inr (e, ground (arith, p, q, r))
        | inl r ↦ inl (
          record { fits = f; well_formed = v; is_new = n; no_cycle = r },
          ground (arith, p, q, r),
        )
      ]
    ]
  ]

  -- A search that succeeds had an answer from the store.
  pub assert_no_cycle-works :
      (source target : String)
      → assert_no_cycle o source target w ≡ ok tt w
      → o.fails list_links ≡ false
  unfolding assert_no_cycle search walk Links.list
  assert_no_cycle-works source target h = elim (Bool-cases (o.fails list_links)) [
    | inl p ↦ ground (arith, p, h)
    | inr p ↦ p
  ]

  -- The slugs of a well-formed link are two names.
  pub validate_link-names :
      validate_link l ≡ none → (l.target_slug ≢ "") × (l.target_slug ≢ l.source_slug)
  unfolding validate_link
  validate_link-names h =
      ground (arith, h, eq_iff l.target_slug "", eq_iff l.source_slug l.target_slug)
