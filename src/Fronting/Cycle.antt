-- ===== src/Fronting/Cycle.antt =====
-- `assertNoCycle` of internal/services/fronting.go: a depth-first search from the target of a new
-- link for its source. The top of the stack is the head of its list. The loop has fuel, with an
-- outcome of its own for its end.
use authserver.Common.{
  String, ℕ, zero, suc, List, [], ◌∷◌, Option, none, some, if◌then◌else◌, ◌==◌, contains, length,
}
use authserver.Domain.Errors.{Error, fronting_link_cycle, internal}
use authserver.Domain.FrontingLinks.{FrontingLink}
use authserver.Store.Links.{FrontingLinkFilter}
use authserver.Store.Links
use authserver.Store.Monad.{World, Outside, M, ok, err}

pub record Search : Type 0 where
  pub visited : List String
  pub stack : List String

abbrev pub visit : Search → String → Search
visit s t =
    if contains s.visited t then s else record { visited = t ∷ s.visited; stack = t ∷ s.stack }

-- The loop over the edges out of one node: `none` where an edge leads to the source.
unfoldable pub scan : String → List FrontingLink → Search → Option Search
scan source [] s = some s
scan source (e ∷ out) s =
    if e.target_slug == source then none else scan source out (visit s e.target_slug)

pub data Verdict : Type 0 where
  no_cycle closes_cycle out_of_fuel : Verdict
  failed : Error → Verdict

abbrev pub from_source : String → FrontingLinkFilter
from_source node = record { source = node; target = ""; limit = 0; offset = 0 }

module _ (o : Outside) (source : String) (w : World) where
  unfoldable pub walk : ℕ → List String → List String → Verdict
  walk fuel [] visited = no_cycle
  walk zero (node ∷ stack) visited = out_of_fuel
  walk (suc fuel) (node ∷ stack) visited = elim (Links.list o (from_source node) w) [
    | err e u ↦ failed e
    | ok out u ↦ elim (scan source out (record { visited = visited; stack = stack })) [
      | none ↦ closes_cycle
      | some s ↦ walk fuel s.stack s.visited
    ]
  ]

  -- Each round visits a target of some link, or the first node.
  unfoldable pub search : String → Verdict
  unfolding walk scan Links.list
  search target = walk (suc (length w.links)) (target ∷ []) (target ∷ [])

abbrev pub conclude : Verdict → M (Unit {0})
conclude no_cycle w = ok tt w
conclude closes_cycle w = err fronting_link_cycle w
conclude out_of_fuel w = err internal w
conclude (failed e) w = err e w

unfoldable pub assert_no_cycle : Outside → String → String → M (Unit {0})
assert_no_cycle o source target w = conclude (search o source w target) w
