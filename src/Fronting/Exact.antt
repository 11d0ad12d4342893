-- ===== src/Fronting/Exact.antt =====
-- `assertNoCycle` ends, and refuses a link exactly when it would close a cycle.
use authserver.Common.{
  String, ℕ, suc, zero, ◌+◌, ◌≤◌, false, List, [], ◌∷◌, none, some, ◌≡◌, ◌≢◌, refl, ◌⊎◌, ◌↔◌, inl,
  inr, In, arith, length, Bool-cases, Option-cases, subst, sym, In-keep, keep-In, eq_iff, keep,
}
use authserver.Domain.Errors.{fronting_link_cycle}
use authserver.Domain.FrontingLinks.{FrontingLink}
use authserver.Store.Sorting.{order_by, page, In-order_by}
use authserver.Store.Links
use authserver.Store.Links.{admits, link_le}
use authserver.Store.Monad.{World, Outside, list_links, ok, err}
use authserver.Fronting.Cycle.{
  Search, Verdict, scan, walk, search, from_source, no_cycle, closes_cycle, assert_no_cycle,
  out_of_fuel,
}
use authserver.Fronting.Walks.{Walk, one, more, Leads, Leads-step}
use authserver.Fronting.Search.{
  Target, fresh, length-fresh, scan-visited, scan-stack, scan-clear, scan-found, scan-work,
}

-- What the store gives for one node.
abbrev edges_of : List FrontingLink → String → List FrontingLink
edges_of ls node = order_by link_le (keep (admits (from_source node)) ls)

In-edges :
    (ls : List FrontingLink) (node : String) (l : FrontingLink)
    → node ≢ ""
    → In l (edges_of ls node) ↔ (In l ls × (l.source_slug ≡ node))
In-edges ls node l h =
    let (back, forth) = In-order_by link_le l (keep (admits (from_source node)) ls) in
    (
      λ m.
          let (k, t) = In-keep (admits (from_source node)) l ls (back m) in
          (k, ground (arith, t, eq_iff node "", eq_iff l.source_slug node)),
      λ m. forth (
          keep-In (admits (from_source node)) l ls m.0
            (ground (arith, m.1, eq_iff l.source_slug node))),
    )

module _ (ls : List FrontingLink) (source target : String) where
  record Inv (stack visited : List String) : Type 0 where
    start : In target visited
    reached : (x : String) → In x visited → Leads ls target x
    waiting : (x : String) → In x stack → In x visited
    closed :
        (l : FrontingLink)
        → In l ls
        → In l.source_slug visited
        → In l.source_slug stack ⊎ (l.target_slug ≢ source) × In l.target_slug visited

  Inv-start : Inv (target ∷ []) (target ∷ [])
  Inv-start = record {
    start = inl refl;
    reached = λ x m. elim m [ inl e ↦ inl e | inr k ↦ absurd k ];
    waiting = λ x m. m;
    closed = λ l i m. inl m;
  }

  Inv-named :
      ((l : FrontingLink) → In l ls → l.target_slug ≢ "")
      → target ≢ ""
      → (x : String) → Leads ls target x
      → x ≢ ""
  Inv-named named h x (inl e) = subst (λ y. y ≢ "") e h
  Inv-named named h x (inr (one (l, m, p, q))) = subst (λ y. y ≢ "") q (named l m)
  Inv-named named h x (inr (more w (l, m, p, q))) = subst (λ y. y ≢ "") q (named l m)

  Inv-round :
      (node : String) (stack visited : List String) (t : Search)
      → node ≢ ""
      → Inv (node ∷ stack) visited
      → scan source (edges_of ls node) (record { visited = visited; stack = stack }) ≡ some t
      → Inv t.stack t.visited
  Inv-round node stack visited t h inv e = record {
    start = (seen target).1 (inl inv.start);
    reached = λ x m. elim ((seen x).0 m) [
      | inl v ↦ inv.reached x v
      | inr (l, i, q) ↦
          let (k, p) = (In-edges ls node l h).0 i in
          inr (Leads-step (inv.reached node (inv.waiting node (inl refl))) (l, k, p, q))
    ];
    waiting = λ x m. elim ((stacked x).0 m) [
      | inl k ↦ (seen x).1 (inl (inv.waiting x (inr k)))
      | inr v ↦ v
    ];
    closed = λ l m v. elim ((stacked l.source_slug).2 v) [
      | inr k ↦ inl k
      | inl old ↦ elim (inv.closed l m old) [
        | inl (inl p) ↦
            let i = (In-edges ls node l h).1 (m, sym p) in
            inr (
              scan-clear source (edges_of ls node) s t l e i,
              (seen l.target_slug).1 (inr (l, i, refl)),
            )
        | inl (inr k) ↦ inl ((stacked l.source_slug).1 k)
        | inr (apart, k) ↦ inr (apart, (seen l.target_slug).1 (inl k))
      ]
    ];
  }
    where
      s : Search
      s = record { visited = visited; stack = stack }

      seen : (x : String) → In x t.visited ↔ (In x visited ⊎ Target (edges_of ls node) x)
      seen x = scan-visited source (edges_of ls node) s t x e

      stacked :
          (x : String)
          → (In x t.stack → In x stack ⊎ In x t.visited)
            × (In x stack → In x t.stack)
            × (In x t.visited → In x visited ⊎ In x t.stack)
      stacked x = scan-stack source (edges_of ls node) s t x e

  -- With an empty stack all that the target leads to is visited, and the source is not among it.
  Inv-done :
      (visited : List String)
      → Inv [] visited
      → (x : String) → Walk ls target x
      → (x ≢ source) × In x visited
  Inv-done visited inv x (one (l, m, p, q)) =
      elim (inv.closed l m (subst (λ y. In y visited) (sym p) inv.start)) [
        | inl k ↦ absurd k
        | inr (apart, v) ↦ (subst (λ y. y ≢ source) q apart, subst (λ y. In y visited) q v)
      ]
  Inv-done visited inv x (more {b} w (l, m, p, q)) =
      elim (inv.closed l m (subst (λ y. In y visited) (sym p) (Inv-done visited inv b w).1)) [
        | inl k ↦ absurd k
        | inr (apart, v) ↦ (subst (λ y. y ≢ source) q apart, subst (λ y. In y visited) q v)
      ]

-- What a search from `target` for `source` over the links of `w` comes to.
data Decides (w : World) (source target : String) (v : Verdict) : Type 0 where
  cyclic : v ≡ closes_cycle → Walk w.links target source → Decides w source target v
  acyclic : v ≡ no_cycle → ¬ Walk w.links target source → Decides w source target v

module _ (o : Outside) (w : World) (source target : String) (works : o.fails list_links ≡ false)
    (named : (l : FrontingLink) → In l w.links → l.target_slug ≢ "") (given : target ≢ "") where
  walk-found :
      (fuel : ℕ) (node : String) (stack visited : List String)
      → scan source (edges_of w.links node) (record { visited = visited; stack = stack }) ≡ none
      → walk o source w (suc fuel) (node ∷ stack) visited ≡ closes_cycle
  unfolding walk Links.list page
  walk-found fuel node stack visited e = ground (arith, works, e)

  walk-round :
      (fuel : ℕ) (node : String) (stack visited : List String) (t : Search)
      → scan source (edges_of w.links node) (record { visited = visited; stack = stack }) ≡ some t
      → walk o source w (suc fuel) (node ∷ stack) visited ≡ walk o source w fuel t.stack t.visited
  unfolding walk Links.list page
  walk-round fuel node stack visited t e = ground (arith, works, e)

  walk-Decides :
      (fuel : ℕ) (stack visited : List String)
      → Inv w.links source target stack visited
      → fresh w.links visited + length stack ≤ fuel
      → Decides w source target (walk o source w fuel stack visited)
  unfolding walk
  walk-Decides zero [] visited inv h =
      acyclic refl (λ p. (Inv-done w.links source target visited inv source p).0 refl)
  walk-Decides (suc fuel) [] visited inv h =
      acyclic refl (λ p. (Inv-done w.links source target visited inv source p).0 refl)
  walk-Decides zero (node ∷ stack) visited inv h = absurd (omega arith)
  walk-Decides (suc fuel) (node ∷ stack) visited inv h =
      let there =
        Inv-named w.links source target named given node
          (inv.reached node (inv.waiting node (inl refl))) in
      let s : Search = record { visited = visited; stack = stack } in
      elim (Option-cases (scan source (edges_of w.links node) s)) [
        | inl e ↦
            let (l, i, q) = scan-found source (edges_of w.links node) s e in
            let (m, p) = (In-edges w.links node l there).0 i in
            cyclic (walk-found fuel node stack visited e)
              (Leads-step (inv.reached node (inv.waiting node (inl refl))) (l, m, p, q))
        | inr (t, e) ↦ rw (walk-round fuel node stack visited t e) (
            walk-Decides fuel t.stack t.visited
              (Inv-round w.links source target node stack visited t there inv e)
              (omega (
                arith,
                scan-work w.links source (edges_of w.links node) s t
                    (λ l i. ((In-edges w.links node l there).0 i).0) e,
              )))
      ]

  search-Decides : Decides w source target (search o source w target)
  unfolding search
  search-Decides =
      walk-Decides (suc (length w.links)) (target ∷ []) (target ∷ [])
        (Inv-start w.links source target) (omega (arith, length-fresh w.links (target ∷ [])))

  -- The check of a new link refuses it exactly when a walk over the links leads from its target to
  -- its source, provided the store answers and no link has an empty target.
  pub assert_no_cycle_iff :
      ((assert_no_cycle o source target w ≡ err fronting_link_cycle w) ↔ Walk w.links target source)
      × ((assert_no_cycle o source target w ≡ ok tt w) ↔ (¬ Walk w.links target source))
  unfolding assert_no_cycle
  assert_no_cycle_iff = elim search-Decides [
    | cyclic e p ↦ rw e ((λ q. p, λ q. refl), (λ q. cc q, λ n. absurd (n p)))
    | acyclic e n ↦ rw e ((λ q. cc q, λ p. absurd (n p)), (λ q. n, λ p. refl))
  ]

module _ (o : Outside) (source : String) (w : World) where
  edges-known : (node : String) (l : FrontingLink) → In l (edges_of w.links node) → In l w.links
  edges-known node l m =
      (In-keep (admits (from_source node)) l w.links ((In-order_by link_le l _).0 m)).0

  walk_ends :
      (fuel : ℕ) (stack visited : List String)
      → fresh w.links visited + length stack ≤ fuel
      → walk o source w fuel stack visited ≢ out_of_fuel
  unfolding walk Links.list page
  walk_ends zero [] visited h e = cc e
  walk_ends (suc fuel) [] visited h e = cc e
  walk_ends zero (node ∷ stack) visited h e = absurd (omega arith)
  walk_ends (suc fuel) (node ∷ stack) visited h e =
      let s : Search = record { visited = visited; stack = stack } in
      elim (Bool-cases (o.fails list_links)) [
        | inl broken ↦ ground (arith, broken, e)
        | inr works ↦ elim (Option-cases (scan source (edges_of w.links node) s)) [
          | inl none_left ↦ ground (arith, works, none_left, e)
          | inr (t, more_left) ↦
              walk_ends fuel t.stack t.visited
                (omega (
                  arith,
                  scan-work w.links source (edges_of w.links node) s t (edges-known node) more_left,
                ))
                (ground (arith, works, more_left, e))
        ]
      ]

  -- The search ends by itself whatever the links are: one round for each link and one more are
  -- enough, also where the store fails.
  pub search_terminates : (target : String) → search o source w target ≢ out_of_fuel
  unfolding search
  search_terminates target =
      walk_ends (suc (length w.links)) (target ∷ []) (target ∷ [])
        (omega (arith, length-fresh w.links (target ∷ [])))
