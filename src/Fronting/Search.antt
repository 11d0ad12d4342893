-- ===== src/Fronting/Search.antt =====
-- The loop over the edges out of one node: what it visits, what it stacks, and that it makes
-- progress.
use authserver.Common.{
  String, ℕ, suc, ◌+◌, ◌≤◌, false, List, [], ◌∷◌, none, some, ◌≡◌, ◌≢◌, refl, ◌↔◌, ◌⊎◌, inl, inr,
  In, arith, contains, contains_iff, length, if◌then◌else◌, ◌==◌, eq_iff, Bool-cases, subst, sym,
}
use authserver.Domain.FrontingLinks.{FrontingLink}
use authserver.Fronting.Cycle.{Search, visit, scan}

-- Some link of the list leads to `x`.
abbrev pub Target : List FrontingLink → String → Type 0
Target ls x = (l : FrontingLink) × In l ls × (l.target_slug ≡ x)

visit-visited : (s : Search) (t x : String) → In x (visit s t).visited ↔ ((t ≡ x) ⊎ In x s.visited)
visit-visited s t x = elim (Bool-cases (contains s.visited t)) [
  | inl p ↦ ground (arith, p, contains_iff s.visited t)
  | inr p ↦ ground (arith, p)
]

-- What a round that finds no cycle knows of its first edge, and the round after it.
scan-cons :
    (source : String) (e : FrontingLink) (out : List FrontingLink) (s t : Search)
    → scan source (e ∷ out) s ≡ some t
    → (e.target_slug ≢ source) × (scan source out (visit s e.target_slug) ≡ some t)
unfolding scan
scan-cons source e out s t h = elim (Bool-cases (e.target_slug == source)) [
  | inl p ↦ cc (rw p at h)
  | inr p ↦ (ground (arith, p, eq_iff e.target_slug source), rw p at h)
]

scan-nil : (source : String) (s t : Search) → scan source [] s ≡ some t → s ≡ t
unfolding scan
scan-nil source s t h = ground (arith, h)

pub scan-visited :
    (source : String) (out : List FrontingLink) (s t : Search) (x : String)
    → scan source out s ≡ some t
    → In x t.visited ↔ (In x s.visited ⊎ Target out x)
scan-visited source [] s t x h =
    let e = scan-nil source s t h in
    (
      λ m. inl (subst (λ u. In x u.visited) (sym e) m),
      λ m. elim m [ inl v ↦ subst (λ u. In x u.visited) e v | inr (l, i, q) ↦ absurd i ],
    )
scan-visited source (e ∷ out) s t x h =
    let (_, rest) = scan-cons source e out s t h in
    let (back, forth) = scan-visited source out (visit s e.target_slug) t x rest in
    let (left, right) = visit-visited s e.target_slug x in
    (
      λ m. elim (back m) [
        | inl v ↦ elim (left v) [ inl q ↦ inr (e, inl refl, q) | inr k ↦ inl k ]
        | inr (l, i, q) ↦ inr (l, inr i, q)
      ],
      λ m. elim m [
        | inl v ↦ forth (inl (right (inr v)))
        | inr (l, inl i, q) ↦ forth (inl (right (inl (subst (λ k. k.target_slug ≡ x) (sym i) q))))
        | inr (l, inr i, q) ↦ forth (inr (l, i, q))
      ],
    )

visit-stack :
    (s : Search) (t x : String)
    → (In x (visit s t).stack → In x s.stack ⊎ In x (visit s t).visited)
      × (In x s.stack → In x (visit s t).stack)
      × (In x (visit s t).visited → In x s.visited ⊎ In x (visit s t).stack)
visit-stack s t x = elim (Bool-cases (contains s.visited t)) [
  | inl p ↦ ground (arith, p)
  | inr p ↦ ground (arith, p)
]

-- The stack grows by what is visited for the first time.
pub scan-stack :
    (source : String) (out : List FrontingLink) (s t : Search) (x : String)
    → scan source out s ≡ some t
    → (In x t.stack → In x s.stack ⊎ In x t.visited)
      × (In x s.stack → In x t.stack)
      × (In x t.visited → In x s.visited ⊎ In x t.stack)
scan-stack source [] s t x h = rw (← scan-nil source s t h) (λ m. inl m, λ m. m, λ m. inl m)
scan-stack source (e ∷ out) s t x h =
    let (_, rest) = scan-cons source e out s t h in
    ground (
      arith,
      scan-stack source out (visit s e.target_slug) t x rest,
      visit-stack s e.target_slug x,
      (scan-visited source out (visit s e.target_slug) t x rest).1,
    )

pub scan-clear :
    (source : String) (out : List FrontingLink) (s t : Search) (l : FrontingLink)
    → scan source out s ≡ some t
    → In l out
    → l.target_slug ≢ source
scan-clear source [] s t l h m = absurd m
scan-clear source (e ∷ out) s t l h (inl i) =
    subst (λ k. k.target_slug ≢ source) i (scan-cons source e out s t h).0
scan-clear source (e ∷ out) s t l h (inr m) =
    scan-clear source out (visit s e.target_slug) t l (scan-cons source e out s t h).1 m

pub scan-found :
    (source : String) (out : List FrontingLink) (s : Search)
    → scan source out s ≡ none
    → Target out source
unfolding scan
scan-found source [] s h = ground (arith, h)
scan-found source (e ∷ out) s h = elim (Bool-cases (e.target_slug == source)) [
  | inl p ↦ (e, inl refl, (eq_iff e.target_slug source).0 p)
  | inr p ↦
      let (l, m, q) = scan-found source out (visit s e.target_slug) (rw p at h) in (l, inr m, q)
]

-- The links whose target is still to be visited.
abbrev pub fresh : List FrontingLink → List String → ℕ
fresh [] visited = 0
fresh (l ∷ ls) visited = (if contains visited l.target_slug then 0 else 1) + fresh ls visited

fresh-cons-le :
    (ls : List FrontingLink) (t : String) (visited : List String)
    → fresh ls (t ∷ visited) ≤ fresh ls visited
unfolding contains
fresh-cons-le [] t visited = omega arith
fresh-cons-le (l ∷ ls) t visited = ground (arith, fresh-cons-le ls t visited)

fresh-visited :
    (ls : List FrontingLink) (l : FrontingLink) (visited : List String)
    → In l ls
    → contains visited l.target_slug ≡ false
    → suc (fresh ls (l.target_slug ∷ visited)) ≤ fresh ls visited
unfolding contains
fresh-visited [] l visited m h = absurd m
fresh-visited (k ∷ ls) l visited (inl e) h =
    subst (λ j. suc (fresh (j ∷ ls) (l.target_slug ∷ visited)) ≤ fresh (j ∷ ls) visited) (sym e)
      (ground
        (arith, h, fresh-cons-le ls l.target_slug visited, eq_iff l.target_slug l.target_slug))
fresh-visited (k ∷ ls) l visited (inr m) h = ground (arith, fresh-visited ls l visited m h)

pub length-fresh : (ls : List FrontingLink) (visited : List String) → fresh ls visited ≤ length ls
length-fresh [] visited = omega arith
length-fresh (l ∷ ls) visited = ground (arith, length-fresh ls visited)

visit-work :
    (ls : List FrontingLink) (l : FrontingLink) (s : Search)
    → In l ls
    → fresh ls (visit s l.target_slug).visited + length (visit s l.target_slug).stack
      ≤ fresh ls s.visited + length s.stack
visit-work ls l s m = elim (Bool-cases (contains s.visited l.target_slug)) [
  | inl p ↦ ground (arith, p)
  | inr p ↦ ground (arith, p, fresh-visited ls l s.visited m p)
]

-- A round stacks no more than it takes from the links that are still fresh.
pub scan-work :
    (ls : List FrontingLink) (source : String) (out : List FrontingLink) (s t : Search)
    → ((l : FrontingLink) → In l out → In l ls)
    → scan source out s ≡ some t
    → fresh ls t.visited + length t.stack ≤ fresh ls s.visited + length s.stack
scan-work ls source [] s t sub h = rw (← scan-nil source s t h) (omega arith)
scan-work ls source (e ∷ out) s t sub h = omega (
  arith,
  visit-work ls e s (sub e (inl refl)),
  scan-work ls source out (visit s e.target_slug) t (λ l m. sub l (inr m))
      (scan-cons source e out s t h).1,
)
