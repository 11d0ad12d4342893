-- ===== src/Fronting/Walks.antt =====
-- The graph of the fronting links, its walks, and what a new link does to them.
use authserver.Common.{String, List, ◌∷◌, ◌≡◌, refl, sym, ◌⊎◌, inl, inr, In, subst, ◌∙◌}
use authserver.Domain.FrontingLinks.{FrontingLink}

-- A link from `a` to `b`.
abbrev pub Edge : List FrontingLink → String → String → Type 0
Edge ls a b = (l : FrontingLink) × In l ls × (l.source_slug ≡ a) × (l.target_slug ≡ b)

-- The walks from `a` of one link or more.
pub data Walk (ls : List FrontingLink) (a : String) : String → Type 0 where
  one : {b : String} → Edge ls a b → Walk ls a b
  more : {b c : String} → Walk ls a b → Edge ls b c → Walk ls a c

-- A walk that may be empty.
abbrev pub Leads : List FrontingLink → String → String → Type 0
Leads ls a b = (a ≡ b) ⊎ Walk ls a b

abbrev pub Acyclic : List FrontingLink → Type 0
Acyclic ls = (a : String) → ¬ Walk ls a a

pub Walk-join : {ls : List FrontingLink} {a b c : String} → Walk ls a b → Walk ls b c → Walk ls a c
Walk-join p (one e) = more p e
Walk-join p (more q e) = more (Walk-join p q) e

pub Leads-Walk :
    {ls : List FrontingLink} {a b c : String} → Leads ls a b → Walk ls b c → Walk ls a c
Leads-Walk {ls} {a} {b} {c} (inl e) q = subst (λ x. Walk ls x c) (sym e) q
Leads-Walk (inr p) q = Walk-join p q

pub Leads-step :
    {ls : List FrontingLink} {a b c : String} → Leads ls a b → Edge ls b c → Walk ls a c
Leads-step p e = Leads-Walk p (one e)

-- Where the links are fewer, so are the walks.
pub Walk-mono :
    {ls ms : List FrontingLink} {a b : String}
    → ((a b : String) → Edge ls a b → Edge ms a b)
    → Walk ls a b
    → Walk ms a b
Walk-mono sub (one e) = one (sub _ _ e)
Walk-mono sub (more p e) = more (Walk-mono sub p) (sub _ _ e)

-- A walk over one more link does without it, or comes to its source and leaves its target.
pub Walk-split :
    (l : FrontingLink) (ls : List FrontingLink) {a b : String}
    → Walk (l ∷ ls) a b
    → Walk ls a b ⊎ Leads ls a l.source_slug × Leads ls l.target_slug b
Walk-split l ls (one (m, inl e, p, q)) = inr (
  inl (sym p ∙ subst (λ x. m.source_slug ≡ x.source_slug) (sym e) refl),
  inl (subst (λ x. x.target_slug ≡ m.target_slug) (sym e) refl ∙ q),
)
Walk-split l ls (one (m, inr h, p, q)) = inl (one (m, h, p, q))
Walk-split l ls {a} (more w (m, inl e, p, q)) =
    let last : Leads ls l.target_slug _ =
      inl (subst (λ x. x.target_slug ≡ m.target_slug) (sym e) refl ∙ q) in
    elim (Walk-split l ls w) [
      | inl old ↦ inr (
        inr (
            subst (λ x. Walk ls a x)
              (sym p ∙ subst (λ x. m.source_slug ≡ x.source_slug) (sym e) refl) old),
        last,
      )
      | inr (here, _) ↦ inr (here, last)
    ]
Walk-split l ls (more w (m, inr h, p, q)) = elim (Walk-split l ls w) [
  | inl old ↦ inl (more old (m, h, p, q))
  | inr (here, there) ↦ inr (here, inr (Leads-step there (m, h, p, q)))
]

-- A link closes a cycle exactly when its target already leads to its source.
pub Acyclic-cons :
    (l : FrontingLink) (ls : List FrontingLink)
    → Acyclic ls
    → ¬ Leads ls l.target_slug l.source_slug
    → Acyclic (l ∷ ls)
Acyclic-cons l ls acyclic apart a w = elim (Walk-split l ls w) [
  | inl old ↦ acyclic a old
  | inr (here, there) ↦ apart (joined there here)
]
  where
    joined :
        Leads ls l.target_slug a → Leads ls a l.source_slug → Leads ls l.target_slug l.source_slug
    joined (inl e) h = subst (λ x. Leads ls x l.source_slug) (sym e) h
    joined (inr p) (inl e) = inr (subst (λ x. Walk ls l.target_slug x) e p)
    joined (inr p) (inr q) = inr (Walk-join p q)
