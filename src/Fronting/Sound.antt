-- ===== src/Fronting/Sound.antt =====
-- The administration of fronting links keeps their graph without cycles and their scope maps within
-- the scopes of the resources they join.
use authserver.Common.{
  [], none, String, ℕ, Bool, true, false, List, ◌∷◌, none, ◌≡◌, refl, sym, subst, inl, inr, In,
  arith, Bool-cases, ap, ◌∙◌, eq_iff,
}
use authserver.Domain.Resources.{Resource}
use authserver.Domain.FrontingLinks.{FrontingLink, validate_link}
use authserver.Store.Resources.{has_id}
use authserver.Store.Table.{find, update, change, In-update}
use authserver.Store.Links.{joins}
use authserver.Store.Monad.{World, Outside, Keeps, AuditEvent}
use authserver.Fronting.Walks.{one, more, Edge, Leads, Acyclic, Acyclic-cons, Walk-mono}
use authserver.Fronting.Exact.{assert_no_cycle_iff}
use authserver.Fronting.Checked.{Fits, Valid, assert_no_cycle-works, validate_link-names}
use authserver.Fronting.Service.{audited}

-- No id stands twice.
abbrev pub Keyed : List Resource → Type 0
Keyed [] = Unit {0}
Keyed (r ∷ rs) = (find (has_id r.id) rs ≡ none) × Keyed rs

-- The resources and the links of a database are in order.
pub record Sound (rs : List Resource) (ls : List FrontingLink) : Type 0 where
  pub keyed : Keyed rs
  pub acyclic : Acyclic ls
  pub well_formed : (l : FrontingLink) → In l ls → validate_link l ≡ none
  pub fitting : (l : FrontingLink) → In l ls → Fits rs l

abbrev pub InOrder : World → Type 0
InOrder w = Sound w.resources w.links

-- Without links there is nothing but the ids to see to.
pub no_links-Sound : (rs : List Resource) → Keyed rs → Sound rs []
no_links-Sound rs k = record {
  keyed = k;
  acyclic = λ a p. elim p [ one (l, m, q, r) ↦ absurd m | more w (l, m, q, r) ↦ absurd m ];
  well_formed = λ l m. absurd m;
  fitting = λ l m. absurd m;
}

abbrev pub stamped : FrontingLink → ℕ → String → FrontingLink
stamped l now actor = record l { created_at = now; created_by = actor }

pub stamped-Fits :
    (rs : List Resource) (l : FrontingLink) (now : ℕ) (actor : String)
    → Fits rs l
    → Fits rs (stamped l now actor)
stamped-Fits rs l now actor f = record {
  source = f.source;
  target = f.target;
  from_source = f.from_source;
  to_target = f.to_target;
  ends_fit = f.ends_fit;
}

module _ (o : Outside) (w : World) (l : FrontingLink) where
  Valid-apart : InOrder w → Valid o l w → ¬ Leads w.links l.target_slug l.source_slug
  Valid-apart s v (inl e) = (validate_link-names o l w v.well_formed).1 e
  Valid-apart s v (inr p) =
      let works = assert_no_cycle-works o l w l.source_slug l.target_slug v.no_cycle in
      (assert_no_cycle_iff o w l.source_slug l.target_slug works
          (λ k m. (validate_link-names o k w (s.well_formed k m)).0)
          (validate_link-names o l w v.well_formed).0).1.0
        v.no_cycle p

  pub Sound-cons :
      (now : ℕ) (actor : String)
      → InOrder w
      → Valid o l w
      → Sound w.resources (stamped l now actor ∷ w.links)
  unfolding validate_link
  Sound-cons now actor s v = record {
    keyed = s.keyed;
    acyclic = Acyclic-cons (stamped l now actor) w.links s.acyclic (Valid-apart s v);
    well_formed = λ k m. elim m [
      | inl e ↦ subst (λ x. validate_link x ≡ none) e v.well_formed
      | inr i ↦ s.well_formed k i
    ];
    fitting = λ k m. elim m [
      | inl e ↦ subst (λ x. Fits w.resources x) e (stamped-Fits w.resources l now actor v.fits)
      | inr i ↦ s.fitting k i
    ];
  }

-- Fewer links are in order too.
pub Sound-sub :
    (rs : List Resource) (ls ms : List FrontingLink)
    → ((l : FrontingLink) → In l ms → In l ls)
    → Sound rs ls
    → Sound rs ms
Sound-sub rs ls ms sub s = record {
  keyed = s.keyed;
  acyclic = λ a p. s.acyclic a (Walk-mono (λ x y (l, m, e, f). (l, sub l m, e, f)) p);
  well_formed = λ l m. s.well_formed l (sub l m);
  fitting = λ l m. s.fitting l (sub l m);
}

pub audited-Keeps : (b : Bool) (ev : AuditEvent) → Keeps InOrder (audited b ev)
audited-Keeps true ev = record { apply = λ w h. h }
audited-Keeps false ev = record { apply = λ w h. h }

-- A link with another scope map that passes the checks.
module _ (rs : List Resource) (c : FrontingLink) (fits : Fits rs c)
    (valid : validate_link c ≡ none) where
  abbrev remap : FrontingLink → FrontingLink
  remap l = record l { scope_map = c.scope_map }

  remapped :
      (l : FrontingLink)
      → joins c.source_slug c.target_slug l ≡ true
      → (l.source_slug ≡ c.source_slug) × (l.target_slug ≡ c.target_slug)
  remapped l h =
      ground (arith, h, eq_iff l.source_slug c.source_slug, eq_iff l.target_slug c.target_slug)

  remap-valid :
      (l : FrontingLink)
      → joins c.source_slug c.target_slug l ≡ true
      → validate_link (remap l) ≡ none
  unfolding validate_link
  remap-valid l h = let (p, q) = remapped l h in rw (p, q) valid

  remap-Fits : (l : FrontingLink) → joins c.source_slug c.target_slug l ≡ true → Fits rs (remap l)
  remap-Fits l h =
      let (p, q) = remapped l h in
      record {
        source = fits.source;
        target = fits.target;
        from_source = rw p fits.from_source;
        to_target = rw q fits.to_target;
        ends_fit = fits.ends_fit;
      }

  change-same :
      (l : FrontingLink)
      → let k = change (joins c.source_slug c.target_slug) remap l in
        (k.source_slug ≡ l.source_slug) × (k.target_slug ≡ l.target_slug)
  change-same l = elim (Bool-cases (joins c.source_slug c.target_slug l)) [
    | inl p ↦ rw p (refl, refl)
    | inr p ↦ rw p (refl, refl)
  ]

  change-Sound :
      (ls : List FrontingLink) (l : FrontingLink)
      → Sound rs ls
      → In l ls
      → let k = change (joins c.source_slug c.target_slug) remap l in
        (validate_link k ≡ none) × Fits rs k
  change-Sound ls l s m = elim (Bool-cases (joins c.source_slug c.target_slug l)) [
    | inl p ↦ rw p (remap-valid l p, remap-Fits l p)
    | inr p ↦ rw p (s.well_formed l m, s.fitting l m)
  ]

  pub Sound-update :
      (ls : List FrontingLink)
      → Sound rs ls
      → Sound rs (update (joins c.source_slug c.target_slug) remap ls)
  Sound-update ls s = record {
    keyed = s.keyed;
    acyclic = λ a p. s.acyclic a (Walk-mono back p);
    well_formed = λ k m.
        let (l, i, e) = In-update (joins c.source_slug c.target_slug) remap k ls m in
        subst (λ x. validate_link x ≡ none) e (change-Sound ls l s i).0;
    fitting = λ k m.
        let (l, i, e) = In-update (joins c.source_slug c.target_slug) remap k ls m in
        subst (λ x. Fits rs x) e (change-Sound ls l s i).1;
  }
    where
      back :
          (a b : String)
          → Edge (update (joins c.source_slug c.target_slug) remap ls) a b
          → Edge ls a b
      back a b (k, m, p, q) =
          let (l, i, e) = In-update (joins c.source_slug c.target_slug) remap k ls m in
          (
            l,
            i,
            sym (change-same l).0 ∙ ap (λ x. x.source_slug) e ∙ p,
            sym (change-same l).1 ∙ ap (λ x. x.target_slug) e ∙ q,
          )
