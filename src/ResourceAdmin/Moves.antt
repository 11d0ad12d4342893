-- ===== src/ResourceAdmin/Moves.antt =====
-- A resource that is added or deleted leaves the links in order.
use authserver.Common.{
  String, Bool, true, false, List, [], ◌∷◌, none, some, ◌≡◌, refl, sym, subst, In, arith, keep, not,
  any, eq_iff, ◌==◌, ◌||◌,
}
use authserver.Domain.Resources.{Resource}
use authserver.Domain.FrontingLinks.{FrontingLink}
use authserver.Store.Table.{find, find-In, find-test, find-keep, keep-none}
use authserver.Store.Links.{has_slug, touches}
use authserver.Store.Resources.{has_id, has_references}
use authserver.Store.Monad.{World}
use authserver.Fronting.Sound.{Sound, Keyed}
use authserver.ResourceAdmin.Rows.{any-In, any-true, touches-source, touches-target}

-- A new row has an id and a slug of its own.
module _ (rs : List Resource) (ls : List FrontingLink) (r : Resource)
    (new : any (λ old. old.id == r.id || old.slug == r.slug) rs ≡ false) where
  own-slug :
      (slug : String) (x : Resource)
      → find (has_slug slug) rs ≡ some x
      → find (has_slug slug) (r ∷ rs) ≡ some x
  own-slug slug x f = ground (
    arith,
    f,
    any-In (λ old. old.id == r.id || old.slug == r.slug) x rs new (find-In (has_slug slug) x rs f),
    find-test (has_slug slug) x rs f,
    eq_iff x.slug slug,
    eq_iff x.slug r.slug,
    eq_iff r.slug slug,
  )

  own-id :
      (xs : List Resource)
      → any (λ old. old.id == r.id || old.slug == r.slug) xs ≡ false
      → find (has_id r.id) xs ≡ none
  own-id [] h = refl
  own-id (x ∷ xs) h = ground (arith, h, own-id xs)

  pub insert-Sound : Sound rs ls → Sound (r ∷ rs) ls
  insert-Sound s = record {
    keyed = (own-id rs new, s.keyed);
    acyclic = s.acyclic;
    well_formed = s.well_formed;
    fitting = λ l m.
        let f = s.fitting l m in
        record {
          source = f.source;
          target = f.target;
          from_source = own-slug l.source_slug f.source f.from_source;
          to_target = own-slug l.target_slug f.target f.to_target;
          ends_fit = f.ends_fit;
        };
  }

keep-Keyed : (p : Resource → Bool) (rs : List Resource) → Keyed rs → Keyed (keep p rs)
keep-Keyed p [] k = tt
keep-Keyed p (r ∷ rs) (n, k) = ground (arith, keep-none (has_id r.id) p rs n, keep-Keyed p rs k)

-- A row without references leaves.
module _ (w : World) (id : String) (unused : any (has_references w id) w.resources ≡ false) where
  left :
      (l : FrontingLink) (slug : String) (x : Resource)
      → In l w.links
      → touches slug l ≡ true
      → find (has_slug slug) w.resources ≡ some x
      → find (has_slug slug) (keep (λ r. not (has_id id r)) w.resources) ≡ some x
  left l slug x m t f =
      find-keep (has_slug slug) (λ r. not (has_id id r)) x w.resources f
        (ground (
          arith,
          any-In (has_references w id) x w.resources unused
              (find-In (has_slug slug) x w.resources f),
          any-true (touches x.slug) l w.links m (
              subst (λ z. touches z l ≡ true)
                (sym ((eq_iff x.slug slug).0 (find-test (has_slug slug) x w.resources f))) t),
        ))

  pub delete-Sound :
      Sound w.resources w.links → Sound (keep (λ r. not (has_id id r)) w.resources) w.links
  delete-Sound s = record {
    keyed = keep-Keyed (λ r. not (has_id id r)) w.resources s.keyed;
    acyclic = s.acyclic;
    well_formed = s.well_formed;
    fitting = λ l m.
        let f = s.fitting l m in
        record {
          source = f.source;
          target = f.target;
          from_source = left l l.source_slug f.source m (touches-source l) f.from_source;
          to_target = left l l.target_slug f.target m (touches-target l) f.to_target;
          ends_fit = f.ends_fit;
        };
  }
