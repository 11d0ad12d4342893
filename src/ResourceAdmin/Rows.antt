-- ===== src/ResourceAdmin/Rows.antt =====
-- A row of the resource table that is written leaves the links in order.
use authserver.Common.{
  String, Bool, true, false, List, [], ◌∷◌, none, some, ◌≡◌, refl, sym, ◌∙◌, ap, subst, ◌↔◌, inl,
  inr, In, arith, any, all, contains, Bool-cases, eq_iff, ◌==◌, ◌&&◌,
}
use authserver.Domain.Resources.{
  Resource, kind_is_mint, kind_is_broker, is_mint, is_broker, scope_name_set,
}
use authserver.Domain.FrontingLinks.{FrontingLink, ScopeMap}
use authserver.Store.Table.{
  find, update, change, find-In, find-test, find-update-rows, find-update-none,
}
use authserver.Store.Links.{has_slug, touches}
use authserver.Store.Resources.{has_id, strands, takes_slug}
use authserver.Fronting.Rules.{check_ends, assert_scope_map_membership, mapping_fits, can_be_target}
use authserver.Fronting.Checked.{Fits}
use authserver.Fronting.Sound.{Sound, Keyed}

-- What a scope map asks of its source, and of its target.
abbrev pub SourceFits : ScopeMap → Resource → Type 0
SourceFits m r =
    (kind_is_mint r.backend_kind ≡ true)
    × (all (λ e. contains (scope_name_set r.scopes) e.source) m ≡ true)

abbrev pub TargetFits : ScopeMap → Resource → Type 0
TargetFits m r =
    (can_be_target r.backend_kind ≡ true)
    × (all (λ e. all (contains (scope_name_set r.scopes)) e.targets) m ≡ true)
    × ((kind_is_broker r.backend_kind && r.broker_provider_id == "") ≡ false)

all-mapping_fits :
    (src tgt : List String) (m : ScopeMap)
    → (all (mapping_fits src tgt) m ≡ true) ↔ (
        (all (λ e. contains src e.source) m ≡ true)
        × (all (λ e. all (contains tgt) e.targets) m ≡ true))
all-mapping_fits src tgt [] = ground arith
all-mapping_fits src tgt (e ∷ m) = ground (arith, all-mapping_fits src tgt m)

check_ends_iff :
    (m : ScopeMap) (s t : Resource) → (check_ends m s t ≡ none) ↔ (SourceFits m s × TargetFits m t)
unfolding check_ends assert_scope_map_membership is_mint is_broker
check_ends_iff m s t =
    ground (arith, all-mapping_fits (scope_name_set s.scopes) (scope_name_set t.scopes) m)

find-none :
    {A : Type 0} (p : A → Bool) (x : A) (xs : List A) → In x xs → find p xs ≡ none → p x ≡ false
find-none p x [] m h = absurd m
find-none p x (y ∷ ys) m h = ground (arith, find-none p x ys)

pub Keyed-same :
    (rs : List Resource) (x y : Resource) → Keyed rs → In x rs → In y rs → x.id ≡ y.id → x ≡ y
Keyed-same [] x y k m n e = absurd m
Keyed-same (r ∷ rs) x y k (inl a) (inl b) e = sym a ∙ b
Keyed-same (r ∷ rs) x y k (inl a) (inr n) e =
    ground (
      arith,
      find-none (has_id r.id) y rs n k.0,
      ap (λ (z : Resource). z.id) a,
      e,
      eq_iff y.id r.id,
    )
Keyed-same (r ∷ rs) x y k (inr m) (inl b) e =
    ground (
      arith,
      find-none (has_id r.id) x rs m k.0,
      ap (λ (z : Resource). z.id) b,
      e,
      eq_iff x.id r.id,
    )
Keyed-same (r ∷ rs) x y k (inr m) (inr n) e = Keyed-same rs x y k.1 m n e

pub any-In :
    {A : Type 0} (p : A → Bool) (x : A) (xs : List A) → any p xs ≡ false → In x xs → p x ≡ false
any-In p x [] h m = absurd m
any-In p x (y ∷ ys) h m = ground (arith, any-In p x ys)

pub any-true :
    {A : Type 0} (p : A → Bool) (x : A) (xs : List A) → In x xs → p x ≡ true → any p xs ≡ true
any-true p x [] m h = absurd m
any-true p x (y ∷ ys) m h = ground (arith, any-true p x ys)

pub touches-source : (l : FrontingLink) → touches l.source_slug l ≡ true
touches-source l = ground (arith, eq_iff l.source_slug l.source_slug)

pub touches-target : (l : FrontingLink) → touches l.target_slug l ≡ true
touches-target l = ground (arith, eq_iff l.target_slug l.target_slug)

-- The row that an update writes.
module _ (rs : List Resource) (ls : List FrontingLink) (prev next : Resource) (keyed : Keyed rs)
    (there : In prev rs) (same : prev.id ≡ next.id)
    (free : any (takes_slug next.id next.slug) rs ≡ false)
    (held : any (strands ls next.id next.slug) rs ≡ false) where
  abbrev written : Resource → Resource
  written x = record next { created_at = x.created_at }

  abbrev after : Resource → Resource
  after x = change (has_id next.id) written x

  stays :
      (l : FrontingLink) (y : Resource)
      → In l ls
      → touches y.slug l ≡ true
      → In y rs
      → y.id ≡ next.id
      → y.slug ≡ next.slug
  stays l y m t i e = ground (
    arith,
    any-In (strands ls next.id next.slug) y rs held i,
    any-true (touches y.slug) l ls m t,
    eq_iff y.id next.id,
    eq_iff y.slug next.slug,
  )

  holder : (x : Resource) → In x rs → x.slug ≡ next.slug → x.id ≡ next.id
  holder x i e = ground (
    arith,
    any-In (takes_slug next.id next.slug) x rs free i,
    eq_iff x.id next.id,
    eq_iff x.slug next.slug,
  )

  -- A slug that a link names stands for the same row before and after.
  slug-kept :
      (l : FrontingLink) (slug : String) (x y : Resource)
      → In l ls
      → touches slug l ≡ true
      → find (has_slug slug) rs ≡ some x
      → In y rs
      → has_slug slug (after y) ≡ has_slug slug y
  slug-kept l slug x y m t f i = elim (Bool-cases (y.id == next.id)) [
    | inr p ↦ rw p refl
    | inl p ↦
        let id = (eq_iff y.id next.id).0 p in
        let named = (eq_iff x.slug slug).0 (find-test (has_slug slug) x rs f) in
        let k = find-In (has_slug slug) x rs f in
        elim (Bool-cases (y.slug == slug)) [
          | inl q ↦
              let is = (eq_iff y.slug slug).0 q in
              let kept = stays l y m (subst (λ z. touches z l ≡ true) (sym is) t) i id in
              rw (p, q) ((eq_iff next.slug slug).1 (sym kept ∙ is))
          | inr q ↦ elim (Bool-cases (next.slug == slug)) [
            | inr n ↦ rw (p, q) n
            | inl n ↦
                let to = (eq_iff next.slug slug).0 n in
                let xy = Keyed-same rs x y keyed k i (holder x k (named ∙ sym to) ∙ sym id) in
                let bad = (eq_iff y.slug slug).1 (subst (λ z. z.slug ≡ slug) xy named) in
                cc (bad, q)
          ]
        ]
  ]

  find-after :
      (l : FrontingLink) (slug : String) (x : Resource)
      → In l ls
      → touches slug l ≡ true
      → find (has_slug slug) rs ≡ some x
      → find (has_slug slug) (update (has_id next.id) written rs) ≡ some (after x)
  find-after l slug x m t f =
      find-update-rows (has_slug slug) (has_id next.id) written rs
        (λ y i. slug-kept l slug x y m t f i) x f

  -- A property of the old row that the new one has too is one of every row that the update leaves.
  after-kept :
      (P : Resource → Type 0) (x : Resource)
      → In x rs
      → P x
      → (x ≡ prev → P (written x))
      → P (after x)
  after-kept P x i h k = elim (Bool-cases (x.id == next.id)) [
    | inr p ↦ rw p h
    | inl p ↦ rw p (k (Keyed-same rs x prev keyed i there ((eq_iff x.id next.id).0 p ∙ sym same)))
  ]

  written-Keyed : (xs : List Resource) → Keyed xs → Keyed (update (has_id next.id) written xs)
  written-Keyed [] k = tt
  written-Keyed (x ∷ xs) (n, k) = (
    find-update-none (has_id (after x).id) (has_id next.id) written xs (after-id (after x).id)
        (subst (λ i. find (has_id i) xs ≡ none) (sym (after-same x)) n),
    written-Keyed xs k,
  )
    where
      after-same : (x : Resource) → (after x).id ≡ x.id
      after-same x = elim (Bool-cases (x.id == next.id)) [
        | inl p ↦ rw p (sym ((eq_iff x.id next.id).0 p))
        | inr p ↦ rw p refl
      ]

      after-id : (i : String) (x : Resource) → has_id i (after x) ≡ has_id i x
      after-id i x = ap (λ j. j == i) (after-same x)

  module _
      (sources : (l : FrontingLink)
        → In l ls
        → l.source_slug ≡ prev.slug
        → SourceFits l.scope_map prev
        → SourceFits l.scope_map next)
      (targets : (l : FrontingLink)
        → In l ls
        → l.target_slug ≡ prev.slug
        → TargetFits l.scope_map prev
        → TargetFits l.scope_map next) where
    Fits-after :
        (l : FrontingLink) → In l ls → Fits rs l → Fits (update (has_id next.id) written rs) l
    Fits-after l m f =
        let (fs, ft) = (check_ends_iff l.scope_map f.source f.target).0 f.ends_fit in
        let named = λ (slug : String) (x : Resource) (e : find (has_slug slug) rs ≡ some x).
          sym ((eq_iff x.slug slug).0 (find-test (has_slug slug) x rs e)) in
        record {
          source = after f.source;
          target = after f.target;
          from_source = find-after l l.source_slug f.source m (touches-source l) f.from_source;
          to_target = find-after l l.target_slug f.target m (touches-target l) f.to_target;
          ends_fit = (check_ends_iff l.scope_map (after f.source) (after f.target)).1 (
            after-kept (λ x. SourceFits l.scope_map x) f.source
                (find-In _ f.source rs f.from_source) fs
                (λ e.
                  sources l m (named l.source_slug f.source f.from_source ∙ ap (λ z. z.slug) e)
                    (subst (λ z. SourceFits l.scope_map z) e fs)),
            after-kept (λ x. TargetFits l.scope_map x) f.target (find-In _ f.target rs f.to_target)
                ft
                (λ e.
                  targets l m (named l.target_slug f.target f.to_target ∙ ap (λ z. z.slug) e)
                    (subst (λ z. TargetFits l.scope_map z) e ft)),
          );
        }

    -- The links stay in order where the new row fits every scope map that the old one fitted.
    pub update-Sound : Sound rs ls → Sound (update (has_id next.id) written rs) ls
    update-Sound s = record {
      keyed = written-Keyed rs keyed;
      acyclic = s.acyclic;
      well_formed = s.well_formed;
      fitting = λ l m. Fits-after l m (s.fitting l m);
    }
