-- ===== src/Fronting/Kept.antt =====
-- Every operation of `FrontingService` keeps the links in order, whether it succeeds or fails.
use authserver.Common.{
  String, ℕ, Bool, List, [], ◌∷◌, Option, none, some, ◌≡◌, subst, ◌⊎◌, inl, inr, arith, keep,
  In-keep, not, Bool-cases, Option-cases, ◌&&◌,
}
use authserver.Domain.Errors.{Error, internal, invalid_request, fronting_link_not_found}
use authserver.Domain.FrontingLinks.{FrontingLink, ScopeMap, validate_link}
use authserver.Store.Table.{find, update, change}
use authserver.Store.Links
use authserver.Store.Links.{joins, touches, is_known}
use authserver.Store.Monad.{
  ◌>>=◌, World, Outside, M, ok, err, final, Keeps, >>=-Keeps, >>-Keeps, pure-Keeps, raise-Keeps,
  reach-Keeps, Run-cases, create_link, update_link,
}
use authserver.Fronting.Checked.{Fits, Valid, validate-cases, check_link-cases}
use authserver.Fronting.Rules.{validate_for_patch}
use authserver.Fronting.Service.{
  FrontingService, create, create_valid, patch, patch_existing, patch_to, delete,
  cascade_delete_for_resource, delete_dependents, audit_all,
}
use authserver.Fronting.Sound.{
  Sound, InOrder, stamped, Sound-cons, Sound-sub, Sound-update, audited-Keeps,
}

-- A step that leaves the links in order from one database, and then steps that keep them so.
pub bind-InOrder :
    {A B : Type 0} (m : M A) (k : A → M B) (w : World)
    → InOrder (final (m w))
    → ((a : A) → Keeps InOrder (k a))
    → InOrder (final ((m >>= k) w))
bind-InOrder m k w h keeps = elim (Run-cases (m w)) [
  | inl (a, u, e) ↦ rw (e, ◌>>=◌) ((keeps a).apply u (subst (λ r. InOrder (final r)) e h))
  | inr (e, u, q) ↦ rw (q, ◌>>=◌) (subst (λ r. InOrder (final r)) q h)
]

insert-cases :
    (o : Outside) (w : World) (l : FrontingLink) (now : ℕ) (actor : String)
    → find (joins l.source_slug l.target_slug) w.links ≡ none
    → (Links.create o (stamped l now actor) w
        ≡ ok tt (record w { links = stamped l now actor ∷ w.links }))
      ⊎ ((e : Error) × (Links.create o (stamped l now actor) w ≡ err e w))
unfolding Links.create
insert-cases o w l now actor n = elim (Bool-cases (o.fails create_link)) [
  | inl p ↦ inr (internal, ground (arith, p))
  | inr p ↦ elim (Bool-cases (is_known w l.source_slug && is_known w l.target_slug)) [
    | inl q ↦ inl (ground (arith, p, n, q))
    | inr q ↦ inr (invalid_request, ground (arith, p, n, q))
  ]
]

insert-InOrder :
    (o : Outside) (w : World) (l : FrontingLink) (now : ℕ) (actor : String)
    → InOrder w
    → Valid o l w
    → InOrder (final (Links.create o (stamped l now actor) w))
insert-InOrder o w l now actor s v = elim (insert-cases o w l now actor v.is_new) [
  | inl e ↦ rw e (Sound-cons o w l now actor s v)
  | inr (x, e) ↦ rw e s
]

replace-cases :
    (o : Outside) (w : World) (c : FrontingLink)
    → (Links.replace o c w
        ≡ ok tt (record w {
          links =
              update
                (joins c.source_slug c.target_slug)
                (λ r. record r { scope_map = c.scope_map })
                w.links;
        }))
      ⊎ ((e : Error) × (Links.replace o c w ≡ err e w))
unfolding Links.replace
replace-cases o w c = elim (Bool-cases (o.fails update_link)) [
  | inl p ↦ inr (internal, ground (arith, p))
  | inr p ↦ elim (Option-cases (find (joins c.source_slug c.target_slug) w.links)) [
    | inl q ↦ inr (fronting_link_not_found, ground (arith, p, q))
    | inr (l, q) ↦ inl (ground (arith, p, q))
  ]
]

replace-InOrder :
    (o : Outside) (w : World) (c : FrontingLink)
    → InOrder w
    → Fits w.resources c
    → validate_link c ≡ none
    → InOrder (final (Links.replace o c w))
replace-InOrder o w c s f v = elim (replace-cases o w c) [
  | inl e ↦ rw e (Sound-update w.resources c f v w.links s)
  | inr (x, e) ↦ rw e s
]

-- A request to the service.
pub data Operation : Type 0 where
  creates : Option FrontingLink → String → Operation
  patches : String → String → Option ScopeMap → String → Operation
  deletes : String → String → String → Operation
  cascades : String → String → Operation

module _ (f : FrontingService) where
  open f use {outside, has_audit}

  create-InOrder : (l : Option FrontingLink) (actor : String) → Keeps InOrder (create f l actor)
  unfolding create create_valid
  create-InOrder none actor = raise-Keeps _
  create-InOrder (some l) actor = record {
    apply = λ w s. elim (validate-cases outside l w) [
      | inr (e, p) ↦ rw (p, ◌>>=◌) s
      | inl (v, p) ↦
          rw (p, ◌>>=◌)
            (bind-InOrder (Links.create outside (stamped l outside.now actor)) _ w
              (insert-InOrder outside w l outside.now actor s v) (λ _. audited-Keeps has_audit _))
    ];
  }

  patch_to-InOrder : (c : FrontingLink) (actor : String) → Keeps InOrder (patch_to f c actor)
  unfolding validate_for_patch
  patch_to-InOrder c actor = record {
    apply = λ w s. elim (check_link-cases outside c w) [
      | inr (e, p) ↦ rw (p, ◌>>=◌) s
      | inl (fits, v, p) ↦
          rw (p, ◌>>=◌)
            (bind-InOrder (Links.replace outside c) _ w (replace-InOrder outside w c s fits v)
              (λ _. >>-Keeps (audited-Keeps has_audit _) (pure-Keeps c)))
    ];
  }

  get-InOrder : (s t : String) → Keeps InOrder (Links.get outside s t)
  unfolding Links.get
  get-InOrder s t = >>-Keeps (reach-Keeps outside _) (record { apply = go })
    where
      go :
          (w : World)
          → InOrder w
          → InOrder (
              final (elim (find (joins s t) w.links) [
                | none ↦ err fronting_link_not_found w
                | some l ↦ ok l w
              ]))
      go w h = elim (Option-cases (find (joins s t) w.links)) [
        | inl p ↦ rw p h
        | inr (l, p) ↦ rw p h
      ]

  patch-InOrder :
      (s t : String) (change : Option ScopeMap) (actor : String)
      → Keeps InOrder (patch f s t change actor)
  unfolding patch
  patch-InOrder s t change actor = >>=-Keeps (get-InOrder s t) (λ l. existing l change)
    where
      existing :
          (l : FrontingLink) (m : Option ScopeMap) → Keeps InOrder (patch_existing f l m actor)
      existing l none = pure-Keeps l
      existing l (some m) = patch_to-InOrder (record l { scope_map = m }) actor

  keep-InOrder :
      (p : FrontingLink → Bool) (w : World) → InOrder w → Sound w.resources (keep p w.links)
  keep-InOrder p w =
      Sound-sub w.resources w.links (keep p w.links) (λ l m. (In-keep p l w.links m).0)

  delete-InOrder : (s t actor : String) → Keeps InOrder (delete f s t actor)
  unfolding delete Links.delete
  delete-InOrder s t actor =
      >>-Keeps (>>-Keeps (reach-Keeps outside _) (record { apply = go }))
        (audited-Keeps has_audit _)
    where
      go :
          (w : World)
          → InOrder w
          → InOrder (
              final (elim (find (joins s t) w.links) [
                | none ↦ err fronting_link_not_found w
                | some old ↦ ok tt (record w { links = keep (λ l. not (joins s t l)) w.links })
              ]))
      go w h = elim (Option-cases (find (joins s t) w.links)) [
        | inl p ↦ rw p h
        | inr (l, p) ↦ rw p (keep-InOrder (λ l. not (joins s t l)) w h)
      ]

  audit_all-InOrder :
      (actor : String) (ls : List FrontingLink) → Keeps InOrder (audit_all f actor ls)
  audit_all-InOrder actor [] = pure-Keeps tt
  audit_all-InOrder actor (l ∷ ls) =
      >>-Keeps (audited-Keeps has_audit _) (audit_all-InOrder actor ls)

  pub cascade-InOrder :
      (slug actor : String) → Keeps InOrder (cascade_delete_for_resource f slug actor)
  unfolding cascade_delete_for_resource Links.list_for_resource Links.delete_for_resource
  cascade-InOrder slug actor =
      >>=-Keeps (>>-Keeps (reach-Keeps outside _) (record { apply = λ w h. h })) dependents
    where
      dependents : (ls : List FrontingLink) → Keeps InOrder (delete_dependents f slug actor ls)
      dependents [] = pure-Keeps []
      dependents (l ∷ ls) =
          >>-Keeps
            (>>-Keeps (reach-Keeps outside _)
              (record { apply = λ w h. keep-InOrder (λ l. not (touches slug l)) w h }))
            (>>-Keeps (audit_all-InOrder actor (l ∷ ls)) (pure-Keeps (l ∷ ls)))

  abbrev pub perform : Operation → World → World
  perform (creates l actor) w = final (create f l actor w)
  perform (patches s t m actor) w = final (patch f s t m actor w)
  perform (deletes s t actor) w = final (delete f s t actor w)
  perform (cascades slug actor) w = final (cascade_delete_for_resource f slug actor w)

  pub perform-InOrder : (op : Operation) (w : World) → InOrder w → InOrder (perform op w)
  perform-InOrder (creates l actor) w h = (create-InOrder l actor).apply w h
  perform-InOrder (patches s t m actor) w h = (patch-InOrder s t m actor).apply w h
  perform-InOrder (deletes s t actor) w h = (delete-InOrder s t actor).apply w h
  perform-InOrder (cascades slug actor) w h = (cascade-InOrder slug actor).apply w h
