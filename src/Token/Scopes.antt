-- ===== src/Token/Scopes.antt =====
-- `refreshScope` of internal/services/token.go: what a refresh may ask for.
use authserver.Common.{
  String, true, some, ◌≡◌, ◌↔◌, ◌⊎◌, ◌≢◌, refl, arith, ◌==◌, is_empty, In, Bool-cases, inl, inr,
  eq_iff,
}
use authserver.Domain.Clients.{Client}
use authserver.Scope.{Set, parse, intersect, to_string}
use authserver.Scope.Algebra.{Subset, is_subset_iff, In-intersect}
use authserver.Scope.Fields.{IsWord}
use authserver.Scope.RoundTrip.{parse-to_string, parse-IsWord, All-In}
use authserver.Token.Refresh.{refresh_scope, asked_scope, granted_scope}

printed-Subset :
    (x : Set) (b : Set)
    → ((s : String) → In s x → IsWord s)
    → Subset x b
    → Subset (parse (to_string x)) b
printed-Subset x b w h s k = h s ((parse-to_string x s (All-In IsWord x w)).0 k)

narrowed-IsWord : (a b : String) (s : String) → In s (intersect (parse a) (parse b)) → IsWord s
narrowed-IsWord a b s k = parse-IsWord a s ((In-intersect (parse a) (parse b) s).0 k).0

-- What is within the grant, and within the ceiling where there is one.
abbrev pub Within : Set → Set → Set → Type 0
Within a granted ceiling = Subset a granted × ((is_empty ceiling ≡ true) ⊎ Subset a ceiling)

asked_scope-ok :
    (asked granted ceiling : Set) (s : String)
    → asked_scope asked granted ceiling ≡ some s
    → (s ≡ to_string asked) × Within asked granted ceiling
unfolding asked_scope
asked_scope-ok asked granted ceiling s h =
    ground (arith, h, is_subset_iff asked granted, is_subset_iff asked ceiling)

granted_scope-ok :
    (text : String) (granted ceiling : Set) (s : String)
    → granted_scope text granted ceiling ≡ some s
    → ((s ≡ text) × ((is_empty ceiling ≡ true) ⊎ Subset granted ceiling))
      ⊎ (s ≡ to_string (intersect granted ceiling))
unfolding granted_scope
granted_scope-ok text granted ceiling s h = ground (arith, h, is_subset_iff granted ceiling)

printed-Within :
    (x granted ceiling : Set) (s : String)
    → ((t : String) → In t x → IsWord t)
    → Within x granted ceiling
    → s ≡ to_string x
    → Within (parse s) granted ceiling
printed-Within x granted ceiling s w h p = rw p (
  printed-Subset x granted w h.0,
  elim h.1 [ inl n ↦ inl n | inr k ↦ inr (printed-Subset x ceiling w k) ],
)

intersect-Within : (granted ceiling : Set) → Within (intersect granted ceiling) granted ceiling
intersect-Within a b =
    (λ s k. ((In-intersect a b s).0 k).0, inr (λ s k. ((In-intersect a b s).0 k).1))

granted_scope-Within :
    (text c s : String)
    → granted_scope text (parse text) (parse c) ≡ some s
    → Within (parse s) (parse text) (parse c)
granted_scope-Within text c s h = elim (granted_scope-ok text (parse text) (parse c) s h) [
  | inl (p, q) ↦ rw p (λ t k. k, q)
  | inr p ↦
      printed-Within (intersect (parse text) (parse c)) (parse text) (parse c) s
        (narrowed-IsWord text c) (intersect-Within (parse text) (parse c)) p
]

asked_scope-Within :
    (asked text c s : String)
    → asked_scope (parse asked) (parse text) (parse c) ≡ some s
    → Within (parse s) (parse text) (parse c)
asked_scope-Within asked text c s h =
    let (p, q) = asked_scope-ok (parse asked) (parse text) (parse c) s h in
    printed-Within (parse asked) (parse text) (parse c) s (parse-IsWord asked) q p

-- The scope that a refresh grants is within the scope of the family, and within the client's
-- ceiling where the client has one.
pub refresh_scope-Within :
    (requested family_scope : String) (c : Client) (s : String)
    → refresh_scope requested family_scope c ≡ some s
    → Within (parse s) (parse family_scope) (parse c.scope)
unfolding refresh_scope
refresh_scope-Within requested family_scope c s h = elim (Bool-cases (requested == "")) [
  | inl p ↦ granted_scope-Within family_scope c.scope s (rw p at h)
  | inr p ↦ asked_scope-Within requested family_scope c.scope s (rw p at h)
]

asked_scope-granted :
    (asked granted ceiling : Set)
    → Within asked granted ceiling
    → asked_scope asked granted ceiling ≡ some (to_string asked)
unfolding asked_scope
asked_scope-granted asked granted ceiling h =
    let a = (is_subset_iff asked granted).1 h.0 in
    elim h.1 [
      | inl p ↦ rw (a, p) refl
      | inr k ↦ ground (arith, a, (is_subset_iff asked ceiling).1 k)
    ]

-- A refresh that asks for scopes within the grant and the ceiling is granted a scope that names the
-- scopes that it asked for, and no other.
pub refresh_scope-asked :
    (requested family_scope : String) (c : Client)
    → requested ≢ ""
    → Within (parse requested) (parse family_scope) (parse c.scope)
    → (s : String) × (refresh_scope requested family_scope c ≡ some s)
      × ((t : String) → In t (parse s) ↔ In t (parse requested))
unfolding refresh_scope
refresh_scope-asked requested family_scope c n h = elim (Bool-cases (requested == "")) [
  | inl p ↦ absurd (n ((eq_iff requested "").0 p))
  | inr p ↦ (
    to_string (parse requested),
    rw p (asked_scope-granted (parse requested) (parse family_scope) (parse c.scope) h),
    λ t.
        parse-to_string (parse requested) t
          (All-In IsWord (parse requested) (parse-IsWord requested)),
  )
]
