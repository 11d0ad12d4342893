-- ===== src/Lockout/Laws.antt =====
-- What the tracker of api/shared/authlockout.go keeps: one entry a key, the bound on its size, and
-- every lockout that is in force.
use authserver.Common.{
  String, ℕ, suc, ◌<◌, Bool, false, Option, none, some, List, [], ◌∷◌, ◌≡◌, ◌⊎◌, ◌==◌, refl, ap,
  zero, arith, inl, inr, In, length, take, keep, not, eq_iff, length-keep-le, if◌then◌else◌,
}
use authserver.Store.Table.{find, update, change, find-update-none}
use authserver.Lockout.{Config, Entry, has_key, is_locked, delete, scan, fail_entry, better}

-- One entry for each key.
unfoldable pub Keyed : List Entry → Type 0
Keyed [] = Unit {0}
Keyed (e ∷ es) = (find (has_key e.key) es ≡ none) × Keyed es

pub find-Keyed :
    (v : Entry) (es : List Entry) → Keyed es → In v es → find (has_key v.key) es ≡ some v
unfolding Keyed
find-Keyed v [] k h = absurd h
find-Keyed v (e ∷ es) k h =
    ground (arith, k, h, find-Keyed v es k.1, eq_iff e.key v.key, eq_iff v.key v.key)

pub keep-none :
    (k : String) (q : Entry → Bool) (es : List Entry)
    → find (has_key k) es ≡ none
    → find (has_key k) (keep q es) ≡ none
keep-none k q [] h = refl
keep-none k q (e ∷ es) h = ground (arith, keep-none k q es)

pub keep-Keyed : (q : Entry → Bool) (es : List Entry) → Keyed es → Keyed (keep q es)
unfolding Keyed
keep-Keyed q [] k = tt
keep-Keyed q (e ∷ es) k = ground (arith, k, keep-Keyed q es k.1, keep-none e.key q es k.0)

pub fail-key :
    (cfg : Config) (now : ℕ) (k : String) (e : Entry)
    → (change (has_key k) (fail_entry cfg now) e).key ≡ e.key
fail-key cfg now k e = ground arith

pub fail-Keyed :
    (cfg : Config) (now : ℕ) (k : String) (es : List Entry)
    → Keyed es
    → Keyed (update (has_key k) (fail_entry cfg now) es)
unfolding Keyed
fail-Keyed cfg now k [] h = tt
fail-Keyed cfg now k (e ∷ es) h = (
  rw (fail-key cfg now k e) (
      find-update-none (has_key e.key) (has_key k) (fail_entry cfg now) es
        (λ x. ap (λ j. j == e.key) (fail-key cfg now k x)) h.0),
  fail-Keyed cfg now k es h.1,
)

pub delete-other :
    (k j : String) (es : List Entry)
    → (j == k) ≡ false
    → find (has_key k) (delete j es) ≡ find (has_key k) es
delete-other k j [] n = refl
delete-other k j (e ∷ es) n =
    ground (arith, n, delete-other k j es n, eq_iff e.key k, eq_iff e.key j, eq_iff j k)

pub delete-shorter : (v : Entry) (es : List Entry) → In v es → length (delete v.key es) < length es
delete-shorter v [] h = absurd h
delete-shorter v (e ∷ es) (inl p) = ground (
  arith,
  p,
  (eq_iff e.key v.key).1 (ap (λ x. x.key) p),
  length-keep-le (λ x. not (has_key v.key x)) es,
)
delete-shorter v (e ∷ es) (inr h) = ground (arith, delete-shorter v es h)

pub scan-unlocked :
    (now : ℕ) (best : Option Entry) (es : List Entry) (v : Entry)
    → scan now best es ≡ some v
    → (best ≡ some v) ⊎ (In v es × (is_locked now v.state ≡ false))
unfolding scan
scan-unlocked now best [] v h = inl h
scan-unlocked now best (e ∷ es) v h =
    elim (scan-unlocked now (if is_locked now e.state then best else better best e) es v h) [
      | inl p ↦ from_best best p
      | inr (m, n) ↦ inr (inr m, n)
    ]
  where
    from_best :
        (b : Option Entry)
        → (if is_locked now e.state then b else better b e) ≡ some v
        → (b ≡ some v) ⊎ (In v (e ∷ es) × (is_locked now v.state ≡ false))
    from_best none p = ground arith
    from_best (some x) p = ground arith

pub In-take : (n : ℕ) (v : Entry) (es : List Entry) → In v (take n es) → In v es
In-take zero v es h = absurd h
In-take (suc n) v [] h = absurd h
In-take (suc n) v (e ∷ es) (inl p) = inl p
In-take (suc n) v (e ∷ es) (inr h) = inr (In-take n v es h)
