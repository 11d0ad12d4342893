-- ===== src/Scope/Algebra.antt =====
-- The set operations against membership, whichever map is walked and in whichever order.
use authserver.Common.{
  String, [], ◌∷◌, true, false, List, suc, ◌≤◌, ◌≡◌, refl, ◌↔◌, ◌⊎◌, inl, inr, In, contains,
  contains_iff, Distinct, add_key, In-add_key, add_key-Distinct, length, all, In-keep, keep-In,
  all-In, arith, eq_iff, ◌==◌, Bool-cases,
}
use authserver.Scope.{Set, add_all, is_subset, intersect, union, equal}

abbrev pub Subset : Set → Set → Type 0
Subset a b = (s : String) → In s a → In s b

all-contains : (a b : Set) → Subset a b → all (contains b) a ≡ true
all-contains [] b h = refl
all-contains (x ∷ a) b h =
    ground (arith, (contains_iff b x).1 (h x (inl refl)), all-contains a b (λ s k. h s (inr k)))

-- `IsSubset` decides inclusion.
pub is_subset_iff : (a b : Set) → (is_subset a b ≡ true) ↔ Subset a b
unfolding is_subset
is_subset_iff a b = (λ e s k. (contains_iff b s).0 (all-In (contains b) s a e k), all-contains a b)

-- `Intersect` has the scopes of both sets, and no others.
pub In-intersect : (a b : Set) (s : String) → In s (intersect a b) ↔ (In s a × In s b)
unfolding intersect
In-intersect a b s = ground (
  arith,
  In-keep (contains a) s b,
  keep-In (contains a) s b,
  In-keep (contains b) s a,
  keep-In (contains b) s a,
  contains_iff a s,
  contains_iff b s,
)

pub In-add_all :
    (ss : Set) (xs : List String) (s : String) → In s (add_all ss xs) ↔ (In s ss ⊎ In s xs)
unfolding add_all
In-add_all ss [] s = ground arith
In-add_all ss (x ∷ xs) s = ground (arith, In-add_all (add_key ss x) xs s, In-add_key ss x s)

pub add_all-Distinct : (ss : Set) (xs : List String) → Distinct ss → Distinct (add_all ss xs)
unfolding add_all
add_all-Distinct ss [] h = h
add_all-Distinct ss (x ∷ xs) h = add_all-Distinct (add_key ss x) xs (add_key-Distinct ss x h)

-- `Union` has the scopes of either set, and no others.
pub In-union : (a b : Set) (s : String) → In s (union a b) ↔ (In s a ⊎ In s b)
unfolding union
In-union a b s = ground (arith, In-add_all [] a s, In-add_all (add_all [] a) b s)

-- Removing one occurrence.
without : String → List String → List String
without a [] = []
without a (x ∷ xs) = elim (x == a) [ true ↦ xs | false ↦ x ∷ without a xs ]

length-without : (a : String) (xs : List String) → In a xs → length xs ≡ suc (length (without a xs))
unfolding without
length-without a [] h = absurd h
length-without a (x ∷ xs) h = ground (arith, length-without a xs, eq_iff x a)

In-without : (a b : String) (xs : List String) → In b xs → (a ≡ b) ⊎ In b (without a xs)
unfolding without
In-without a b [] h = absurd h
In-without a b (x ∷ xs) h = ground (arith, In-without a b xs, eq_iff x a, eq_iff a b)

Subset-without :
    (x : String) (a b : Set) → contains a x ≡ false → Subset (x ∷ a) b → Subset a (without x b)
Subset-without x a b fresh h s k = elim (In-without x s b (h s (inr k))) [
  | inl same ↦ ground (arith, contains_iff a x, rw (← same) at k)
  | inr m ↦ m
]

-- The pigeonhole step behind `Equal`.
length-le_of_Subset : (a b : Set) → Distinct a → Subset a b → length a ≤ length b
length-le_of_Subset [] b d h = omega arith
length-le_of_Subset (x ∷ a) b (fresh, d) h = omega (
  arith,
  length-without x b (h x (inl refl)),
  length-le_of_Subset a (without x b) d (Subset-without x a b fresh h),
)

-- Of two sets of one size the first holds the second if it is held by it.
Subset_of_length : (a b : Set) → Distinct a → length b ≤ length a → Subset a b → Subset b a
Subset_of_length a b d short h s k = elim (Bool-cases (contains a s)) [
  | inl held ↦ (contains_iff a s).0 held
  | inr fresh ↦ absurd (omega (arith, length-le_of_Subset (s ∷ a) b (fresh, d) (with_head s k)))
]
  where
    with_head : (t : String) → In t b → Subset (t ∷ a) b
    with_head t m u (inl e) = rw (← e) m
    with_head t m u (inr n) = h u n

equal_iff-lengths : (a b : Set) → (equal a b ≡ true) ↔ ((length a ≡ length b) × Subset a b)
unfolding equal
equal_iff-lengths a b = ground (arith, is_subset_iff a b)

-- `Equal` decides that two sets have the same scopes, although it looks at one inclusion only.
pub equal_iff :
    (a b : Set) → Distinct a → Distinct b → (equal a b ≡ true) ↔ ((s : String) → In s a ↔ In s b)
equal_iff a b da db = (
  λ e.
      let (len, sub) = (equal_iff-lengths a b).0 e in
      λ s. (sub s, Subset_of_length a b da (omega arith) sub s),
  λ same.
      let one = length-le_of_Subset a b da (λ s. (same s).0) in
      let two = length-le_of_Subset b a db (λ s. (same s).1) in
      (equal_iff-lengths a b).1 (omega arith, λ s. (same s).0),
)
