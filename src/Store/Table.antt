-- ===== src/Store/Table.antt =====
-- A table as the list of its rows: the statements that the stores run, and what they do to a row.
use authserver.Common.{
  Bool, true, List, [], ◌∷◌, Option, none, some, ◌≡◌, refl, inl, inr, In, arith, if◌then◌else◌,
  keep, Bool-cases, ap,
}

module _ {A : Type 0} where
  -- SELECT … WHERE p, the first row.
  abbrev pub find : (A → Bool) → List A → Option A
  find p [] = none
  find p (x ∷ xs) = if p x then some x else find p xs

  abbrev pub change : (A → Bool) → (A → A) → A → A
  change p f x = if p x then f x else x

  -- UPDATE … SET f WHERE p.
  abbrev pub update : (A → Bool) → (A → A) → List A → List A
  update p f [] = []
  update p f (x ∷ xs) = change p f x ∷ update p f xs

  pub find-In : (p : A → Bool) (x : A) (xs : List A) → find p xs ≡ some x → In x xs
  find-In p x [] e = ground arith
  find-In p x (y ∷ ys) e = ground (arith, find-In p x ys)

  pub find-test : (p : A → Bool) (x : A) (xs : List A) → find p xs ≡ some x → p x ≡ true
  find-test p x [] e = ground arith
  find-test p x (y ∷ ys) e = ground (arith, find-test p x ys)

  -- Every row after an update comes from a row before it.
  pub In-update :
      (p : A → Bool) (f : A → A) (y : A) (xs : List A)
      → In y (update p f xs)
      → (x : A) × In x xs × (change p f x ≡ y)
  In-update p f y [] h = absurd h
  In-update p f y (x ∷ xs) (inl e) = (x, inl refl, e)
  In-update p f y (x ∷ xs) (inr h) = let (z, m, e) = In-update p f y xs h in (z, inr m, e)

  pub update-In :
      (p : A → Bool) (f : A → A) (x : A) (xs : List A) → In x xs → In (change p f x) (update p f xs)
  update-In p f x [] h = absurd h
  update-In p f x (y ∷ xs) (inl e) = inl (ap (change p f) e)
  update-In p f x (y ∷ xs) (inr h) = inr (update-In p f x xs h)

  -- A lookup by a test that an update does not change finds the updated row.
  pub find-update :
      (q p : A → Bool) (f : A → A) (xs : List A)
      → ((x : A) → q (change p f x) ≡ q x)
      → (x : A) → find q xs ≡ some x
      → find q (update p f xs) ≡ some (change p f x)
  find-update q p f [] same x e = ground arith
  find-update q p f (y ∷ ys) same x e = elim (Bool-cases (q y)) [
    | inl hit ↦
        rw (same y, hit)
          (ap (λ (o : Option A). elim o [ none ↦ none | some z ↦ some (change p f z) ])
            (rw hit at e))
    | inr miss ↦ rw (same y, miss) (find-update q p f ys same x (rw miss at e))
  ]

  pub find-update-none :
      (q p : A → Bool) (f : A → A) (xs : List A)
      → ((x : A) → q (change p f x) ≡ q x)
      → find q xs ≡ none
      → find q (update p f xs) ≡ none
  find-update-none q p f [] same e = refl
  find-update-none q p f (y ∷ ys) same e = ground (arith, same y, find-update-none q p f ys same)

  -- The same for a test that the update does not change on the rows there are.
  pub find-update-rows :
      (q p : A → Bool) (f : A → A) (xs : List A)
      → ((y : A) → In y xs → q (change p f y) ≡ q y)
      → (x : A) → find q xs ≡ some x
      → find q (update p f xs) ≡ some (change p f x)
  find-update-rows q p f [] same x e = ground arith
  find-update-rows q p f (y ∷ ys) same x e = elim (Bool-cases (q y)) [
    | inl hit ↦
        rw (same y (inl refl), hit)
          (ap (λ (o : Option A). elim o [ none ↦ none | some z ↦ some (change p f z) ])
            (rw hit at e))
    | inr miss ↦
        rw (same y (inl refl), miss)
          (find-update-rows q p f ys (λ z m. same z (inr m)) x (rw miss at e))
  ]

  -- A row that a deletion leaves is still the first that fits.
  pub find-keep :
      (q p : A → Bool) (x : A) (xs : List A)
      → find q xs ≡ some x
      → p x ≡ true
      → find q (keep p xs) ≡ some x
  find-keep q p x [] e h = ground arith
  find-keep q p x (y ∷ ys) e h = ground (arith, find-keep q p x ys)

  pub keep-none : (q p : A → Bool) (xs : List A) → find q xs ≡ none → find q (keep p xs) ≡ none
  keep-none q p [] e = refl
  keep-none q p (y ∷ ys) e = ground (arith, keep-none q p ys)
