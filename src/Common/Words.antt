-- ===== src/Common/Words.antt =====
-- Lists of texts: membership, insertion without repetition, sorting. They stand for
-- `slices.Contains`, `sort.Strings` and the keys of Go's maps.
use Prim.Native.String.{String, compare}
use mathlib.Core.Path.{◌≡◌}
use mathlib.Core.Logic.{◌⊎◌, ◌↔◌}
use mathlib.Core.Bool.{Bool, true, false, ◌||◌}
use mathlib.Core.List.{List, [], ◌∷◌}
use native.Mathlib.Omega.{arith}
use text.Mathlib.Text.{◌==◌, is_le}
use text.Mathlib.TextEquality.{eq_iff}
use authserver.Common.Tests.{if◌then◌else◌}
use authserver.Common.Lists.{In}

-- `slices.Contains`, and a lookup in a map used as a set.
unfoldable pub contains : List String → String → Bool
contains [] a = false
contains (x ∷ xs) a = x == a || contains xs a

pub contains_iff : (xs : List String) (a : String) → (contains xs a ≡ true) ↔ In a xs
unfolding contains
contains_iff [] a = ground arith
contains_iff (x ∷ xs) a = ground (arith, contains_iff xs a, eq_iff x a)

-- No text stands twice.
abbrev pub Distinct : List String → Type 0
Distinct [] = Unit {0}
Distinct (x ∷ xs) = (contains xs x ≡ false) × Distinct xs

-- Assignment to a key of a map used as a set: a key that is there is not added again.
unfoldable pub add_key : List String → String → List String
add_key xs a = if contains xs a then xs else a ∷ xs

pub In-add_key : (xs : List String) (a b : String) → In b (add_key xs a) ↔ ((a ≡ b) ⊎ In b xs)
unfolding add_key
In-add_key xs a b = ground (arith, contains_iff xs a, contains_iff xs b, eq_iff a b)

pub add_key-Distinct : (xs : List String) (a : String) → Distinct xs → Distinct (add_key xs a)
unfolding add_key
add_key-Distinct xs a h = ground arith

-- `sort.Strings`.
insert_sorted : String → List String → List String
insert_sorted a [] = a ∷ []
insert_sorted a (x ∷ xs) = if is_le (compare a x) then a ∷ x ∷ xs else x ∷ insert_sorted a xs

unfoldable pub sort_strings : List String → List String
unfolding insert_sorted
sort_strings [] = []
sort_strings (x ∷ xs) = insert_sorted x (sort_strings xs)

In-insert_sorted :
    (a b : String) (xs : List String) → In b (insert_sorted a xs) ↔ ((a ≡ b) ⊎ In b xs)
unfolding insert_sorted
In-insert_sorted a b [] = ground arith
In-insert_sorted a b (x ∷ xs) = ground (arith, In-insert_sorted a b xs)

pub In-sort_strings : (b : String) (xs : List String) → In b (sort_strings xs) ↔ In b xs
unfolding sort_strings
In-sort_strings b [] = ground arith
In-sort_strings b (x ∷ xs) =
    ground (arith, In-insert_sorted x b (sort_strings xs), In-sort_strings b xs)
