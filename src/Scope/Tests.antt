-- ===== src/Scope/Tests.antt =====
-- The laws of internal/domain/scope/matching.go on small sets.
use authserver.Common.{
  String, true, false, [], ◌∷◌, ◌≡◌, ◌≢◌, ◌↔◌, ◌⊎◌, refl, inl, inr, In, All, Distinct, arith,
  eq_iff,
}
use authserver.Scope.{Set, parse, to_string, is_subset, intersect, union, equal}
use authserver.Scope.Fields.{IsWord}
use authserver.Scope.Algebra.{Subset, is_subset_iff, In-intersect, In-union, equal_iff}
use authserver.Scope.RoundTrip.{parse-to_string, parse-IsWord}

abbrev read : String
read = "read"

abbrev write : String
write = "write"

abbrev both : Set
both = write ∷ read ∷ []

abbrev turned : Set
turned = read ∷ write ∷ []

read-IsWord : IsWord read
unfolding authserver.Scope.is_space
read-IsWord = (λ h. ground (arith, (eq_iff read "").1 h), (refl, (refl, (refl, (refl, tt)))))

write-IsWord : IsWord write
unfolding authserver.Scope.is_space
write-IsWord =
    (λ h. ground (arith, (eq_iff write "").1 h), (refl, (refl, (refl, (refl, (refl, tt))))))

parse-to_string_example : In read (parse (to_string both)) ↔ In read both
parse-to_string_example = parse-to_string both read (write-IsWord, (read-IsWord, tt))

is_parsed : In read (parse "write read")
unfolding parse authserver.Scope.fields authserver.Common.add_key authserver.Common.contains
is_parsed = inl refl

parse-IsWord_example : IsWord read
parse-IsWord_example = parse-IsWord "write read" read is_parsed

both-Distinct : Distinct both
unfolding authserver.Common.contains
both-Distinct = (refl, (refl, tt))

turned-Distinct : Distinct turned
unfolding authserver.Common.contains
turned-Distinct = (refl, (refl, tt))

equal_iff_example : (equal both turned ≡ true) ↔ ((s : String) → In s both ↔ In s turned)
equal_iff_example = equal_iff both turned both-Distinct turned-Distinct

is_subset_iff_example : (is_subset (read ∷ []) both ≡ true) ↔ Subset (read ∷ []) both
is_subset_iff_example = is_subset_iff (read ∷ []) both

In-intersect_example : In read (intersect both (read ∷ [])) ↔ (In read both × In read (read ∷ []))
In-intersect_example = In-intersect both (read ∷ []) read

In-union_example : In read (union both (read ∷ [])) ↔ (In read both ⊎ In read (read ∷ []))
In-union_example = In-union both (read ∷ []) read
