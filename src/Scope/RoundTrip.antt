-- ===== src/Scope/RoundTrip.antt =====
-- Parsing and printing scope sets.
use authserver.Common.{
  String, [], ◌∷◌, List, ◌≡◌, refl, subst, ◌↔◌, inl, inr, In, Distinct, sort_strings,
  In-sort_strings, All, arith,
}
use authserver.Scope.{Set, fields, parse, join, to_string}
use authserver.Scope.Fields.{IsWord, fields-IsWord, fields-join}
use authserver.Scope.Algebra.{In-add_all, add_all-Distinct}

-- A scope is parsed exactly when it is one of the fields of the text.
pub In-parse : (text s : String) → In s (parse text) ↔ In s (fields text)
unfolding parse
In-parse text s = ground (arith, In-add_all [] (fields text) s)

pub parse-Distinct : (text : String) → Distinct (parse text)
unfolding parse
parse-Distinct text = add_all-Distinct [] (fields text) tt

pub All-In : (P : String → Type 0) (xs : List String) → ((s : String) → In s xs → P s) → All P xs
All-In P [] h = tt
All-In P (x ∷ xs) h = (h x (inl refl), All-In P xs (λ s k. h s (inr k)))

In-All : (P : String → Type 0) (s : String) (xs : List String) → All P xs → In s xs → P s
In-All P s [] h k = absurd k
In-All P s (x ∷ xs) h k = ground (arith, In-All P s xs)

-- What is parsed is a word, whatever the request sent.
pub parse-IsWord : (text s : String) → In s (parse text) → IsWord s
parse-IsWord text s h = In-All IsWord s (fields text) (fields-IsWord text) ((In-parse text s).0 h)

fields-to_string : (ss : Set) → All IsWord ss → fields (to_string ss) ≡ sort_strings ss
unfolding to_string sort_strings join
fields-to_string [] h = fields-join [] tt
fields-to_string (x ∷ ss) h = fields-join (sort_strings (x ∷ ss)) (
    All-In IsWord (sort_strings (x ∷ ss))
      (λ s k. In-All IsWord s (x ∷ ss) h ((In-sort_strings s (x ∷ ss)).0 k)))

-- Printing a set of words and parsing the text gives the same scopes.
pub parse-to_string :
    (ss : Set) (s : String) → All IsWord ss → In s (parse (to_string ss)) ↔ In s ss
parse-to_string ss s h =
    let all = In-parse (to_string ss) s in
    let back =
      subst (λ xs. In s (fields (to_string ss)) ↔ In s xs) (fields-to_string ss h) (both s) in
    ground (arith, all, back, In-sort_strings s ss)
  where
    both : (t : String) → In t (fields (to_string ss)) ↔ In t (fields (to_string ss))
    both t = (λ k. k, λ k. k)
