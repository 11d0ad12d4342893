-- ===== src/Scope.antt =====
-- internal/domain/scope/matching.go: sets of OAuth scopes, their parsing and printing. A Go map used
-- as a set is the list of its keys, without repetition; nothing here depends on the order of keys,
-- since `String` and `Slice` sort them.
pub mod Fields
pub mod Algebra
pub mod RoundTrip
mod Tests
use Prim.Native.String
use authserver.Common.{
  String, [], ◌∷◌, Char, ℕ, code, Bool, true, false, ◌&&◌, ◌||◌, List, contains, add_key,
  sort_strings, length, all, keep, is_empty, if◌then◌else◌, ltb, leb, eqb, ◌==◌,
}

abbrev pub Set : Type 0
Set = List String

-- `unicode.IsSpace`.
pub is_space : ℕ → Bool
is_space c =
    (leb 0x09 c && leb c 0x0d)
    || eqb c 0x20
    || eqb c 0x85
    || eqb c 0xa0
    || eqb c 0x1680
    || (leb 0x2000 c && leb c 0x200a)
    || eqb c 0x2028
    || eqb c 0x2029
    || eqb c 0x202f
    || eqb c 0x205f
    || eqb c 0x3000

abbrev pub push : String → Char → String
push s c = String.◌++◌ s (String.◌∷◌ c String.[])

-- Ends a field: an empty one is dropped.
abbrev pub flush : String → List String → List String
flush cur rest = if cur == "" then rest else cur ∷ rest

pub fields_from : String → String → List String
fields_from cur String.[] = flush cur []
fields_from cur (String.◌∷◌ c s) = elim (is_space (code c)) [
  | true ↦ flush cur (fields_from "" s)
  | false ↦ fields_from (push cur c) s
]

-- `strings.Fields`.
unfoldable pub fields : String → List String
unfolding fields_from is_space
fields s = fields_from "" s

-- `strings.Join(_, " ")`.
unfoldable pub join : List String → String
join [] = ""
join (x ∷ []) = x
join (x ∷ y ∷ r) = String.◌++◌ x (String.◌++◌ " " (join (y ∷ r)))

pub add_all : Set → List String → Set
add_all ss [] = ss
add_all ss (x ∷ xs) = add_all (add_key ss x) xs

unfoldable pub parse : String → Set
unfolding add_all
parse s = add_all [] (fields s)

pub add_scopes : Set → List String → Set
add_scopes ss [] = ss
add_scopes ss (s ∷ r) = add_scopes (if s == "" then ss else add_key ss s) r

unfoldable pub new : List String → Set
unfolding add_scopes
new scopes = add_scopes [] scopes

unfoldable pub to_string : Set → String
to_string ss = if is_empty ss then "" else join (sort_strings ss)

unfoldable pub slice : Set → List String
slice ss = sort_strings ss

unfoldable pub is_subset : Set → Set → Bool
is_subset ss other = all (contains other) ss

unfoldable pub intersect : Set → Set → Set
intersect ss other =
    if ltb (length other) (length ss) then keep (contains ss) other else keep (contains other) ss

unfoldable pub union : Set → Set → Set
unfolding add_all
union ss other = add_all (add_all [] ss) other

unfoldable pub equal : Set → Set → Bool
unfolding is_subset
equal ss other = if eqb (length ss) (length other) then is_subset ss other else false
