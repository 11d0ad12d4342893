-- ===== src/Scope/Fields.antt =====
-- What `strings.Fields` gives: words, and all of them where a text was joined from words.
use Prim.Native.String
use text.Mathlib.TextLemmas.{nil-append, cons-append, append-nil, append_assoc}
use authserver.Common.{
  String, [], ◌∷◌, Char, code, false, List, ◌≡◌, ◌≢◌, refl, sym, ap, ◌∙◌, All, arith, eq_iff,
  Bool-cases, inl, inr,
}
use authserver.Scope.{is_space, push, flush, fields_from, fields, join}

abbrev pub NoSpace : String → Type 0
NoSpace String.[] = Unit {0}
NoSpace (String.◌∷◌ c s) = (is_space (code c) ≡ false) × NoSpace s

-- A scope token: not empty, and free of white space.
abbrev pub IsWord : String → Type 0
IsWord w = (w ≢ "") × NoSpace w

NoSpace-push : (s : String) (c : Char) → NoSpace s → is_space (code c) ≡ false → NoSpace (push s c)
NoSpace-push String.[] c h p = rw nil-append (p, tt)
NoSpace-push (String.◌∷◌ d s) c (q, h) p = rw cons-append (q, NoSpace-push s c h p)

flush-IsWord :
    (cur : String) (rest : List String)
    → NoSpace cur
    → All IsWord rest
    → All IsWord (flush cur rest)
flush-IsWord cur rest h k = ground (arith, eq_iff cur "")

fields_from-IsWord : (cur s : String) → NoSpace cur → All IsWord (fields_from cur s)
unfolding fields_from
fields_from-IsWord cur String.[] h = flush-IsWord cur [] h tt
fields_from-IsWord cur (String.◌∷◌ c s) h = elim (Bool-cases (is_space (code c))) [
  | inl e ↦ rw (e, fields_from) (flush-IsWord cur _ h (fields_from-IsWord "" s tt))
  | inr e ↦ rw (e, fields_from) (fields_from-IsWord (push cur c) s (NoSpace-push cur c h e))
]

pub fields-IsWord : (s : String) → All IsWord (fields s)
unfolding fields
fields-IsWord s = fields_from-IsWord "" s tt

push-append :
    (s : String) (c : Char) (w : String) → String.◌++◌ (push s c) w ≡ String.◌++◌ s (String.◌∷◌ c w)
push-append s c w =
    append_assoc s _ w
    ∙ ap (String.◌++◌ s) (cons-append c String.[] w ∙ ap (String.◌∷◌ c) (nil-append w))

-- A word that is read in full goes to the field under construction.
fields_from-word :
    (cur w rest : String)
    → NoSpace w
    → fields_from cur (String.◌++◌ w rest) ≡ fields_from (String.◌++◌ cur w) rest
unfolding fields_from
fields_from-word cur String.[] rest h = rw (nil-append, append-nil)
fields_from-word cur (String.◌∷◌ c w) rest (p, h) =
    rw (cons-append, p, fields_from)
      (fields_from-word (push cur c) w rest h ∙ ap (λ t. fields_from t rest) (push-append cur c w))

fields_from-end : (w : String) → w ≢ "" → fields_from w "" ≡ w ∷ []
unfolding fields_from
fields_from-end w h = ground (arith, eq_iff w "")

fields_from-nil : fields_from "" "" ≡ []
unfolding fields_from
fields_from-nil = refl

-- A word and a space before a text are one field before its fields.
fields_from-space :
    (w rest : String) → w ≢ "" → fields_from w (String.◌++◌ " " rest) ≡ w ∷ fields_from "" rest
unfolding fields_from is_space
fields_from-space w rest h =
    ap (fields_from w) (cons-append " " String.[] rest ∙ ap (String.◌∷◌ " ") (nil-append rest))
    ∙ ground (arith, eq_iff w "")

fields_from_word-append :
    (w rest : String) → NoSpace w → fields_from "" (String.◌++◌ w rest) ≡ fields_from w rest
fields_from_word-append w rest h =
    fields_from-word "" w rest h ∙ ap (λ t. fields_from t rest) (nil-append w)

pub fields-join : (xs : List String) → All IsWord xs → fields (join xs) ≡ xs
unfolding fields join
fields-join [] h = fields_from-nil
fields-join (x ∷ []) (h, _) =
    ap (fields_from "") (sym (append-nil x))
    ∙ fields_from_word-append x "" h.1
    ∙ fields_from-end x h.0
fields-join (x ∷ y ∷ r) (h, k) =
    fields_from_word-append x _ h.1
    ∙ fields_from-space x (join (y ∷ r)) h.0
    ∙ ap (◌∷◌ x) (fields-join (y ∷ r) k)
