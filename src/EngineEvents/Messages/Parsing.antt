-- ===== src/EngineEvents/Messages/Parsing.antt =====
-- engine-event-consumer.service.ts: `parseFieldArray` against the fields that a message was written with.
use hau_cex.Common.{
  ◌≡◌, refl, sym, ◌∙◌, Bool, true, false, List, [], ◌∷◌, Option, none, some, inl, inr, String,
  str_eq, str_eq_iff, if◌then◌else◌, Bool-cases, true≢false,
}
use hau_cex.EngineEvents.Messages.{Fields, put, get, parse_from, parse_field_array}

-- `XADD key * k1 v1 k2 v2 ...`.
abbrev pub flatten : Fields → List String
flatten [] = []
flatten ((k, v) ∷ kvs) = k ∷ v ∷ flatten kvs

-- The last value that was written under a key, or else the one given.
abbrev pub last_value : String → Fields → Option String → Option String
last_value k [] d = d
last_value k ((j, v) ∷ kvs) d = last_value k kvs (if str_eq j k then some v else d)

-- Two keys equal to a third are equal.
str_eq_trans : (i j k : String) → str_eq i j ≡ true → str_eq i k ≡ str_eq j k
str_eq_trans i j k e = rw ((str_eq_iff i j).0 e) refl

str_eq-apart : (i j k : String) → str_eq i j ≡ false → str_eq i k ≡ true → str_eq j k ≡ false
str_eq-apart i j k e f = elim (Bool-cases (str_eq j k)) [
  | inl g ↦ absurd (
      true≢false (sym ((str_eq_iff i j).1 ((str_eq_iff i k).0 f ∙ sym ((str_eq_iff j k).0 g))) ∙ e))
  | inr g ↦ g
]

if_twice {ℓ} :
    {A : Type ℓ} (c : Bool) (x y z : A)
    → (if c then x else y) ≡ (if c then x else if c then z else y)
if_twice true x y z = refl
if_twice false x y z = refl

if_swap {ℓ} :
    {A : Type ℓ} (c d : Bool) (x y z : A)
    → (c ≡ true → d ≡ false)
    → (if c then x else if d then y else z) ≡ (if d then y else if c then x else z)
if_swap true d x y z apart = rw (apart refl) refl
if_swap false true x y z apart = refl
if_swap false false x y z apart = refl

pub get-put :
    {A : Type 0} (k j : String) (v : A) (fields : List (String × A))
    → get k (put j v fields) ≡ (if str_eq j k then some v else get k fields)
get-put k j v [] = refl
get-put k j v ((i, u) ∷ fields) = elim (Bool-cases (str_eq i j)) [
  | inl e ↦ rw (e, str_eq_trans i j k e) (if_twice (str_eq j k) (some v) (get k fields) (some u))
  | inr e ↦
      rw (e, get-put k j v fields)
        (if_swap (str_eq i k) (str_eq j k) (some u) (some v) (get k fields) (str_eq-apart i j k e))
]

get-parse_from :
    (k : String) (fields kvs : Fields)
    → get k (parse_from fields (flatten kvs)) ≡ last_value k kvs (get k fields)
get-parse_from k fields [] = refl
get-parse_from k fields ((j, v) ∷ kvs) =
    get-parse_from k (put j v fields) kvs ∙ rw (get-put k j v fields) refl

-- A message that was written with some fields is read with just these: each key has the last value
-- that was written under it, and a key that was not written is missing.
pub parse_field_array-flatten :
    (k : String) (kvs : Fields) → get k (parse_field_array (flatten kvs)) ≡ last_value k kvs none
parse_field_array-flatten k kvs = get-parse_from k [] kvs
