-- ===== src/Json.antt =====
-- Canonical JSON (`canonicalJson`, src/contracts/ids.js and src/builder/contracts.js) over the values
-- that the program hashes: no fractions, no lone surrogates in a text, distinct keys in an object.
pub mod Sorted
pub mod Canonical
use Prim.Native.Nat.{◌/◌, ◌%◌}
use jarvis_agencyos.Base.{
  ℕ, zero, suc, ◌+◌, Bool, true, false, ◌||◌, List, [], ◌∷◌, ◌++◌, Text, codes, text_leb, ltb, ◌==◌,
  if◌then◌else◌,
}

mutual
  pub data Json : Type 0 where
    null : Json
    bool : Bool → Json
    num : ℕ → Json
    str : Text → Json
    arr : Items → Json
    obj : Fields → Json

  pub data Items : Type 0 where
    nil : Items
    cons : Json → Items → Items

  pub data Fields : Type 0 where
    end : Fields
    field : Text → Json → Fields → Fields

-- The decimal digits of a number, most significant first; a number has fewer digits than `n + 1`.
decimal : ℕ → ℕ → Text → Text
decimal zero n acc = acc
decimal (suc fuel) n acc =
    let here = (48 + n % 10) ∷ acc in
    let more = decimal fuel (n / 10) here in if ltb n 10 then here else more

hex_digit : ℕ → ℕ
hex_digit d = if ltb d 10 then 48 + d else 87 + d

-- One unit of a text inside quotes, as `JSON.stringify` writes it.
escape : ℕ → Text
unfolding hex_digit
escape c =
    if c == 34
    then codes "\\\""
    else if c == 92
    then codes "\\\\"
    else if c == 8
    then codes "\\b"
    else if c == 9
    then codes "\\t"
    else if c == 10
    then codes "\\n"
    else if c == 12
    then codes "\\f"
    else if c == 13
    then codes "\\r"
    else if ltb c 32
    then codes "\\u00" ++ hex_digit (c / 16) ∷ hex_digit (c % 16) ∷ []
    else c ∷ []

escape_all : Text → Text
unfolding escape
escape_all [] = []
escape_all (c ∷ s) = escape c ++ escape_all s

pub quote : Text → Text
unfolding escape_all
quote s = 34 ∷ (escape_all s ++ 34 ∷ [])

-- `parts.join(',')`
join : List Text → Text
join [] = []
join (t ∷ []) = t
join (t ∷ u ∷ ts) = t ++ 44 ∷ join (u ∷ ts)

-- A field that is rendered: its key and the text of its value.
abbrev pub Rendered : Type 0
Rendered = Text × Text

pub insert_field : Rendered → List Rendered → List Rendered
insert_field a [] = a ∷ []
insert_field a (b ∷ bs) = if text_leb a.0 b.0 then a ∷ b ∷ bs else b ∷ insert_field a bs

-- The fields in the order of their keys (`Object.keys(value).sort()`).
pub sort_fields : List Rendered → List Rendered
unfolding insert_field
sort_fields [] = []
sort_fields (a ∷ as') = insert_field a (sort_fields as')

-- `JSON.stringify(k) + ':' + canonicalJson(value[k])`
member : Rendered → Text
unfolding quote
member (k, v) = quote k ++ 58 ∷ v

members : List Rendered → List Text
unfolding member
members [] = []
members (a ∷ as') = member a ∷ members as'

unfoldable mutual
  unfolding decimal quote join members sort_fields

  pub canonical_json : Json → Text
  canonical_json null = codes "null"
  canonical_json (bool true) = codes "true"
  canonical_json (bool false) = codes "false"
  canonical_json (num n) = decimal (suc n) n []
  canonical_json (str s) = quote s
  canonical_json (arr xs) = 91 ∷ (join (canonical_items xs) ++ 93 ∷ [])
  canonical_json (obj fs) = 123 ∷ (join (members (sort_fields (canonical_fields fs))) ++ 125 ∷ [])

  pub canonical_items : Items → List Text
  canonical_items nil = []
  canonical_items (cons x xs) = canonical_json x ∷ canonical_items xs

  pub canonical_fields : Fields → List Rendered
  canonical_fields end = []
  canonical_fields (field k v fs) = (k, canonical_json v) ∷ canonical_fields fs

-- An array of texts.
abbrev pub texts : List Text → Items
texts [] = nil
texts (t ∷ ts) = cons (str t) (texts ts)
