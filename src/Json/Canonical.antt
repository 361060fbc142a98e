-- ===== src/Json/Canonical.antt =====
-- Values up to the order of keys, and their canonical texts (src/contracts/ids.js).
use jarvis_agencyos.Base.{◌≡◌, refl, ap, ◌∙◌, false, [], ◌∷◌, ◌++◌, Text, text_eq}
use jarvis_agencyos.Json.{
  Json, Items, Fields, arr, obj, nil, cons, end, field, canonical_json, canonical_items,
  canonical_fields, sort_fields, insert_field, members, join,
}
use jarvis_agencyos.Json.Sorted.{insert_field_comm}

-- The same value: objects may list their keys in another order.
mutual
  pub data SameValue : Json → Json → Type 0 where
    same : (v : Json) → SameValue v v
    arrays : {xs ys : Items} → SameItems xs ys → SameValue (arr xs) (arr ys)
    objects : {fs gs : Fields} → SameFields fs gs → SameValue (obj fs) (obj gs)

  pub data SameItems : Items → Items → Type 0 where
    nils : SameItems nil nil
    conses :
        {v w : Json} {xs ys : Items}
        → SameValue v w
        → SameItems xs ys
        → SameItems (cons v xs) (cons w ys)

  pub data SameFields : Fields → Fields → Type 0 where
    ends : SameFields end end
    keeps :
        {v w : Json} {fs gs : Fields} (k : Text)
        → SameValue v w
        → SameFields fs gs
        → SameFields (field k v fs) (field k w gs)
    swaps :
        (k j : Text) (v w : Json) (fs : Fields)
        → text_eq k j ≡ false
        → SameFields (field k v (field j w fs)) (field j w (field k v fs))
    chain : {fs gs hs : Fields} → SameFields fs gs → SameFields gs hs → SameFields fs hs

mutual
  unfolding canonical_json canonical_items canonical_fields sort_fields

  value_lem : {v w : Json} → SameValue v w → canonical_json v ≡ canonical_json w
  value_lem (same v) = refl
  value_lem (arrays h) = ap (λ ts. 91 ∷ (join ts ++ 93 ∷ [])) (items_lem h)
  value_lem (objects h) = ap (λ fs. 123 ∷ (join (members fs) ++ 125 ∷ [])) (fields_lem h)

  items_lem : {xs ys : Items} → SameItems xs ys → canonical_items xs ≡ canonical_items ys
  items_lem nils = refl
  items_lem (conses h t) = λ i. value_lem h i ∷ items_lem t i

  fields_lem :
      {fs gs : Fields}
      → SameFields fs gs
      → sort_fields (canonical_fields fs) ≡ sort_fields (canonical_fields gs)
  fields_lem ends = refl
  fields_lem (keeps k h t) = λ i. insert_field (k, value_lem h i) (fields_lem t i)
  fields_lem (swaps k j v w fs h) =
      insert_field_comm (k, canonical_json v) (j, canonical_json w)
        (sort_fields (canonical_fields fs)) h
  fields_lem (chain h k) = fields_lem h ∙ fields_lem k

-- Two values that differ only in the order of keys, at any depth, have one canonical text.
pub canonical_json-SameValue : (v w : Json) → SameValue v w → canonical_json v ≡ canonical_json w
canonical_json-SameValue v w h = value_lem h
