-- ===== src/Json/Sorted.antt =====
-- Insertion of fields by key, as canonicalJson sorts them (src/contracts/ids.js).
use jarvis_agencyos.Base.{◌≡◌, refl, true, false, List, [], ◌∷◌, arith, Text, text_eq, text_leb}
use jarvis_agencyos.Json.{Rendered, insert_field}

pub text_leb-total : (s t : Text) → text_leb s t ≡ false → text_leb t s ≡ true
text_leb-total [] t h = ground arith
text_leb-total (a ∷ s) [] h = refl
text_leb-total (a ∷ s) (b ∷ t) h = ground (arith, text_leb-total s t)

pub text_leb_trans :
    (s t u : Text) → text_leb s t ≡ true → text_leb t u ≡ true → text_leb s u ≡ true
text_leb_trans [] t u h k = refl
text_leb_trans (a ∷ s) [] u h k = ground arith
text_leb_trans (a ∷ s) (b ∷ t) [] h k = ground arith
text_leb_trans (a ∷ s) (b ∷ t) (c ∷ u) h k = ground (arith, text_leb_trans s t u)

pub text_leb_antisymm :
    (s t : Text) → text_leb s t ≡ true → text_leb t s ≡ true → text_eq s t ≡ true
text_leb_antisymm [] [] h k = refl
text_leb_antisymm [] (b ∷ t) h k = ground arith
text_leb_antisymm (a ∷ s) [] h k = ground arith
text_leb_antisymm (a ∷ s) (b ∷ t) h k = ground (arith, text_leb_antisymm s t)

pub insert_field_comm :
    (a b : Rendered) (l : List Rendered)
    → text_eq a.0 b.0 ≡ false
    → insert_field a (insert_field b l) ≡ insert_field b (insert_field a l)
unfolding insert_field
insert_field_comm a b [] h = ground (arith, text_leb-total a.0 b.0, text_leb_antisymm a.0 b.0)
insert_field_comm a b (c ∷ l) h = ground (
  arith,
  insert_field_comm a b l h,
  text_leb-total a.0 b.0,
  text_leb_antisymm a.0 b.0,
  text_leb-total a.0 c.0,
  text_leb-total b.0 c.0,
  text_leb_trans a.0 b.0 c.0,
  text_leb_trans b.0 a.0 c.0,
)
