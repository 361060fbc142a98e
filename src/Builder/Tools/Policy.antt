-- ===== src/Builder/Tools/Policy.antt =====
-- Resolution of providers and the scan of research output (src/builder/tool-policy.js).
use jarvis_agencyos.Base.{
  ℕ, zero, suc, ◌≡◌, ◌≢◌, refl, sym, subst, ◌∙◌, text_eq, text_eq_sound, text_eq_refl, not, ◌&&◌,
  Bool, true, false, ◌⊎◌, inl, inr, some, List, [], ◌∷◌, ◌++◌, Text, arith, if◌then◌else◌, has_text,
  select, Bool-cases,
}
use jarvis_agencyos.Exec.{Result, ok, err}
use jarvis_agencyos.Json.{Json, Items, Fields, null, bool, num, str, arr, obj, nil, cons, field}
use jarvis_agencyos.Builder.State.{Task}
use jarvis_agencyos.Builder.Tools.{
  get_allowed_tool_manifest, Resolved, alternates, only_alternate, resolve_permitted_provider,
  assert_research_cannot_mutate_authority, collect_forbidden, collect_items, collect_fields,
  is_forbidden_key, none_collected,
}

err≢ok {ℓ} : {E A : Type ℓ} {e : E} {a : A} → ◌≡◌ {A = Result E A} (err e) (ok a) → ⊥
err≢ok h = cc

false≢true : false ≡ true → ⊥
false≢true h = ground arith

abbrev pub providers_of : Task → List Text
providers_of t = (get_allowed_tool_manifest t).providers

has_text-select :
    (p : Text → Bool) (x : Text) (xs : List Text)
    → has_text x (select p xs) ≡ true
    → has_text x xs ≡ true
has_text-select p x [] h = h
has_text-select p x (y ∷ ys) h = ground (arith, has_text-select p x ys)

chosen :
    (requested : Text) (r : Resolved) (free : Bool) (ps : List Text)
    → (if free then ok (record { provider = requested; fallback = false }) else only_alternate ps)
      ≡ ok r
    → ((free ≡ true) × (r.provider ≡ requested) × (r.fallback ≡ false))
      ⊎ ((free ≡ false) × (ps ≡ r.provider ∷ []) × (r.fallback ≡ true))
chosen requested r true ps h = ground arith
chosen requested r false [] h = ground arith
chosen requested r false (p ∷ []) h = ground arith
chosen requested r false (p ∷ q ∷ ps) h = ground arith

-- Permitted, available, and not the one asked for.
abbrev pub Alternate : List Text → (Text → Bool) → Text → Text → Type 0
Alternate permitted available requested p =
    (has_text p permitted ≡ true) × (available p ≡ true) × (p ≢ requested)

alternates-Alternate :
    (available : Text → Bool) (requested p : Text) (permitted : List Text)
    → has_text p (alternates available requested permitted) ≡ true
    → Alternate permitted available requested p
alternates-Alternate available requested p [] h = absurd (false≢true h)
alternates-Alternate available requested p (q ∷ qs) h =
    elim (Bool-cases (not (text_eq q requested) && available q)) [
      | inr out ↦
          let (there, free, other) = alternates-Alternate available requested p qs (rw out at h) in
          (ground (arith, there), free, other)
      | inl kept ↦ elim (Bool-cases (text_eq q p)) [
        | inl here ↦ (
          ground (arith, here),
          subst (λ x. available x ≡ true) (text_eq_sound q p here) (ground (arith, kept)),
          λ e. differs (text_eq_sound q p here ∙ e) (ground (arith, kept)),
        )
        | inr later ↦
            let (there, free, other) =
              alternates-Alternate available requested p qs (rw later at (rw kept at h)) in
            (ground (arith, there), free, other)
      ]
    ]
  where
    differs : q ≡ requested → text_eq q requested ≡ false → ⊥
    differs e n = false≢true (sym n ∙ rw e (text_eq_refl requested))

Alternate-alternates :
    (available : Text → Bool) (requested p : Text) (permitted : List Text)
    → Alternate permitted available requested p
    → has_text p (alternates available requested permitted) ≡ true
Alternate-alternates available requested p permitted (there, free, other) = still permitted there
  where
    apart : text_eq p requested ≡ false
    apart = elim (Bool-cases (text_eq p requested)) [
      | inl same ↦ absurd (other (text_eq_sound p requested same))
      | inr n ↦ n
    ]

    still :
        (qs : List Text)
        → has_text p qs ≡ true
        → has_text p (alternates available requested qs) ≡ true
    still [] h = h
    still (q ∷ qs) h = elim (Bool-cases (text_eq q p)) [
      | inl here ↦
          let e : q ≡ p = text_eq_sound q p here in rw (e, apart, free, text_eq_refl p) refl
      | inr later ↦ elim (Bool-cases (not (text_eq q requested) && available q)) [
        | inl kept ↦ rw (kept, later) (still qs (rw later at h))
        | inr out ↦ rw out (still qs (rw later at h))
      ]
    ]

only : (p q : Text) → has_text p (q ∷ []) ≡ true → p ≡ q
only p q h = sym (text_eq_sound q p (ground (arith, h)))

-- What is said of a provider that is resolved.
abbrev pub IsResolved : Task → Text → (Text → Bool) → Resolved → Type 0
IsResolved t requested available r =
    (has_text requested (providers_of t) ≡ true)
    × (has_text r.provider (providers_of t) ≡ true)
    × (available r.provider ≡ true)
    × (((r.provider ≡ requested) × (r.fallback ≡ false))
        ⊎ ((available requested ≡ false)
            × (r.fallback ≡ true)
            × (r.provider ≢ requested)
            × ((p : Text) → Alternate (providers_of t) available requested p → p ≡ r.provider)))

resolved-parts :
    (t : Task) (requested : Text) (available : Text → Bool) (r : Resolved)
    → has_text requested (providers_of t) ≡ true
    → ((available requested ≡ true) × (r.provider ≡ requested) × (r.fallback ≡ false))
      ⊎ ((available requested ≡ false)
          × (alternates available requested (providers_of t) ≡ r.provider ∷ [])
          × (r.fallback ≡ true))
    → IsResolved t requested available r
resolved-parts t requested available r permitted (inl (free, same, direct)) =
    (permitted, rw same permitted, rw same free, inl (same, direct))
resolved-parts t requested available r permitted (inr (busy, one, fallback)) =
    let (there, free, other) =
      alternates-Alternate available requested r.provider (providers_of t)
        (rw one (ground (arith, text_eq_refl r.provider))) in
    (
      permitted,
      there,
      free,
      inr (
        busy,
        fallback,
        other,
        λ p a. only p r.provider (
            subst (λ xs. has_text p xs ≡ true) one
              (Alternate-alternates available requested p (providers_of t) a)),
      ),
    )

-- A provider that is resolved is permitted and available. It is the one asked for; or the one asked
-- for is permitted but unavailable, and the resolved one is another, the only other provider that is
-- permitted and available.
pub resolve_permitted_provider-ok :
    (t : Task) (requested : Text) (available : Text → Bool) (r : Resolved)
    → resolve_permitted_provider t (some requested) available ≡ ok r
    → IsResolved t requested available r
unfolding resolve_permitted_provider
resolve_permitted_provider-ok t requested available r h =
    elim (Bool-cases (has_text requested (providers_of t))) [
      | inr denied ↦ absurd (err≢ok (rw denied at h))
      | inl permitted ↦ resolved-parts t requested available r permitted (
          chosen requested r (available requested) (alternates available requested (providers_of t))
            (rw permitted at h))
    ]

-- `SeenKey n v k`: an object in the value has the key `k`, with fewer than `n` arrays and objects
-- around that object.
mutual
  pub data SeenKey : ℕ → Json → Text → Type 0 where
    in_array : {n : ℕ} {xs : Items} {k : Text} → SeenItem n xs k → SeenKey (suc n) (arr xs) k
    in_object : {n : ℕ} {fs : Fields} {k : Text} → SeenField n fs k → SeenKey (suc n) (obj fs) k

  pub data SeenItem : ℕ → Items → Text → Type 0 where
    first_item :
        {n : ℕ} {x : Json} {xs : Items} {k : Text} → SeenKey n x k → SeenItem n (cons x xs) k
    later_item :
        {n : ℕ} {x : Json} {xs : Items} {k : Text} → SeenItem n xs k → SeenItem n (cons x xs) k

  pub data SeenField : ℕ → Fields → Text → Type 0 where
    this_key : {n : ℕ} {k : Text} {v : Json} {fs : Fields} → SeenField n (field k v fs) k
    in_value :
        {n : ℕ} {j k : Text} {v : Json} {fs : Fields} → SeenKey n v k → SeenField n (field j v fs) k
    later_field :
        {n : ℕ} {j k : Text} {v : Json} {fs : Fields}
        → SeenField n fs k
        → SeenField n (field j v fs) k

cons≢nil : {x : Text} {xs : List Text} → ◌≡◌ {A = List Text} (x ∷ xs) [] → ⊥
cons≢nil h = cc

collected : (ks : List Text) → none_collected ks ≡ ok tt → ks ≡ []
collected [] h = refl
collected (k ∷ ks) h = absurd (err≢ok h)

key-allowed :
    (k : Text) → (if is_forbidden_key k then k ∷ [] else []) ≡ [] → is_forbidden_key k ≡ false
key-allowed k h = ground arith

append-nil : (xs ys : List Text) → xs ++ ys ≡ [] → (xs ≡ []) × (ys ≡ [])
append-nil [] ys h = (refl, h)
append-nil (x ∷ xs) ys h = absurd (cons≢nil h)

mutual
  unfolding collect_forbidden collect_items collect_fields

  seen-allowed :
      {n : ℕ} {v : Json} {k : Text}
      → SeenKey n v k
      → collect_forbidden n v ≡ []
      → is_forbidden_key k ≡ false
  seen-allowed (in_array s) h = item-allowed s h
  seen-allowed (in_object s) h = field-allowed s h

  item-allowed :
      {n : ℕ} {xs : Items} {k : Text}
      → SeenItem n xs k
      → collect_items n xs ≡ []
      → is_forbidden_key k ≡ false
  item-allowed (first_item s) h = seen-allowed s (append-nil _ _ h).0
  item-allowed (later_item s) h = item-allowed s (append-nil _ _ h).1

  field-allowed :
      {n : ℕ} {fs : Fields} {k : Text}
      → SeenField n fs k
      → collect_fields n fs ≡ []
      → is_forbidden_key k ≡ false
  field-allowed this_key h = key-allowed _ (append-nil _ _ h).0
  field-allowed (in_value s) h = seen-allowed s (append-nil _ _ (append-nil _ _ h).1).0
  field-allowed (later_field s) h = field-allowed s (append-nil _ _ (append-nil _ _ h).1).1

-- A result that is let through has no key that names an authority, as far as fewer than seven arrays
-- and objects stand around the object it is in.
pub assert_research-seen :
    (v : Json) (k : Text)
    → assert_research_cannot_mutate_authority v ≡ ok tt
    → SeenKey 7 v k
    → is_forbidden_key k ≡ false
unfolding assert_research_cannot_mutate_authority
assert_research-seen v k h s = seen-allowed s (collected (collect_forbidden 7 v) h)

-- Arrays around a value, one inside the other.
pub nest : ℕ → Json → Json
nest zero v = v
nest (suc n) v = arr (cons (nest n v) nil)

no_keys : (v : Json) → collect_forbidden 0 v ≡ []
unfolding collect_forbidden
no_keys null = refl
no_keys (bool b) = refl
no_keys (num n) = refl
no_keys (str t) = refl
no_keys (arr xs) = refl
no_keys (obj fs) = refl

-- What stands inside seven arrays is let through, whatever it is.
pub assert_research-nest : (v : Json) → assert_research_cannot_mutate_authority (nest 7 v) ≡ ok tt
unfolding assert_research_cannot_mutate_authority collect_forbidden nest
assert_research-nest v = rw (no_keys v) refl
