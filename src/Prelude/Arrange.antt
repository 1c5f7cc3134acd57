-- ===== src/Prelude/Arrange.antt =====
-- Members of a list, and orders of the same elements.
use mathlib.Core.List.{List, [], ◌∷◌, ◌++◌}
use tyr.Prelude.Lists.{All}

module _ {ℓ} {A : Type ℓ} where
  pub data Among : A → List A → Type ℓ where
    first : {a : A} {xs : List A} → Among a (a ∷ xs)
    later : {a x : A} {xs : List A} → Among a xs → Among a (x ∷ xs)

  -- The second list is the first with `x` put in somewhere.
  pub data Inserted (x : A) : List A → List A → Type ℓ where
    here : {xs : List A} → Inserted x xs (x ∷ xs)
    there : {y : A} {xs ys : List A} → Inserted x xs ys → Inserted x (y ∷ xs) (y ∷ ys)

  pub data Rearranged : List A → List A → Type ℓ where
    empty : Rearranged [] []
    put : {x : A} {xs ys zs : List A} → Rearranged xs ys → Inserted x ys zs → Rearranged (x ∷ xs) zs

  pub Among-append_left : {a : A} {xs : List A} (ys : List A) → Among a xs → Among a (xs ++ ys)
  Among-append_left ys first = first
  Among-append_left ys (later m) = later (Among-append_left ys m)

  pub Among-append_right : {a : A} (xs : List A) {ys : List A} → Among a ys → Among a (xs ++ ys)
  Among-append_right [] m = m
  Among-append_right (x ∷ xs) m = later (Among-append_right xs m)

  Inserted-new : {x : A} {xs ys : List A} → Inserted x xs ys → Among x ys
  Inserted-new here = first
  Inserted-new (there i) = later (Inserted-new i)

  Inserted-old : {a x : A} {xs ys : List A} → Inserted x xs ys → Among a xs → Among a ys
  Inserted-old here m = later m
  Inserted-old (there i) first = first
  Inserted-old (there i) (later m) = later (Inserted-old i m)

  pub Among-Rearranged : {a : A} {xs ys : List A} → Rearranged xs ys → Among a xs → Among a ys
  Among-Rearranged empty m = elim m [ ]
  Among-Rearranged (put r i) first = Inserted-new i
  Among-Rearranged (put r i) (later m) = Inserted-old i (Among-Rearranged r m)

module _ {ℓ κ} {A : Type ℓ} (P : A → Type κ) where
  pub All-Among : {a : A} {xs : List A} → All P xs → Among a xs → P a
  All-Among h first = h.0
  All-Among h (later m) = All-Among h.1 m

  pub All-append : (xs ys : List A) → All P xs → All P ys → All P (xs ++ ys)
  All-append [] ys h k = k
  All-append (x ∷ xs) ys h k = (h.0, All-append xs ys h.1 k)

  pub All-Inserted : {x : A} {xs ys : List A} → Inserted x xs ys → P x → All P xs → All P ys
  All-Inserted here h hs = (h, hs)
  All-Inserted (there i) h hs = (hs.0, All-Inserted i h hs.1)

  pub All-Rearranged : {xs ys : List A} → Rearranged xs ys → All P xs → All P ys
  All-Rearranged empty h = h
  All-Rearranged (put r i) h = All-Inserted i h.0 (All-Rearranged r h.1)

  pub All-Inserted_new : {x : A} {xs ys : List A} → Inserted x xs ys → All P ys → P x
  All-Inserted_new here h = h.0
  All-Inserted_new (there i) h = All-Inserted_new i h.1

module _ {ℓ κ μ} {A : Type ℓ} {P : A → Type κ} {Q : A → Type μ} where
  pub All-map : (xs : List A) → ((a : A) → P a → Q a) → All P xs → All Q xs
  All-map [] f h = tt
  All-map (x ∷ xs) f h = (f x h.0, All-map xs f h.1)
