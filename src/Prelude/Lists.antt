-- ===== src/Prelude/Lists.antt =====
-- Lists measured and indexed by native numbers, under the library's names, and slices of lists.
use Prim.Native.Nat.{ℕ, zero, suc, ◌+◌, ◌<◌}
use mathlib.Core.Path.{◌≡◌, refl, ap}
use mathlib.Core.Logic.{◌≢◌}
use mathlib.Core.List.{List, [], ◌∷◌, ◌++◌}
use mathlib.Core.Option
use mathlib.Core.Option.{Option, none, some}
use native.Mathlib.Omega.{arith}

module _ {ℓ} {A : Type ℓ} where
  abbrev pub length : List A → ℕ
  length [] = 0
  length (x ∷ xs) = suc (length xs)

  abbrev pub get_elem? : List A → ℕ → Option A
  get_elem? [] i = none
  get_elem? (x ∷ xs) zero = some x
  get_elem? (x ∷ xs) (suc i) = get_elem? xs i

  -- A write out of bounds changes nothing.
  abbrev pub set : List A → ℕ → A → List A
  set [] i v = []
  set (x ∷ xs) zero v = v ∷ xs
  set (x ∷ xs) (suc i) v = x ∷ set xs i v

  abbrev pub replicate : ℕ → A → List A
  replicate zero a = []
  replicate (suc n) a = a ∷ replicate n a

  -- The `n` elements from index `i` on, if the list has as many.
  pub slice : List A → ℕ → ℕ → Option (List A)
  slice xs zero zero = some []
  slice [] zero (suc n) = none
  slice (x ∷ xs) zero (suc n) = Option.map (◌∷◌ x) (slice xs zero n)
  slice [] (suc i) n = none
  slice (x ∷ xs) (suc i) n = slice xs i n

  -- The list with the elements from index `i` on replaced by `ys`, if it has as many.
  pub splice : List A → ℕ → List A → Option (List A)
  splice xs zero [] = some xs
  splice [] zero (y ∷ ys) = none
  splice (x ∷ xs) zero (y ∷ ys) = Option.map (◌∷◌ y) (splice xs zero ys)
  splice [] (suc i) ys = none
  splice (x ∷ xs) (suc i) ys = Option.map (◌∷◌ x) (splice xs i ys)

module _ {ℓ κ} {A : Type ℓ} (P : A → Type κ) where
  abbrev pub All : List A → Type κ
  All [] = Unit
  All (x ∷ xs) = P x × All xs

module _ {ℓ} {A : Type ℓ} where
  pub length-append : (xs ys : List A) → length (xs ++ ys) ≡ length xs + length ys
  length-append [] ys = omega arith
  length-append (x ∷ xs) ys = omega (arith, length-append xs ys)

  pub length-set : (xs : List A) (i : ℕ) (v : A) → length (set xs i v) ≡ length xs
  length-set [] i v = refl
  length-set (x ∷ xs) zero v = refl
  length-set (x ∷ xs) (suc i) v = ap suc (length-set xs i v)

  pub length-replicate : (n : ℕ) (a : A) → length (replicate n a) ≡ n
  length-replicate zero a = refl
  length-replicate (suc n) a = ap suc (length-replicate n a)

  pub get_elem?-set_self :
      (xs : List A) (i : ℕ) (v : A) → i < length xs → get_elem? (set xs i v) i ≡ some v
  get_elem?-set_self [] i v h = elim h [ ]
  get_elem?-set_self (x ∷ xs) zero v h = refl
  get_elem?-set_self (x ∷ xs) (suc i) v h = get_elem?-set_self xs i v (omega arith)

  pub get_elem?-set_ne :
      (xs : List A) (i j : ℕ) (v : A) → i ≢ j → get_elem? (set xs i v) j ≡ get_elem? xs j
  get_elem?-set_ne [] i j v h = refl
  get_elem?-set_ne (x ∷ xs) zero zero v h = absurd (h refl)
  get_elem?-set_ne (x ∷ xs) zero (suc j) v h = refl
  get_elem?-set_ne (x ∷ xs) (suc i) zero v h = refl
  get_elem?-set_ne (x ∷ xs) (suc i) (suc j) v h = get_elem?-set_ne xs i j v (λ e. h (ap suc e))

  pub get_elem?-lt : (xs : List A) (i : ℕ) {x : A} → get_elem? xs i ≡ some x → i < length xs
  get_elem?-lt [] i h = cc
  get_elem?-lt (x ∷ xs) zero h = omega arith
  get_elem?-lt (x ∷ xs) (suc i) h = omega (arith, get_elem?-lt xs i h)

  pub get_elem?-some : (xs : List A) (i : ℕ) → i < length xs → (x : A) × (get_elem? xs i ≡ some x)
  get_elem?-some [] i h = elim h [ ]
  get_elem?-some (x ∷ xs) zero h = (x, refl)
  get_elem?-some (x ∷ xs) (suc i) h = get_elem?-some xs i (omega arith)

  slice-front : (ys zs : List A) → slice (ys ++ zs) 0 (length ys) ≡ some ys
  unfolding slice
  slice-front [] zs = refl
  slice-front (y ∷ ys) zs = rw (slice-front ys zs)

  -- A slice of a list that is given in three parts.
  pub slice-append :
      (xs ys zs : List A) → slice (xs ++ (ys ++ zs)) (length xs) (length ys) ≡ some ys
  unfolding slice
  slice-append [] ys zs = slice-front ys zs
  slice-append (x ∷ xs) ys zs = slice-append xs ys zs

  splice-front :
      (ys old zs : List A) → length old ≡ length ys → splice (old ++ zs) 0 ys ≡ some (ys ++ zs)
  unfolding splice
  splice-front [] [] zs h = refl
  splice-front [] (o ∷ old) zs h = absurd (omega arith)
  splice-front (y ∷ ys) [] zs h = absurd (omega arith)
  splice-front (y ∷ ys) (o ∷ old) zs h = rw (splice-front ys old zs (omega arith))

  pub splice-append :
      (xs ys old zs : List A)
      → length old ≡ length ys
      → splice (xs ++ (old ++ zs)) (length xs) ys ≡ some (xs ++ (ys ++ zs))
  unfolding splice
  splice-append [] ys old zs h = splice-front ys old zs h
  splice-append (x ∷ xs) ys old zs h = rw (splice-append xs ys old zs h)

  -- A write that passes the end of the list is refused.
  pub splice_past : (xs ys : List A) (i : ℕ) → length xs < i + length ys → splice xs i ys ≡ none
  unfolding splice
  splice_past xs [] zero h = absurd (omega arith)
  splice_past [] (y ∷ ys) zero h = refl
  splice_past (x ∷ xs) (y ∷ ys) zero h = rw (splice_past xs ys zero (omega arith))
  splice_past [] ys (suc i) h = refl
  splice_past (x ∷ xs) ys (suc i) h = rw (splice_past xs ys i (omega arith))

  pub slice_past : (xs : List A) (i n : ℕ) → length xs < i + n → slice xs i n ≡ none
  unfolding slice
  slice_past xs zero zero h = absurd (omega arith)
  slice_past [] zero (suc n) h = refl
  slice_past (x ∷ xs) zero (suc n) h = rw (slice_past xs zero n (omega arith))
  slice_past [] (suc i) n h = refl
  slice_past (x ∷ xs) (suc i) n h = slice_past xs i n (omega arith)

  pub slice_one : (xs : List A) (i : ℕ) → i < length xs → (x : A) × (slice xs i 1 ≡ some (x ∷ []))
  unfolding slice
  slice_one [] i h = elim h [ ]
  slice_one (x ∷ xs) zero h = (x, refl)
  slice_one (x ∷ xs) (suc i) h = slice_one xs i (omega arith)

  -- The first `n` elements and the rest.
  pub split_at :
      (n k : ℕ) (xs : List A)
      → length xs ≡ n + k
      → (ys : List A) × (zs : List A) × (xs ≡ ys ++ zs) × (length ys ≡ n) × (length zs ≡ k)
  split_at zero k xs h = ([], xs, refl, refl, omega arith)
  split_at (suc n) k [] h = absurd (omega arith)
  split_at (suc n) k (x ∷ xs) h =
      let (ys, zs, e, l, r) = split_at n k xs (omega arith) in
      (x ∷ ys, zs, ap (◌∷◌ x) e, ap suc l, r)
