-- ===== src/Module/Types.antt =====
-- `parseType` (Module.cpp) on the names of integer types.
use tyr.Prelude.{
  ℕ, ◌+◌, ◌*◌, ◌-◌, ◌%◌, ◌^◌, ◌≤◌, ◌<◌, ◌≡◌, refl, ap, ◌∙◌, Bool, true, false, some, List, [], ◌∷◌,
  ◌++◌, map, arith, leb, ltb, lt→ltb, ◌==◌, All,
}
use tyr.Ir.{Name, Struct}
use tyr.Module.{
  same_name, starts_with_lower, has_t, after_last_t, read_digits, read_unsigned, int_name,
  uint_name, parse_single, parse_type, lower, int_n_type, int_of, repeat_type,
}

-- The number that the digits are read as, behind one that is read already.
abbrev pub decimal : ℕ → List ℕ → ℕ
decimal acc [] = acc
decimal acc (d ∷ ds) = decimal (acc * 10 + d) ds

abbrev pub digit_text : List ℕ → Name
digit_text ds = map (λ d. d + 48) ds

decimal-le : (acc : ℕ) (ds : List ℕ) → acc ≤ decimal acc ds
decimal-le acc [] = omega arith
decimal-le acc (d ∷ ds) = omega (arith, decimal-le (acc * 10 + d) ds)

read_digits-digit_text :
    (acc : ℕ) (ds : List ℕ)
    → All (λ d. d < 10) ds
    → decimal acc ds < 2 ^ 64
    → read_digits acc (digit_text ds) ≡ some (decimal acc ds)
unfolding read_digits
read_digits-digit_text acc [] h lt = refl
read_digits-digit_text acc (d ∷ ds) h lt =
    let low : leb 48 (d + 48) ≡ true = ground arith in
    let high : leb (d + 48) 57 ≡ true = ground (arith, h.0) in
    let back : d + 48 - 48 ≡ d = omega arith in
    let room : ltb (acc * 10 + d) (2 ^ 64) ≡ true =
      lt→ltb _ _ (omega (arith, decimal-le (acc * 10 + d) ds)) in
    rw (low, high, back, room) (read_digits-digit_text (acc * 10 + d) ds h.1 lt)

has_t-digit_text : (ds : List ℕ) → All (λ d. d < 10) ds → has_t (digit_text ds) ≡ false
unfolding has_t
has_t-digit_text [] h = refl
has_t-digit_text (d ∷ ds) h =
    let low : leb 65 (d + 48) ≡ false = ground (arith, h.0) in
    let ne : (d + 48 == 116) ≡ false = ground (arith, h.0) in
    rw (lower, low, ne) (has_t-digit_text ds h.1)

module _ (ss : List Struct) (s : Name) (free : has_t s ≡ false) where
  after_last_t-int : after_last_t (int_name ++ s) ≡ s
  unfolding after_last_t has_t
  after_last_t-int = rw free

  parse_single-int : parse_single ss (int_name ++ s) ≡ int_of (read_unsigned s)
  unfolding parse_single same_name starts_with_lower
  parse_single-int = ap (λ k. int_of (read_unsigned k)) after_last_t-int

  after_last_t-uint : after_last_t (uint_name ++ s) ≡ s
  unfolding after_last_t has_t
  after_last_t-uint = rw free

  parse_single-uint : parse_single ss (uint_name ++ s) ≡ int_of (read_unsigned s)
  unfolding parse_single same_name starts_with_lower
  parse_single-uint = ap (λ k. int_of (read_unsigned k)) after_last_t-uint

-- "int" or "uint" before the decimal digits of a number below `2 ^ 64` is the type of integers with
-- so many bits, of which 32 binary digits count, if LLVM has it; signed and unsigned are the same type.
pub parse_type-digit_text :
    (ss : List Struct) (d : ℕ) (ds : List ℕ)
    → All (λ d. d < 10) (d ∷ ds)
    → decimal 0 (d ∷ ds) < 2 ^ 64
    → (parse_type ss (int_name ++ digit_text (d ∷ ds)) false
        ≡ repeat_type false (int_n_type (decimal 0 (d ∷ ds) % 2 ^ 32)))
      × (parse_type ss (uint_name ++ digit_text (d ∷ ds)) false
          ≡ repeat_type false (int_n_type (decimal 0 (d ∷ ds) % 2 ^ 32)))
unfolding parse_type read_unsigned
parse_type-digit_text ss d ds h lt =
    let read : read_unsigned (digit_text (d ∷ ds)) ≡ some (decimal 0 (d ∷ ds)) =
      read_digits-digit_text 0 (d ∷ ds) h lt in
    let free = has_t-digit_text (d ∷ ds) h in
    (
      ap (repeat_type false) (parse_single-int ss (digit_text (d ∷ ds)) free ∙ ap int_of read),
      ap (repeat_type false) (parse_single-uint ss (digit_text (d ∷ ds)) free ∙ ap int_of read),
    )

-- A name that begins with "int", in any case, is never that of a struct: its type does not depend on
-- the structs of the module.
pub parse_type-int_prefix :
    (ss other : List Struct) (t : Name) (repeated : Bool)
    → starts_with_lower t int_name ≡ true
    → parse_type ss t repeated ≡ parse_type other t repeated
unfolding parse_type parse_single
parse_type-int_prefix ss other t repeated h = rw h
