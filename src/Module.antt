-- ===== src/Module.antt =====
-- lib/compiler/CodeGen/Module.cpp: the structs of a module, the names of its builtins, and the types
-- that field types name. LLVM's own module is not modelled; `getModule` hands out its data layout.
pub mod Types
pub mod Table
pub mod Link
use tyr.Prelude.{
  codes, ℕ, ◌+◌, ◌*◌, ◌-◌, ◌%◌, ◌^◌, ◌<◌, Bool, true, false, not, ◌&&◌, ◌||◌, Option, none, some,
  List, [], ◌∷◌, ltb, leb, ◌==◌, if◌then◌else◌,
}
use tyr.Ir.{Name, Ty, int_type, float_type, double_type, struct_type, pointer_to, Struct}
use tyr.Ir.Build.{make_struct}

unfoldable pub same_name : Name → Name → Bool
same_name [] [] = true
same_name [] (d ∷ b) = false
same_name (c ∷ a) [] = false
same_name (c ∷ a) (d ∷ b) = (c == d) && same_name a b

-- A builtin's key and the name of the function behind it.
pub record Builtin : Type 0 where
  pub which : Name
  pub name : Name

-- `class Module`: `m_module_structs_`, `m_builtin_names_` and `m_builtins_finalized_`.
pub record Module : Type 0 where
  pub structs : List Struct
  pub builtins : List Builtin
  pub builtins_finalized : Bool

-- `StringMap::find`
unfoldable pub find_struct : List Struct → Name → Option Struct
unfolding same_name
find_struct [] n = none
find_struct (s ∷ ss) n = let rest = find_struct ss n in if same_name s.name n then some s else rest

-- The change of a struct through its pointer.
unfoldable pub update_struct : List Struct → Name → (Struct → Struct) → List Struct
unfolding same_name
update_struct [] n change = []
update_struct (s ∷ ss) n change =
    let rest = update_struct ss n change in if same_name s.name n then change s ∷ ss else s ∷ rest

-- `getOrCreateStruct`, with the newest struct first. The order in which the iterators of the `StringMap`
-- hand structs out is that of LLVM, and no function of this module depends on it.
unfoldable pub get_or_create_struct : List Struct → Name → List Struct
unfolding find_struct
get_or_create_struct ss n = elim (find_struct ss n) [ none ↦ make_struct n ∷ ss | some s ↦ ss ]

-- `setBuiltinName`
unfoldable pub set_builtin_name : List Builtin → (which new : Name) → List Builtin
unfolding same_name
set_builtin_name [] which new = record { which = which; name = new } ∷ []
set_builtin_name (b ∷ bs) which new =
    let rest = set_builtin_name bs which new in
    if same_name b.which which then record { which = which; name = new } ∷ bs else b ∷ rest

-- `m_builtin_names_.lookup`, which is empty for a key that is not there.
unfoldable pub lookup_builtin : List Builtin → Name → Name
unfolding same_name
lookup_builtin [] which = []
lookup_builtin (b ∷ bs) which =
    let rest = lookup_builtin bs which in if same_name b.which which then b.name else rest

-- `getModule`: a null pointer unless the builtins are final.
abbrev pub has_module : Module → Bool
has_module m = m.builtins_finalized

abbrev pub lower : ℕ → ℕ
lower c = if leb 65 c && leb c 90 then c + 32 else c

-- `startswith_lower`; the prefix is in lower case.
unfoldable pub starts_with_lower : Name → Name → Bool
starts_with_lower s [] = true
starts_with_lower [] (p ∷ ps) = false
starts_with_lower (c ∷ s) (p ∷ ps) = (lower c == p) && starts_with_lower s ps

-- What stands behind the last letter "t", of either case; all if there is none, as `npos + 1` is 0.
unfoldable pub has_t : Name → Bool
has_t [] = false
has_t (c ∷ s) = (lower c == 116) || has_t s

unfoldable pub after_last_t : Name → Name
unfolding has_t
after_last_t [] = []
after_last_t (c ∷ s) =
    let rest = after_last_t s in if has_t s then rest else if lower c == 116 then s else c ∷ s

-- `getAsUnsignedInteger` with radix 10: a digit at least, no other character, and no overflow.
unfoldable pub read_digits : ℕ → Name → Option ℕ
read_digits acc [] = some acc
read_digits acc (c ∷ s) =
    let next = acc * 10 + (c - 48) in
    let rest = read_digits next s in
    if leb 48 c && leb c 57 && ltb next (2 ^ 64) then rest else none

unfoldable pub read_unsigned : Name → Option ℕ
unfolding read_digits
read_unsigned [] = none
read_unsigned (c ∷ s) = read_digits 0 (c ∷ s)

-- The outcome of a call that may answer false (or a null pointer), or run into undefined behaviour.
pub data Attempt (A : Type 0) : Type 0 where
  good : A → Attempt A
  bad : Attempt A
  crash : Attempt A

abbrev pub bool_name : Name
bool_name = codes "bool"

abbrev pub int_name : Name
int_name = codes "int"

abbrev pub uint_name : Name
uint_name = codes "uint"

abbrev pub float_name : Name
float_name = codes "float"

abbrev pub double_name : Name
double_name = codes "double"

-- `getIntNTy`, which takes widths from 1 to `2 ^ 24 - 1`.
abbrev pub int_n_type : ℕ → Attempt Ty
int_n_type bits = if leb 1 bits && ltb bits (2 ^ 24) then good (int_type bits) else crash

abbrev pub int_of : Option ℕ → Attempt Ty
int_of none = bad
int_of (some bits) = int_n_type (bits % 2 ^ 32)

-- `getType()->getPointerTo(0)`: a struct that is not final has no type yet.
abbrev struct_of : Option Struct → Attempt Ty
struct_of none = bad
struct_of (some s) = elim s.type [
  | none ↦ crash
  | some types ↦ good (pointer_to (struct_type s.name))
]

unfoldable pub parse_single : List Struct → Name → Attempt Ty
unfolding same_name starts_with_lower after_last_t read_unsigned find_struct
parse_single ss t =
    if same_name t bool_name
    then good (int_type 1)
    else if starts_with_lower t int_name || starts_with_lower t uint_name
    then int_of (read_unsigned (after_last_t t))
    else if same_name t float_name
    then good float_type
    else if same_name t double_name
    then good double_type
    else struct_of (find_struct ss t)

abbrev pub repeat_type : Bool → Attempt Ty → Attempt Ty
repeat_type true (good t) = good (pointer_to t)
repeat_type false (good t) = good t
repeat_type repeated bad = bad
repeat_type repeated crash = crash

-- `parseType`
unfoldable pub parse_type : List Struct → Name → Bool → Attempt Ty
unfolding parse_single
parse_type ss t repeated = repeat_type repeated (parse_single ss t)
