-- ===== src/Module/Table.antt =====
-- The tables of Module.cpp: structs by name, and builtins.
use tyr.Prelude.{
  Option, ◌≡◌, refl, ap, true, false, none, some, List, [], ◌∷◌, arith, ◌==◌, Bool-cases,
  Option-cases, inl, inr,
}
use tyr.Ir.{Name, Struct}
use tyr.Ir.Build.{make_struct}
use tyr.Module.{
  same_name, find_struct, update_struct, get_or_create_struct, Builtin, set_builtin_name,
  lookup_builtin,
}

pub same_name_self : (n : Name) → same_name n n ≡ true
unfolding same_name
same_name_self [] = refl
same_name_self (c ∷ n) = let e : (c == c) ≡ true = ground arith in rw (e, same_name_self n)

same_name→eq : (a b : Name) → same_name a b ≡ true → a ≡ b
unfolding same_name
same_name→eq [] [] h = refl
same_name→eq [] (d ∷ b) h = cc h
same_name→eq (c ∷ a) [] h = cc h
same_name→eq (c ∷ a) (d ∷ b) h = elim (Bool-cases (c == d)) [
  | inl e ↦ let first : c ≡ d = ground arith in rw (first, same_name→eq a b (rw e at h))
  | inr e ↦ cc (rw e at h)
]

module _ (ss : List Struct) (n : Name) where
  get_or_create_struct-none :
      find_struct ss n ≡ none → get_or_create_struct ss n ≡ make_struct n ∷ ss
  unfolding get_or_create_struct
  get_or_create_struct-none e = rw (get_or_create_struct, e)

  get_or_create_struct-some :
      {s : Struct} → find_struct ss n ≡ some s → get_or_create_struct ss n ≡ ss
  unfolding get_or_create_struct
  get_or_create_struct-some e = rw (get_or_create_struct, e)

  find_struct-make_struct : find_struct (make_struct n ∷ ss) n ≡ some (make_struct n)
  unfolding find_struct
  find_struct-make_struct = rw (same_name_self n)

-- After `getOrCreateStruct` the struct of that name is there: the one that was there before, or a
-- new one without fields; and a second call changes nothing.
pub find_struct-get_or_create_struct :
    (ss : List Struct) (n : Name)
    → (find_struct (get_or_create_struct ss n) n
        ≡ some (elim (find_struct ss n) [ none ↦ make_struct n | some s ↦ s ]))
      × (get_or_create_struct (get_or_create_struct ss n) n ≡ get_or_create_struct ss n)
find_struct-get_or_create_struct ss n = elim (Option-cases (find_struct ss n)) [
  | inl e ↦
      let made = find_struct-make_struct ss n in
      (
        rw (get_or_create_struct-none ss n e, made, e),
        rw (get_or_create_struct-none ss n e)
            (get_or_create_struct-some (make_struct n ∷ ss) n made),
      )
  | inr (s, e) ↦ (
    rw (get_or_create_struct-some ss n e, e),
    ap (λ k. get_or_create_struct k n) (get_or_create_struct-some ss n e),
  )
]

-- `lookup` of a builtin's name after `setBuiltinName`: the new name, and for any other key what it
-- was.
pub lookup_builtin-set_builtin_name :
    (bs : List Builtin) (which new : Name)
    → (lookup_builtin (set_builtin_name bs which new) which ≡ new)
      × ((other : Name)
          → same_name which other ≡ false
          → lookup_builtin (set_builtin_name bs which new) other ≡ lookup_builtin bs other)
unfolding lookup_builtin set_builtin_name
lookup_builtin-set_builtin_name [] which new = (rw (same_name_self which), λ other ne. rw ne)
lookup_builtin-set_builtin_name (b ∷ bs) which new =
    let ih = lookup_builtin-set_builtin_name bs which new in
    elim (Bool-cases (same_name b.which which)) [
      | inl e ↦ (rw (e, same_name_self which), λ other ne. rw (e, same_name→eq b.which which e, ne))
      | inr e ↦ (rw (e, e, ih.0), λ other ne. rw (e, ih.1 other ne))
    ]

-- The change of a struct through its pointer is what is found afterwards.
pub find_struct-update_struct :
    (ss : List Struct) (n : Name) (change : Struct → Struct)
    → ((s : Struct) → (change s).name ≡ s.name)
    → (s : Struct) → find_struct ss n ≡ some s
    → find_struct (update_struct ss n change) n ≡ some (change s)
unfolding find_struct update_struct
find_struct-update_struct [] n change keep s h = cc h
find_struct-update_struct (x ∷ ss) n change keep s h = elim (Bool-cases (same_name x.name n)) [
  | inl e ↦
      let found : some x ≡ some s = rw e at h in
      simp (e, keep x)
        (ap (λ (o : Option Struct). elim o [ none ↦ none | some y ↦ some (change y) ]) found)
  | inr e ↦ rw (e, e) (find_struct-update_struct ss n change keep s (rw e at h))
]
