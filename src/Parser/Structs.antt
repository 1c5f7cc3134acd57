-- ===== src/Parser/Structs.antt =====
-- Which structs Parser.cpp makes of a file.
use tyr.Prelude.{
  ℕ, ◌+◌, ◌%◌, ◌^◌, ◌≡◌, refl, Bool, true, false, Option, none, some, List, [], ◌∷◌, if◌then◌else◌,
  get_elem?, length, ◌||◌, All, leb, Option-cases, Bool-cases, inl, inr, ◌⊎◌,
}
use tyr.Ir.{Name, Ty, Struct}
use tyr.Ir.Build.{
  Sorter, make_struct, set_is_packed, add_field, add_repeated_field, finalize_fields,
}
use tyr.Ir.Links.{Built, created, packed, field_added, repeated_added, finalized}
use tyr.Layout.{DataLayout}
use tyr.Module.{
  Module, same_name, update_struct, get_or_create_struct, find_struct, Attempt, good, bad, crash,
  parse_type, has_module,
}
use tyr.Parser.{
  Parser, add_parsed, begin_struct, parse_struct, parse_end, add_typed, parse_field, parse_line,
  Line, ignored, comment_opened, comment_closed, misplaced, code, read_line, Outcome, parsed,
  failed, crashed, parse_lines, parse_file, is_token, struct_token, brace_token, mutable_token,
  repeated_token, type_at, last_token, attempt,
}

Attempt-cases : {A : Type 0} (a : Attempt A) → ((x : A) × (a ≡ good x)) ⊎ ((a ≡ bad) ⊎ (a ≡ crash))
Attempt-cases (good x) = inl (x, refl)
Attempt-cases bad = inr (inl refl)
Attempt-cases crash = inr (inr refl)

pub Line-cases :
    (l : Line)
    → (l ≡ ignored)
      ⊎ ((l ≡ comment_opened)
          ⊎ ((l ≡ comment_closed) ⊎ ((l ≡ misplaced) ⊎ ((text : Name) × (l ≡ code text)))))
Line-cases ignored = inl refl
Line-cases comment_opened = inr (inl refl)
Line-cases comment_closed = inr (inr (inl refl))
Line-cases misplaced = inr (inr (inr (inl refl)))
Line-cases (code text) = inr (inr (inr (inr (text, refl))))

module _ (so : Sorter) (dl : DataLayout) where
  abbrev pub AllBuilt : List Struct → Type 0
  AllBuilt ss = All (Built so dl) ss

  update_struct-AllBuilt :
      (ss : List Struct) (n : Name) (change : Struct → Struct)
      → ((s : Struct) → Built so dl s → Built so dl (change s))
      → AllBuilt ss
      → AllBuilt (update_struct ss n change)
  unfolding update_struct
  update_struct-AllBuilt [] n change keep h = tt
  update_struct-AllBuilt (s ∷ ss) n change keep h = elim (Bool-cases (same_name s.name n)) [
    | inl e ↦ rw e (keep s h.0, h.1)
    | inr e ↦ rw e (h.0, update_struct-AllBuilt ss n change keep h.1)
  ]

  get_or_create_struct-AllBuilt :
      (ss : List Struct) (n : Name) → AllBuilt ss → AllBuilt (get_or_create_struct ss n)
  unfolding get_or_create_struct
  get_or_create_struct-AllBuilt ss n h = pick (find_struct ss n)
    where
      pick : (o : Option Struct) → AllBuilt (elim o [ none ↦ make_struct n ∷ ss | some s ↦ ss ])
      pick none = (created n, h)
      pick (some s) = h

  -- A module against an earlier one: all structs are made by the operations of `Struct`, and the
  -- builtins are the same.
  abbrev pub Extends : (before : Module) → Module → Type 0
  Extends before m =
      AllBuilt m.structs
      × (m.builtins ≡ before.builtins)
      × (m.builtins_finalized ≡ before.builtins_finalized)

  module _ (split : Name → List Name) (before : Module) where
    -- What a line leaves, if the parser goes on.
    abbrev Keeps : Attempt Parser → Type 0
    Keeps (good p) = Extends before p.target
    Keeps bad = Unit
    Keeps crash = Unit

    begin_struct-Extends :
        (p : Parser) (n : Name) (b : Bool)
        → Extends before p.target
        → Extends before (begin_struct p n b).target
    unfolding begin_struct
    begin_struct-Extends p n b h = (
      update_struct-AllBuilt (get_or_create_struct p.target.structs n) n (set_is_packed b)
          (λ s k. packed b k) (get_or_create_struct-AllBuilt p.target.structs n h.0),
      h.1,
      h.2,
    )

    parse_struct-Keeps :
        (p : Parser) (tokens : List Name)
        → Extends before p.target
        → Keeps (parse_struct so dl p tokens)
    unfolding parse_struct
    parse_struct-Keeps p tokens h = elim (Option-cases p.current) [
      | inr (n, e) ↦ rw (Keeps, e) tt
      | inl e ↦ elim (Option-cases (get_elem? tokens 1)) [
        | inl none_left ↦ rw (Keeps, e, none_left) tt
        | inr (name, e') ↦ rw (Keeps, e, e') (begin_struct-Extends p name _ h)
      ]
    ]

    parse_end-Keeps : (p : Parser) → Extends before p.target → Keeps (parse_end so dl p)
    unfolding parse_end
    parse_end-Keeps p h = elim (Option-cases p.current) [
      | inl e ↦ rw (Keeps, e) tt
      | inr (n, e) ↦ elim (Option-cases (find_struct p.target.structs n)) [
        | inl none_left ↦ rw (Keeps, e, none_left) tt
        | inr (s, e') ↦ elim (Bool-cases (has_module p.target || leb (length s.fields) 1)) [
          | inl ready ↦
              rw (Keeps, e, e', ready)
                (
                  update_struct-AllBuilt p.target.structs n (finalize_fields so dl)
                      (λ s k. finalized k) h.0,
                  h.1,
                  h.2,
                )
          | inr unready ↦ rw (Keeps, e, e', unready) tt
        ]
      ]
    ]

    add_parsed-Extends :
        (p : Parser) (n : Name) (mutable repeated : Bool) (t : Ty) (name : Name)
        → Extends before p.target
        → Extends before (add_parsed p.target n mutable repeated t name)
    unfolding add_parsed
    add_parsed-Extends p n mutable true t name h = (
      update_struct-AllBuilt _ n (add_repeated_field name t mutable)
          (λ s k. repeated_added name t mutable k)
          (get_or_create_struct-AllBuilt p.target.structs n h.0),
      h.1,
      h.2,
    )
    add_parsed-Extends p n mutable false t name h = (
      update_struct-AllBuilt _ n (add_field name t mutable) (λ s k. field_added name t mutable k)
          (get_or_create_struct-AllBuilt p.target.structs n h.0),
      h.1,
      h.2,
    )

    add_typed-Keeps :
        (p : Parser) (mutable repeated : Bool) (type name : Name)
        → Extends before p.target
        → Keeps (add_typed so dl p mutable repeated type name)
    unfolding add_typed
    add_typed-Keeps p mutable repeated type name h = elim (Option-cases p.current) [
      | inl e ↦ rw (Keeps, e) tt
      | inr (n, e) ↦ elim (Attempt-cases (parse_type p.target.structs type repeated)) [
        | inl (t, e') ↦ rw (Keeps, e, e') (add_parsed-Extends p n mutable repeated t name h)
        | inr (inl e') ↦ rw (Keeps, e, e') tt
        | inr (inr e') ↦ rw (Keeps, e, e') tt
      ]
    ]

    parse_field-Keeps :
        (p : Parser) (tokens : List Name)
        → Extends before p.target
        → Keeps (parse_field so dl p tokens)
    unfolding parse_field
    parse_field-Keeps p [] h = tt
    parse_field-Keeps p (t ∷ []) h = tt
    parse_field-Keeps p (t ∷ u ∷ us) h =
        let mutable = same_name t mutable_token || same_name u mutable_token in
        let repeated = same_name t repeated_token || same_name u repeated_token in
        elim (Option-cases (get_elem? (t ∷ u ∷ us) (type_at so dl mutable repeated))) [
          | inl e ↦ rw (Keeps, e) tt
          | inr (type, e) ↦
              rw (Keeps, e) (add_typed-Keeps p mutable repeated type (last_token so dl u us) h)
        ]

    parse_line-Keeps :
        (p : Parser) (tokens : List Name)
        → Extends before p.target
        → Keeps (parse_line so dl p tokens)
    unfolding parse_line
    parse_line-Keeps p tokens h = elim (Bool-cases (is_token (get_elem? tokens 0) struct_token)) [
      | inl e ↦ rw e (parse_struct-Keeps p tokens h)
      | inr e ↦ elim (Bool-cases (is_token (get_elem? tokens 0) brace_token)) [
        | inl e' ↦ rw (e, e') (parse_end-Keeps p h)
        | inr e' ↦ rw (e, e') (parse_field-Keeps p tokens h)
      ]
    ]

    -- What the parser leaves, if it reads the whole file.
    abbrev pub Leaves : Outcome → Type 0
    Leaves (parsed p) = Extends before p.target
    Leaves (failed n) = Unit
    Leaves crashed = Unit

    module _ (ls : List Name) (p : Parser) (inside : Bool) (lineno : ℕ) where
      abbrev go_on : Parser → Outcome
      go_on q = parse_lines so dl split ls q inside ((lineno + 1) % 2 ^ 64)

      attempt-Leaves :
          (a : Attempt Parser)
          → ((q : Parser) → Extends before q.target → Leaves (go_on q))
          → Keeps a
          → Leaves (attempt so dl split lineno a go_on)
      attempt-Leaves (good q) loop k = loop q k
      attempt-Leaves bad loop k = tt
      attempt-Leaves crash loop k = tt

      code-Leaves :
          (b : Bool) (tokens : List Name)
          → ((q : Parser) → Extends before q.target → Leaves (go_on q))
          → Extends before p.target
          → Leaves
              (attempt so dl split lineno (if b then good p else parse_line so dl p tokens) go_on)
      code-Leaves true tokens loop h = attempt-Leaves (good p) loop h
      code-Leaves false tokens loop h =
          attempt-Leaves (parse_line so dl p tokens) loop (parse_line-Keeps p tokens h)

    parse_lines-Leaves :
        (ls : List Name) (p : Parser) (inside : Bool) (lineno : ℕ)
        → Extends before p.target
        → Leaves (parse_lines so dl split ls p inside lineno)
    unfolding parse_lines
    parse_lines-Leaves [] p inside lineno h = h
    parse_lines-Leaves (l ∷ ls) p inside lineno h = elim (Line-cases (read_line l)) [
      | inl e ↦ rw (Leaves, e) (parse_lines-Leaves ls p inside lineno h)
      | inr (inl e) ↦ rw (Leaves, e) (parse_lines-Leaves ls p true lineno h)
      | inr (inr (inl e)) ↦ rw (Leaves, e) (parse_lines-Leaves ls p false lineno h)
      | inr (inr (inr (inl e))) ↦ rw (Leaves, e) tt
      | inr (inr (inr (inr (text, e)))) ↦
          rw (Leaves, e)
            (code-Leaves ls p inside lineno inside (split text)
              (λ q k. parse_lines-Leaves ls q inside ((lineno + 1) % 2 ^ 64) k) h)
    ]

  -- If `parseFile` answers true, all structs of the module are made by the operations of `Struct`
  -- alone, if they were so before, and the builtins are as they were.
  pub parse_file-AllBuilt :
      (split : Name → List Name) (ls : List Name) (p : Parser)
      → AllBuilt p.target.structs
      → Leaves split p.target (parse_file so dl split ls p)
  unfolding parse_file
  parse_file-AllBuilt split ls p h = parse_lines-Leaves split p.target ls p false 0 (h, refl, refl)
