-- ===== src/Parser/Lines.antt =====
-- Lines and tokens (Parser.cpp): what the text of a file's lines means to the parser.
use mathlib.Core.Path.{fun_ext}
use tyr.Prelude.{
  ℕ, ◌+◌, ◌%◌, ◌^◌, ◌≡◌, refl, ap, Bool, true, false, none, some, ◌&&◌, List, [], ◌∷◌,
  if◌then◌else◌, ◌==◌, Bool-cases, inl, inr,
}
use tyr.Ir.{Name}
use tyr.Ir.{Struct}
use tyr.Ir.Build.{Sorter, make_struct, set_is_packed}
use tyr.Module.Table.{find_struct-get_or_create_struct, find_struct-update_struct}
use tyr.Layout.{DataLayout}
use tyr.Module.{same_name, find_struct, get_or_create_struct, Attempt, good}
use tyr.Parser.{
  Parser, begin_struct, parse_struct, parse_field, parse_line, ignored, comment_opened,
  comment_closed, misplaced, code, read_line, trimmed_line, starts_with, ltrim, Outcome, failed,
  parse_lines, struct_token, packed_token, mutable_token, repeated_token, attempt,
}

-- Whether a line is blank, or "//" is the first of it that is no space.
unfoldable pub is_skipped : Name → Bool
is_skipped [] = true
is_skipped (c ∷ []) = c == 32
is_skipped (c ∷ d ∷ s) =
    let rest = is_skipped (d ∷ s) in if c == 32 then rest else (c == b'/') && (d == b'/')

-- The lines that are left without those.
unfoldable pub drop_ignored : List Name → List Name
unfolding is_skipped
drop_ignored [] = []
drop_ignored (l ∷ ls) = let rest = drop_ignored ls in if is_skipped l then rest else l ∷ rest

comment-ignored :
    (c d : ℕ) (s : Name) → ((c == b'/') && (d == b'/')) ≡ true → trimmed_line (c ∷ d ∷ s) ≡ ignored
unfolding trimmed_line starts_with
comment-ignored c d s h = elim (Bool-cases (c == b'/')) [
  | inl e ↦ elim (Bool-cases (d == b'/')) [ inl e' ↦ rw (e, e') | inr e' ↦ cc (rw (e, e') at h) ]
  | inr e ↦ cc (rw e at h)
]

read_line-ignored : (l : Name) → is_skipped l ≡ true → read_line l ≡ ignored
unfolding is_skipped read_line ltrim trimmed_line
read_line-ignored [] h = refl
read_line-ignored (c ∷ []) h = rw h
read_line-ignored (c ∷ d ∷ s) h = elim (Bool-cases (c == 32)) [
  | inl e ↦ rw e (read_line-ignored (d ∷ s) (rw e at h))
  | inr e ↦ rw e (comment-ignored c d s (rw e at h))
]

-- The parser goes on with a struct `name` that is packed or not, as `b` says, and in hand.
abbrev pub Begins : Name → Bool → Attempt Parser → Type 0
Begins name b r =
    (q : Parser) × (s : Struct) × (r ≡ good q)
    × (q.current ≡ some name)
    × (find_struct q.target.structs name ≡ some s)
    × (s.packed ≡ b)

module _ (so : Sorter) (dl : DataLayout) (split : Name → List Name) where
  parse_lines-next :
      (l : Name) (ls ls' : List Name)
      → ((p : Parser) (inside : Bool) (lineno : ℕ)
          → parse_lines so dl split ls p inside lineno
            ≡ parse_lines so dl split ls' p inside lineno)
      → (p : Parser) (inside : Bool) (lineno : ℕ)
      → parse_lines so dl split (l ∷ ls) p inside lineno
        ≡ parse_lines so dl split (l ∷ ls') p inside lineno
  unfolding parse_lines
  parse_lines-next l ls ls' same p inside lineno =
      ap
        (λ (k : Parser → Bool → ℕ → Outcome). elim (read_line l) [
          | ignored ↦ k p inside lineno
          | comment_opened ↦ k p true lineno
          | comment_closed ↦ k p false lineno
          | misplaced ↦ failed lineno
          | code text ↦
              attempt so dl split lineno
                (if inside then good p else parse_line so dl p (split text))
                (λ q. k q inside ((lineno + 1) % 2 ^ 64))
        ])
        (fun_ext λ q. fun_ext λ b. fun_ext λ n. same q b n)

  parse_lines-ignored :
      (l : Name) (ls : List Name) (p : Parser) (inside : Bool) (lineno : ℕ)
      → read_line l ≡ ignored
      → parse_lines so dl split (l ∷ ls) p inside lineno
        ≡ parse_lines so dl split ls p inside lineno
  unfolding parse_lines
  parse_lines-ignored l ls p inside lineno e = rw (parse_lines, e)

  -- Lines that are blank, or of which the first characters that are no spaces are "//", change neither
  -- the answer nor the line that a message names.
  pub parse_lines-drop_ignored :
      (ls : List Name) (p : Parser) (inside : Bool) (lineno : ℕ)
      → parse_lines so dl split (drop_ignored ls) p inside lineno
        ≡ parse_lines so dl split ls p inside lineno
  unfolding drop_ignored
  parse_lines-drop_ignored [] p inside lineno = refl
  parse_lines-drop_ignored (l ∷ ls) p inside lineno = elim (Bool-cases (is_skipped l)) [
    | inl e ↦
        rw (e, parse_lines-ignored l ls p inside lineno (read_line-ignored l e))
          (parse_lines-drop_ignored ls p inside lineno)
    | inr e ↦ rw e (
        parse_lines-next l (drop_ignored ls) ls (λ q b n. parse_lines-drop_ignored ls q b n) p
          inside lineno)
  ]

module _ (so : Sorter) (dl : DataLayout) where
  -- The order of "mutable" and "repeated" makes no difference.
  pub parse_line-mutable_repeated :
      (p : Parser) (tokens : List Name)
      → parse_line so dl p (mutable_token ∷ repeated_token ∷ tokens)
        ≡ parse_line so dl p (repeated_token ∷ mutable_token ∷ tokens)
  unfolding parse_line parse_field same_name
  parse_line-mutable_repeated p [] = refl
  parse_line-mutable_repeated p (t ∷ tokens) = refl

  begin_struct-Begins :
      (p : Parser) (name : Name) (b : Bool) → Begins name b (good (begin_struct p name b))
  unfolding begin_struct
  begin_struct-Begins p name b =
      let s : Struct = elim (find_struct p.target.structs name) [
        | none ↦ make_struct name
        | some s ↦ s
      ] in
      (
        begin_struct p name b,
        set_is_packed b s,
        refl,
        refl,
        find_struct-update_struct (get_or_create_struct p.target.structs name) name
            (set_is_packed b) (λ s. refl) s
            (find_struct-get_or_create_struct p.target.structs name).0,
        refl,
      )

  -- Outside a struct, "struct <name> packed" begins a struct of that name that is packed, and "struct
  -- <name> packed {" one that is not.
  pub parse_line-packed :
      (p : Parser) (name : Name)
      → p.current ≡ none
      → Begins name true (parse_line so dl p (struct_token ∷ name ∷ packed_token ∷ []))
        × Begins name false
            (parse_line so dl p (struct_token ∷ name ∷ packed_token ∷ (123 ∷ []) ∷ []))
  unfolding parse_line parse_struct same_name
  parse_line-packed p name e = (
    rw (parse_struct, e) (begin_struct-Begins p name true),
    rw (parse_struct, e) (begin_struct-Begins p name false),
  )
