-- ===== src/Memory/Spares.antt =====
-- What the instructions leave alone, and where they come to an end by a fault.
use tyr.Prelude.{
  ℕ, ◌+◌, ◌<◌, ◌≡◌, ◌≢◌, ◌⊎◌, inl, inr, Option-cases, some, List, [], ◌∷◌, length, splice,
  slice_past, slice_one,
}
use tyr.Memory.{
  Ptr, cells, raw, Mem, write, block_at, Run, ok, fault, load_bytes, store_bytes, store_bytes_in,
}
use tyr.Memory.Laws.{At, At-write_ne}

-- It faults, or it leaves the block at `p` as it is.
abbrev pub Spares : {A : Type 0} → Ptr → List ℕ → Run A → Type 0
Spares {A} p bs r = (r ≡ fault) ⊎ ((a : A) × (m : Mem) × (r ≡ ok a m) × At m p (raw bs))

module _ (p : Ptr) (bs : List ℕ) {m : Mem} (here : At m p (raw bs)) where
  pub load_bytes-past : (i n : ℕ) → length bs < i + n → load_bytes p i n m ≡ fault
  unfolding load_bytes
  load_bytes-past i n h = rw (here.found, slice_past bs i n h)

  pub load_bytes-one : (i : ℕ) → i < length bs → (b : ℕ) × (load_bytes p i 1 m ≡ ok (b ∷ []) m)
  unfolding load_bytes
  load_bytes-one i h = let (b, e) = slice_one bs i h in (b, rw (here.found, e))

module _ (p q : Ptr) (bs : List ℕ) (apart : p ≢ q) where
  pub store_bytes-Spares :
      (i : ℕ) (new : List ℕ) {m : Mem} → At m p (raw bs) → Spares p bs (store_bytes q i new m)
  unfolding store_bytes store_bytes_in
  store_bytes-Spares i new {m} here = elim (Option-cases (block_at m q)) [
    | inl e ↦ inl (rw e)
    | inr (cells cs, e) ↦ inl (rw e)
    | inr (raw cs, e) ↦ elim (Option-cases (splice cs i new)) [
      | inl s ↦ inl (rw (e, s, store_bytes_in))
      | inr (cs', s) ↦
          inr
            (tt, write m q (some (raw cs')), rw (e, s, store_bytes_in), At-write_ne q _ here apart)
    ]
  ]
