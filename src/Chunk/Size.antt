-- ===== src/Chunk/Size.antt =====
-- chunk.py, `choose_chunk_size`: the base's chunk size as long as the entries stay within their cap.
use ducklake_serverless.Base.{
  ℕ, zero, suc, ◌+◌, ◌*◌, ◌≤◌, ◌<◌, ◌≡◌, ◌⊎◌, inl, inr, refl, Option, none, some, arith, leb, ltb,
  Bool-cases, if◌then◌else◌,
}
use ducklake_serverless.Chunk.Manifest.{Manifest, max_entries, default_chunk_size}

-- `while total_size > size * MAX_ENTRIES: size *= 2`, on fuel.
unfoldable pub grow : ℕ → ℕ → ℕ → ℕ
grow zero total size = size
grow (suc n) total size =
    let rest = grow n total (size * 2) in if ltb (size * max_entries) total then rest else size

-- The base's size, or the default, is where the doubling starts.
abbrev pub first_size : Option Manifest → ℕ
first_size none = default_chunk_size
first_size (some base) = base.chunk_size

unfoldable pub choose_chunk_size : ℕ → Option Manifest → ℕ
choose_chunk_size total none = grow total total default_chunk_size
choose_chunk_size total (some base) =
    if leb total (base.chunk_size * max_entries)
    then base.chunk_size
    else grow total total base.chunk_size

grow_fits :
    (n total size : ℕ)
    → 0 < size
    → total ≤ (size + n) * max_entries
    → total ≤ grow n total size * max_entries
unfolding grow
grow_fits zero total size h k = omega arith
grow_fits (suc n) total size h k =
    ground (arith, grow_fits n total (size * 2) (omega arith) (omega arith))

grow_least :
    (n total size : ℕ) → (grow n total size ≡ size) ⊎ (grow n total size * max_entries < 2 * total)
unfolding grow
grow_least zero total size = inl refl
grow_least (suc n) total size = ground (arith, grow_least n total (size * 2))

grow_keeps : (n total size : ℕ) → total ≤ size * max_entries → grow n total size ≡ size
unfolding grow
grow_keeps zero total size h = refl
grow_keeps (suc n) total size h = ground (arith, h)

-- A size is kept exactly when it is large enough.
doubled :
    (total size : ℕ)
    → ((total ≤ size * max_entries) × (grow total total size ≡ size))
      ⊎ ((size * max_entries < total) × (grow total total size * max_entries < 2 * total))
doubled total size = elim (Bool-cases (leb total (size * max_entries))) [
  | inl fits ↦ inl (ground (arith, fits), grow_keeps total total size (ground (arith, fits)))
  | inr small ↦ inr (
    ground (arith, small),
    elim (grow_least total total size) [
      | inl same ↦ rw same (ground (arith, small))
      | inr least ↦ least
    ],
  )
]

-- If the size at the start is positive, a payload has at most MAX_ENTRIES chunks of the size
-- that is chosen. Where the base's size, or the default without a base, is large enough for
-- that, it is the size that is chosen; otherwise less than twice the payload fits.
pub choose_chunk_size_fits :
    (total : ℕ) (base : Option Manifest)
    → 0 < first_size base
    → (total ≤ choose_chunk_size total base * max_entries)
      × (((total ≤ first_size base * max_entries)
            × (choose_chunk_size total base ≡ first_size base))
          ⊎ ((first_size base * max_entries < total)
              × (choose_chunk_size total base * max_entries < 2 * total)))
unfolding choose_chunk_size
choose_chunk_size_fits total none h = (
  grow_fits total total default_chunk_size (omega arith) (omega arith),
  doubled total default_chunk_size,
)
choose_chunk_size_fits total (some base) h =
    elim (Bool-cases (leb total (base.chunk_size * max_entries))) [
      | inl fits ↦ rw fits (ground arith, inl (ground arith, refl))
      | inr outgrown ↦
          rw outgrown
            (grow_fits total total base.chunk_size h (omega arith), doubled total base.chunk_size)
    ]
