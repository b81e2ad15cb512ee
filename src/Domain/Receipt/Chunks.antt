-- ===== src/Domain/Receipt/Chunks.antt =====
-- `chunkReceiptLines` (packages/shared/src/domain/ledger-math.ts).
use Prim.Native.Nat.{min}
use mathlib.Core.Option
use item_lending_management.Prelude.{
  Bool-cases, List, Option, [], ap, arith, drop, drop-all, drop-drop, false, if◌then◌else◌, inl,
  inr, length, length-append, length-drop, length-take, ltb, ltb→lt, none, refl, some, suc, sym,
  take, take-append-drop, zero, ℕ, ◌++◌, ◌+◌, ◌-◌, ◌<◌, ◌∙◌, ◌∷◌, ◌≡◌, ◌≤◌, ◌⊎◌,
}

abbrev pub receipt_lines_per_half : ℕ
receipt_lines_per_half = 6

module _ {ℓ} {A : Type ℓ} where
  -- `xs.slice(i, j)`
  abbrev pub slice : ℕ → ℕ → List A → List A
  slice i j xs = take (j - i) (drop i xs)

  -- The rounds of the loop from index `i`.
  unfoldable pub chunk_loop : ℕ → ℕ → List A → ℕ → Option (List (List A))
  chunk_loop zero per_half lines i = if ltb i (length lines) then none else some []
  chunk_loop (suc fuel) per_half lines i =
      let rest = chunk_loop fuel per_half lines (i + per_half) in
      if ltb i (length lines)
      then Option.map (λ chunks. slice i (i + per_half) lines ∷ chunks) rest
      else some []

  -- Each round moves the index by `perHalf`, so one round for each line is enough.
  unfoldable pub chunk_receipt_lines : List A → ℕ → Option (List (List A))
  chunk_receipt_lines [] per_half = some ([] ∷ [])
  chunk_receipt_lines (l ∷ ls) per_half = chunk_loop (length (l ∷ ls)) per_half (l ∷ ls) 0

  -- Every chunk but the last is full, and the last is not empty and not more than full.
  abbrev pub FullButLast : ℕ → List (List A) → Type 0
  FullButLast n [] = Unit
  FullButLast n (c ∷ []) = (1 ≤ length c) × (length c ≤ n)
  FullButLast n (c ∷ d ∷ cs) = (length c ≡ n) × FullButLast n (d ∷ cs)

  abbrev pub joined : List (List A) → List A
  joined [] = []
  joined (c ∷ cs) = c ++ joined cs

module _ {ℓ} {A : Type ℓ} where
  FullButLast-cons :
      (n m : ℕ) (c : List A) (cs : List (List A))
      → 1 ≤ length c
      → length c ≡ min n m
      → length (joined cs) ≡ m - n
      → FullButLast n cs
      → FullButLast n (c ∷ cs)
  FullButLast-cons n m c [] h e j f = (h, omega arith)
  FullButLast-cons n m c (d ∷ []) h e j f = (omega (arith, length-append d []), f)
  FullButLast-cons n m c (d ∷ b ∷ cs) h e j f =
      (omega (arith, length-append d (joined (b ∷ cs))), f)

  -- A slice of `n` from `i`, with what follows it, is what stands from `i` on.
  pub slice-drop : (i n : ℕ) (xs : List A) → slice i (i + n) xs ++ drop (i + n) xs ≡ drop i xs
  slice-drop i n xs =
      let e : i + n - i ≡ n = omega arith in
      rw (e, ← drop-drop i n xs) (take-append-drop n (drop i xs))

  pub length-slice : (i n : ℕ) (xs : List A) → length (slice i (i + n) xs) ≡ min n (length xs - i)
  length-slice i n xs =
      let e : i + n - i ≡ n = omega arith in
      rw e (length-take n (drop i xs) ∙ ap (min n) (length-drop i xs))

  chunk_loop_total :
      (fuel per_half : ℕ) (lines : List A) (i : ℕ)
      → 0 < per_half
      → length lines ≤ i + fuel
      → (cs : List (List A)) × (chunk_loop fuel per_half lines i ≡ some cs)
        × (joined cs ≡ drop i lines)
        × FullButLast per_half cs
  unfolding chunk_loop
  chunk_loop_total zero n lines i p h =
      let past : ltb i (length lines) ≡ false = ground arith in
      ([], rw past, sym (drop-all i lines (omega arith)), tt)
  chunk_loop_total (suc fuel) n lines i p h = elim (Bool-cases (ltb i (length lines))) [
    | inr past ↦ ([], rw past, sym (drop-all i lines (ground arith)), tt)
    | inl more ↦
        let (cs, e, j, f) = chunk_loop_total fuel n lines (i + n) p (omega arith) in
        let l = length-slice i n lines in
        (
          slice i (i + n) lines ∷ cs,
          rw (more, e),
          rw j (slice-drop i n lines),
          FullButLast-cons n (length lines - i) (slice i (i + n) lines) cs
              (omega (arith, ltb→lt _ _ more)) l
              (omega (arith, ap length j, length-drop (i + n) lines)) f,
        )
  ]

  -- With a positive chunk size the loop ends, the chunks joined are the lines in their order, and
  -- of a list that is not empty every chunk but the last is full and none is empty or more than
  -- full; an empty list gives one empty chunk.
  pub chunk_receipt_lines_total :
      (lines : List A) (per_half : ℕ)
      → 0 < per_half
      → (cs : List (List A)) × (chunk_receipt_lines lines per_half ≡ some cs)
        × (joined cs ≡ lines)
        × (((lines ≡ []) × (cs ≡ [] ∷ [])) ⊎ ((1 ≤ length lines) × FullButLast per_half cs))
  unfolding chunk_receipt_lines
  chunk_receipt_lines_total [] n p = ([] ∷ [], refl, refl, inl (refl, refl))
  chunk_receipt_lines_total (l ∷ ls) n p =
      let (cs, e, j, f) = chunk_loop_total (length (l ∷ ls)) n (l ∷ ls) 0 p (omega arith) in
      (cs, e, j, inr (omega arith, f))
