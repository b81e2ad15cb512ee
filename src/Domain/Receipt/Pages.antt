-- ===== src/Domain/Receipt/Pages.antt =====
-- `layoutReceiptRows` (packages/shared/src/domain/ledger-math.ts).
use Prim.Native.Nat.{min}
use mathlib.Core.Option
use item_lending_management.Prelude.{
  Bool, Bool-cases, List, Option, [], ap, arith, drop, drop-all, false, get_elem?, get_elem?-drop,
  get_elem?-take, if◌then◌else◌, inl, inr, leb, leb→le, length, length-append, ltb, ltb→lt, none,
  not, refl, some, suc, sym, true, zero, ℕ, ◌&&◌, ◌++◌, ◌+◌, ◌-◌, ◌<◌, ◌∙◌, ◌∷◌, ◌≡◌, ◌≤◌, ◌⊎◌,
}
use item_lending_management.Domain.Receipt.Chunks.{
  length-slice, receipt_lines_per_half, slice, slice-drop,
}

abbrev pub receipt_rows_per_page : ℕ
receipt_rows_per_page = 27

pub data ReceiptLayout : Type 0 where
  halves pages : ReceiptLayout

pub record Laid {ℓ} (A : Type ℓ) : Type ℓ where
  pub layout : ReceiptLayout
  pub rows_per_copy : ℕ
  pub chunks : List (List A)

module _ {ℓ} {A : Type ℓ} (is_heading repeats : A → Bool) where
  -- The heading printed again at the top of a page whose rows are its own.
  abbrev pub carried : Option A → Option A → List A
  carried none first = []
  carried (some heading) none = []
  carried (some heading) (some first) =
      if not (is_heading first) && repeats heading then heading ∷ [] else []

  abbrev pub heading? : Option A → Bool
  heading? none = false
  heading? (some row) = is_heading row

  -- Whether the row at an index is there and is a heading.
  unfoldable pub heading_at : List A → ℕ → Bool
  heading_at rows i = heading? (get_elem? rows i)

  -- `size`: what fits beside the carried heading, less a heading that would end the page.
  unfoldable pub page_size : List A → ℕ → ℕ → ℕ
  page_size rows start carried_count =
      let size = min (receipt_rows_per_page - carried_count) (length rows - start) in
      if ltb (start + size) (length rows) && ltb 1 size && heading_at rows (start + size - 1)
      then size - 1
      else size

  abbrev pub last_heading : Option A → List A → Option A
  last_heading heading [] = heading
  last_heading heading (row ∷ taken) =
      last_heading (if is_heading row then some row else heading) taken

  unfoldable pub layout_loop : ℕ → List A → ℕ → Option A → Option (List (List A))
  layout_loop zero rows start heading = if ltb start (length rows) then none else some []
  layout_loop (suc fuel) rows start heading =
      let chunk = carried heading (get_elem? rows start) in
      let size = page_size rows start (length chunk) in
      let taken = slice start (start + size) rows in
      let rest = layout_loop fuel rows (start + size) (last_heading heading taken) in
      if ltb start (length rows)
      then Option.map (λ chunks. (chunk ++ taken) ∷ chunks) rest
      else some []

  -- Each page takes a row at least, so one round for each row is enough.
  unfoldable pub layout_receipt_rows : List A → Option (Laid A)
  layout_receipt_rows rows =
      if leb (length rows) receipt_lines_per_half
      then some
          (record { layout = halves; rows_per_copy = receipt_lines_per_half; chunks = rows ∷ [] })
      else Option.map
          (λ chunks. record {
            layout = pages;
            rows_per_copy = receipt_rows_per_page;
            chunks = chunks;
          })
          (layout_loop (length rows) rows 0 none)

  -- How a page ends: it is the last one, or it is full and its last row is no heading, or it has one
  -- row less and the row that would have ended it, which starts the next page, is a heading.
  abbrev pub PageEnd : List A → List A → List A → Type ℓ
  PageEnd page own rest =
      (rest ≡ [])
      ⊎ ((length page ≡ receipt_rows_per_page) × (heading_at own (length own - 1) ≡ false))
      ⊎ ((length page + 1 ≡ receipt_rows_per_page) × (heading_at rest 0 ≡ true))

  -- The pages of the rows, after the last heading seen so far: each takes the next rows, one at
  -- least, in their order, under the carried heading, and is not more than full.
  abbrev pub Pages : Option A → List A → List (List A) → Type ℓ
  Pages heading rows [] = rows ≡ []
  Pages heading rows (page ∷ chunks) =
      (own : List A) × (rest : List A) × (rows ≡ own ++ rest)
      × (page ≡ carried heading (get_elem? own 0) ++ own)
      × (1 ≤ length own)
      × (length page ≤ receipt_rows_per_page)
      × PageEnd page own rest
      × Pages (last_heading heading own) rest chunks

  carried-le : (h f : Option A) → length (carried h f) ≤ 1
  carried-le none f = omega arith
  carried-le (some h) none = omega arith
  carried-le (some h) (some f) = ground arith

  page_size-cases :
      (rows : List A) (start c : ℕ)
      → c ≤ 1
      → start < length rows
      → let s = page_size rows start c in
        (1 ≤ s)
        × (start + s ≤ length rows)
        × (c + s ≤ 27)
        × ((start + s ≡ length rows)
            ⊎ ((c + s ≡ 27) × (heading_at rows (start + s - 1) ≡ false))
            ⊎ ((c + s + 1 ≡ 27) × (heading_at rows (start + s) ≡ true)))
  unfolding page_size
  page_size-cases rows start c hc hs = ground arith

  own-lem :
      (rows : List A) (start s : ℕ)
      → 1 ≤ s
      → start + s ≤ length rows
      → let own = slice start (start + s) rows in
        (length own ≡ s)
        × (get_elem? own 0 ≡ get_elem? rows start)
        × (heading_at own (length own - 1) ≡ heading_at rows (start + s - 1))
        × (heading_at (drop (start + s) rows) 0 ≡ heading_at rows (start + s))
  unfolding heading_at
  own-lem rows start s h k =
      let e : start + s - start ≡ s = omega arith in
      let l : length (slice start (start + s) rows) ≡ s =
        omega (arith, length-slice start s rows) in
      let z : start + 0 ≡ start = omega arith in
      let y : start + (s - 1) ≡ start + s - 1 = omega arith in
      let x : start + s + 0 ≡ start + s = omega arith in
      (
        l,
        rw (e, get_elem?-take s 0 (drop start rows) h, get_elem?-drop start 0 rows, z),
        rw l (
            ap heading? (
              rw e (
                get_elem?-take s (s - 1) (drop start rows) (omega arith)
                ∙ get_elem?-drop start (s - 1) rows
                ∙ ap (get_elem? rows) y))),
        ap heading? (get_elem?-drop (start + s) 0 rows ∙ ap (get_elem? rows) x),
      )

  layout_loop_total :
      (fuel : ℕ) (rows : List A) (start : ℕ) (heading : Option A)
      → length rows ≤ start + fuel
      → (cs : List (List A)) × (layout_loop fuel rows start heading ≡ some cs)
        × Pages heading (drop start rows) cs
  unfolding layout_loop
  layout_loop_total zero rows start heading h =
      let past : ltb start (length rows) ≡ false = ground arith in
      ([], rw past, drop-all start rows (omega arith))
  layout_loop_total (suc fuel) rows start heading h = elim (Bool-cases (ltb start (length rows))) [
    | inr past ↦ ([], rw past, drop-all start rows (ground arith))
    | inl more ↦
        let chunk = carried heading (get_elem? rows start) in
        let c = carried-le heading (get_elem? rows start) in
        let s = page_size rows start (length chunk) in
        let (p, q, r, ends) = page_size-cases rows start (length chunk) c (ltb→lt _ _ more) in
        let own = slice start (start + s) rows in
        let (l, first, last, next) = own-lem rows start s p q in
        let (cs, e, rest) =
          layout_loop_total fuel rows (start + s) (last_heading heading own) (omega arith) in
        let size = length-append chunk own in
        (
          (chunk ++ own) ∷ cs,
          rw (more, e),
          (
            own,
            drop (start + s) rows,
            sym (slice-drop start s rows),
            rw first refl,
            omega (arith, l),
            omega (arith, l, size),
            elim ends [
              | inl whole ↦ inl (drop-all (start + s) rows (omega (arith, whole)))
              | inr (inl (full, b)) ↦ inr (inl (omega (arith, full, l, size), last ∙ b))
              | inr (inr (short, b)) ↦ inr (inr (omega (arith, short, l, size), next ∙ b))
            ],
            rest,
          ),
        )
  ]

  -- The layout always ends. Up to six rows are one chunk as they are, for a half; more give pages in which
  -- every row stands once and in order, under the carried heading where one is repeated, none has
  -- more than 27 rows, and a page that is not the last is full, or one short where the heading that
  -- would have ended it was moved to the next page.
  pub layout_receipt_rows_total :
      (rows : List A)
      → (laid : Laid A) × (layout_receipt_rows rows ≡ some laid)
        × (((length rows ≤ 6)
              × (laid.layout ≡ halves)
              × (laid.rows_per_copy ≡ 6)
              × (laid.chunks ≡ rows ∷ []))
            ⊎ ((6 < length rows)
                × (laid.layout ≡ pages)
                × (laid.rows_per_copy ≡ 27)
                × Pages none rows laid.chunks))
  unfolding layout_receipt_rows
  layout_receipt_rows_total rows = elim (Bool-cases (leb (length rows) receipt_lines_per_half)) [
    | inl fits ↦ (
      record { layout = halves; rows_per_copy = receipt_lines_per_half; chunks = rows ∷ [] },
      rw fits,
      inl (leb→le _ _ fits, refl, refl, refl),
    )
    | inr more ↦
        let (cs, e, p) = layout_loop_total (length rows) rows 0 none (omega arith) in
        (
          record { layout = pages; rows_per_copy = receipt_rows_per_page; chunks = cs },
          rw (more, e),
          inr (ground arith, refl, refl, p),
        )
  ]
