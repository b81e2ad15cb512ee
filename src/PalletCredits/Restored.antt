-- ===== src/PalletCredits/Restored.antt =====
-- A cancelled order gives back what it took of what was owed.
use mathlib.Core.Path.{subst}
use item_lending_management.Prelude.{
  ==-refl, ==_iff, All, Bool-cases, List, [], ap, arith, false, if◌then◌else◌, includes, inl, inr,
  int_laws, ltb_ℤ, neg, neg_part, none, pos, pos_part, refl, some, sym, true, ℕ, ℤ, ◌&&◌, ◌+ℤ◌, ◌+◌,
  ◌==◌, ◌∙◌, ◌∷◌, ◌≡◌, ◌≤ℤ◌,
}
use item_lending_management.PalletCredits.{
  CreditEntry, CreditRows, PalletCredit, credit_sum, names_order, of_customer, of_order,
  order_credit_item_ids, owed_of_item, reverse_for_order, reversing_entries, use_entries,
  use_for_order,
}
use item_lending_management.PalletCredits.Sums.{
  credit_sum-unnamed, entry_sum, entry_sum-IsTaking, use_entries-IsTaking, write_many-sum,
}
use item_lending_management.Failure.{ok}

-- An item that is not among an order's has nothing summed.
sum_skips :
    (order_id item_id : ℕ) (c : PalletCredit) (cs : List PalletCredit)
    → of_order order_id item_id c.entry ≡ false
    → credit_sum (of_order order_id item_id) cs ≡ pos 0
    → credit_sum (of_order order_id item_id) (c ∷ cs) ≡ pos 0
unfolding credit_sum
sum_skips order_id item_id c cs skipped h = rw (skipped, h) (omega int_laws)

of_order-other :
    (order_id item_id : ℕ) (e : CreditEntry)
    → (e.item_id == item_id) ≡ false
    → of_order order_id item_id e ≡ false
of_order-other order_id item_id e h = ground arith

same_number_comm : (a b : ℕ) → (a == b) ≡ (b == a)
same_number_comm a b = ground arith

not_first :
    (k x : ℕ) (xs : List ℕ)
    → includes k (x ∷ xs) ≡ false
    → ((x == k) ≡ false) × (includes k xs ≡ false)
not_first k x xs h = ground (arith, same_number_comm k x)

-- One that is included and one that is not are different.
other_item :
    (k x : ℕ) (xs : List ℕ) → includes x xs ≡ true → includes k xs ≡ false → (x == k) ≡ false
other_item k x xs there h = elim (Bool-cases (x == k)) [
  | inl e ↦ absurd (
      let same : x ≡ k = (==_iff x k).0 e in
      let c : includes k xs ≡ true = subst (λ y. includes y xs ≡ true) same there in cc)
  | inr e ↦ e
]

order_credit_item_ids-missing :
    (order_id item_id : ℕ) (cs : List PalletCredit)
    → includes item_id (order_credit_item_ids order_id cs) ≡ false
    → credit_sum (of_order order_id item_id) cs ≡ pos 0
unfolding order_credit_item_ids credit_sum
order_credit_item_ids-missing order_id item_id [] h = refl
order_credit_item_ids-missing order_id item_id (c ∷ cs) h =
    let rest = order_credit_item_ids order_id cs in
    let ih = order_credit_item_ids-missing order_id item_id cs in
    elim (Bool-cases (names_order order_id c.entry)) [
      | inl named ↦ elim (Bool-cases (includes c.entry.item_id rest)) [
        | inl there ↦
            let h' : includes item_id rest ≡ false = rw (named, there) at h in
            sum_skips order_id item_id c cs
              (of_order-other order_id item_id c.entry
                (other_item item_id c.entry.item_id rest there h'))
              (ih h')
        | inr new ↦
            let h' : includes item_id (c.entry.item_id ∷ rest) ≡ false = rw (named, new) at h in
            let (other, h₂) = not_first item_id c.entry.item_id rest h' in
            sum_skips order_id item_id c cs (of_order-other order_id item_id c.entry other) (ih h₂)
      ]
      | inr unnamed ↦
          let h' : includes item_id rest ≡ false = rw unnamed at h in
          let skipped : of_order order_id item_id c.entry ≡ false = rw unnamed refl in
          sum_skips order_id item_id c cs skipped (ih h')
    ]

-- Each item once.
abbrev IsDistinct : List ℕ → Type 0
IsDistinct [] = Unit
IsDistinct (x ∷ xs) = (includes x xs ≡ false) × IsDistinct xs

order_credit_item_ids-IsDistinct :
    (order_id : ℕ) (cs : List PalletCredit) → IsDistinct (order_credit_item_ids order_id cs)
unfolding order_credit_item_ids
order_credit_item_ids-IsDistinct order_id [] = tt
order_credit_item_ids-IsDistinct order_id (c ∷ cs) =
    let rest = order_credit_item_ids order_id cs in
    let ih = order_credit_item_ids-IsDistinct order_id cs in
    elim (Bool-cases (names_order order_id c.entry)) [
      | inl named ↦ elim (Bool-cases (includes c.entry.item_id rest)) [
        | inl there ↦ rw (named, there) ih
        | inr new ↦ rw (named, new) (new, ih)
      ]
      | inr other ↦ rw other ih
    ]

-- What the reversal writes for one item.
abbrev given_back : ℕ → ℕ → List PalletCredit → ℤ
given_back order_id item_id credits =
    let taken = credit_sum (of_order order_id item_id) credits in
    if ltb_ℤ taken (pos 0) then neg taken else pos 0

reversing_entries-missing :
    (customer_id order_id date : ℕ) (credits : List PalletCredit) (item_id : ℕ) (items : List ℕ)
    → includes item_id items ≡ false
    → entry_sum
        (of_customer customer_id item_id)
        (reversing_entries customer_id order_id date credits items)
      ≡ pos 0
unfolding reversing_entries
reversing_entries-missing customer_id order_id date credits item_id [] h = refl
reversing_entries-missing customer_id order_id date credits item_id (i ∷ items) h =
    let (other, h') = not_first item_id i items h in
    let ih = reversing_entries-missing customer_id order_id date credits item_id items h' in
    let skipped : ((customer_id == customer_id) && (i == item_id)) ≡ false =
      rw (other, ==-refl customer_id) refl in
    elim (Bool-cases (ltb_ℤ (credit_sum (of_order order_id i) credits) (pos 0))) [
      | inl e ↦ rw (e, skipped, ih) (omega int_laws)
      | inr e ↦ rw e ih
    ]

first_given :
    (customer_id order_id date : ℕ) (credits : List PalletCredit) (i : ℕ) (items : List ℕ)
    → entry_sum
        (of_customer customer_id i)
        (reversing_entries customer_id order_id date credits items)
      ≡ pos 0
    → entry_sum
        (of_customer customer_id i)
        (reversing_entries customer_id order_id date credits (i ∷ items))
      ≡ given_back order_id i credits
unfolding reversing_entries
first_given customer_id order_id date credits i items rest =
    let own : ((customer_id == customer_id) && (i == i)) ≡ true =
      rw (==-refl customer_id, ==-refl i) refl in
    elim (Bool-cases (ltb_ℤ (credit_sum (of_order order_id i) credits) (pos 0))) [
      | inl e ↦ rw (e, own, rest) (omega int_laws)
      | inr e ↦ rw e rest
    ]

reversing_entries-sum :
    (customer_id order_id date : ℕ) (credits : List PalletCredit) (item_id : ℕ) (items : List ℕ)
    → IsDistinct items
    → includes item_id items ≡ true
    → entry_sum
        (of_customer customer_id item_id)
        (reversing_entries customer_id order_id date credits items)
      ≡ given_back order_id item_id credits
unfolding reversing_entries
reversing_entries-sum customer_id order_id date credits item_id [] d h = cc
reversing_entries-sum customer_id order_id date credits item_id (i ∷ items) d h =
    let taken = credit_sum (of_order order_id i) credits in
    elim (Bool-cases (i == item_id)) [
      | inl e ↦
          let same : i ≡ item_id = (==_iff i item_id).0 e in
          let rest = reversing_entries-missing customer_id order_id date credits i items d.0 in
          subst
            (λ k.
              entry_sum (of_customer customer_id k)
                (reversing_entries customer_id order_id date credits (i ∷ items))
              ≡ given_back order_id k credits)
            same (first_given customer_id order_id date credits i items rest)
      | inr e ↦
          let there : includes item_id items ≡ true = ground (arith, same_number_comm item_id i) in
          let ih =
            reversing_entries-sum customer_id order_id date credits item_id items d.1 there in
          let skipped : ((customer_id == customer_id) && (i == item_id)) ≡ false =
            rw (e, ==-refl customer_id) refl in
          elim (Bool-cases (ltb_ℤ taken (pos 0))) [
            | inl low ↦ rw (low, skipped) (ap (λ z. pos 0 +ℤ z) ih ∙ omega int_laws)
            | inr fine ↦ rw fine ih
          ]
    ]

neg_parts : (a : ℤ) → pos_part (neg a) + pos_part a ≡ neg_part (neg a) + neg_part a
neg_parts a = ground arith

not_below : (z : ℤ) → z ≤ℤ pos 0 → ltb_ℤ z (pos 0) ≡ false → pos_part z ≡ neg_part z
not_below z low h = ground arith

-- What is below zero is given back, and the balance is as before it was taken.
gives_all : (x z : ℤ) → z ≤ℤ pos 0 → x +ℤ z +ℤ (if ltb_ℤ z (pos 0) then neg z else pos 0) ≡ x
gives_all x z low = elim (Bool-cases (ltb_ℤ z (pos 0))) [
  | inl e ↦ rw e (omega (int_laws, neg_parts z))
  | inr e ↦ rw e (omega (int_laws, not_below z low e))
]

given_back_nothing :
    (order_id item_id : ℕ) (credits : List PalletCredit)
    → credit_sum (of_order order_id item_id) credits ≡ pos 0
    → given_back order_id item_id credits ≡ pos 0
given_back_nothing order_id item_id credits h = rw h refl

-- The balance after a reversal.
reverse_for_order-sum :
    (order_id customer_id date user_id item_id : ℕ) (rows : CreditRows) {rows' : CreditRows}
    → reverse_for_order order_id customer_id date user_id rows ≡ ok rows'
    → credit_sum (of_customer customer_id item_id) rows'.credits
      ≡ credit_sum (of_customer customer_id item_id) rows.credits
        +ℤ given_back order_id item_id rows.credits
unfolding reverse_for_order
reverse_for_order-sum order_id customer_id date user_id item_id rows h =
    let items = order_credit_item_ids order_id rows.credits in
    let balance = credit_sum (of_customer customer_id item_id) rows.credits in
    let written =
      write_many-sum (of_customer customer_id item_id)
        (reversing_entries customer_id order_id date rows.credits items) user_id rows h in
    written
    ∙ ap (λ z. balance +ℤ z)
        (elim (Bool-cases (includes item_id items)) [
          | inl there ↦
              reversing_entries-sum customer_id order_id date rows.credits item_id items
                (order_credit_item_ids-IsDistinct order_id rows.credits) there
          | inr missing ↦
              reversing_entries-missing customer_id order_id date rows.credits item_id items missing
              ∙ sym (
                  given_back_nothing order_id item_id rows.credits
                    (order_credit_item_ids-missing order_id item_id rows.credits missing))
        ])

-- When a new order, which no entry names yet, takes of what the customer is owed and is then
-- cancelled, the customer is owed as much of every item as before.
pub use_for_order-reversed :
    (customer_id order_id date on user_id item_id : ℕ) (taken : List (ℕ × ℕ))
    (rows used back : CreditRows)
    → All (λ (c : PalletCredit). names_order order_id c.entry ≡ false) rows.credits
    → use_for_order customer_id order_id taken date user_id rows ≡ ok used
    → reverse_for_order order_id customer_id on user_id used ≡ ok back
    → (credit_sum (of_customer customer_id item_id) back.credits
        ≡ credit_sum (of_customer customer_id item_id) rows.credits)
      × (owed_of_item customer_id back.credits item_id
          ≡ owed_of_item customer_id rows.credits item_id)
unfolding use_for_order owed_of_item
use_for_order-reversed customer_id order_id date on user_id item_id taken rows used back new u b =
    let entries = use_entries customer_id order_id date taken in
    let of_it = of_customer customer_id item_id in
    let of_this = of_order order_id item_id in
    let (same, low) =
      entry_sum-IsTaking customer_id order_id item_id entries
        (use_entries-IsTaking customer_id order_id date taken) in
    let theirs = write_many-sum of_it entries user_id rows u in
    let its : credit_sum of_this used.credits ≡ entry_sum of_this entries =
      write_many-sum of_this entries user_id rows u
      ∙ (ap (λ z. z +ℤ entry_sum of_this entries)
            (credit_sum-unnamed order_id item_id rows.credits new)
          ∙ omega int_laws) in
    let balance =
      reverse_for_order-sum order_id customer_id on user_id item_id used b
      ∙ (ap (λ z. z +ℤ given_back order_id item_id used.credits) theirs
          ∙ (ap
                (λ z.
                  credit_sum of_it rows.credits +ℤ z +ℤ given_back order_id item_id used.credits)
                (sym same)
              ∙ (ap
                    (λ z.
                      credit_sum of_it rows.credits
                      +ℤ entry_sum of_this entries
                      +ℤ (if ltb_ℤ z (pos 0) then neg z else pos 0))
                    its
                  ∙ gives_all (credit_sum of_it rows.credits) (entry_sum of_this entries) low))) in
    (balance, ap (λ z. if ltb_ℤ (pos 0) z then some (pos_part z) else none) balance)
