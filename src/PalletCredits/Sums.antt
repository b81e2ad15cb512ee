-- ===== src/PalletCredits/Sums.antt =====
-- The sums of the credit ledger under new entries.
use item_lending_management.Prelude.{
  ==-refl, ==_iff, All, Bool, Bool-cases, List, [], ap, arith, false, if◌then◌else◌, inl, inr,
  int_laws, ltb, neg, none, pos, refl, some, suc, sym, true, zero, ℕ, ℤ, ◌++◌, ◌+ℤ◌, ◌==◌, ◌∙◌, ◌∷◌,
  ◌≡◌, ◌≤ℤ◌,
}
use item_lending_management.Failure.{>>=-eq-ok, ok, ok-injective}
use item_lending_management.Stock.{apply}
use item_lending_management.PalletCredits.{
  CreditEntry, CreditRows, PalletCredit, credit_sum, insert_many, names_order, of_customer,
  of_order, use_entries, write_many,
}

-- The sum of entries that are to be written.
abbrev pub entry_sum : (CreditEntry → Bool) → List CreditEntry → ℤ
entry_sum p [] = pos 0
entry_sum p (e ∷ es) = (if p e then e.quantity else pos 0) +ℤ entry_sum p es

credit_sum-snoc :
    (p : CreditEntry → Bool) (cs : List PalletCredit) (c : PalletCredit)
    → credit_sum p (cs ++ c ∷ [])
      ≡ credit_sum p cs +ℤ (if p c.entry then c.entry.quantity else pos 0)
unfolding credit_sum
credit_sum-snoc p [] c = omega int_laws
credit_sum-snoc p (x ∷ cs) c = rw (credit_sum-snoc p cs c) (omega int_laws)

insert_many-sum :
    (p : CreditEntry → Bool) (es : List CreditEntry) (user_id : ℕ) (cs : List PalletCredit)
    (next : ℕ)
    → credit_sum p (insert_many es user_id cs next).0 ≡ credit_sum p cs +ℤ entry_sum p es
unfolding insert_many
insert_many-sum p [] user_id cs next = omega int_laws
insert_many-sum p (e ∷ es) user_id cs next =
    let created : PalletCredit = record { id = next; entry = e; created_by_user_id = user_id } in
    rw (insert_many-sum p es user_id (cs ++ created ∷ []) (suc next), credit_sum-snoc p cs created)
      (omega int_laws)

pub write_many-sum :
    (p : CreditEntry → Bool) (es : List CreditEntry) (user_id : ℕ) (rows : CreditRows)
    {rows' : CreditRows}
    → write_many es user_id rows ≡ ok rows'
    → credit_sum p rows'.credits ≡ credit_sum p rows.credits +ℤ entry_sum p es
unfolding write_many
write_many-sum p es user_id rows h =
    let written = insert_many es user_id rows.credits rows.next_credit_id in
    let (stock, _, h₁) = >>=-eq-ok (apply rows.stock written.1 user_id) _ h in
    sym (ap (λ (r : CreditRows). credit_sum p r.credits) (ok-injective h₁))
    ∙ insert_many-sum p es user_id rows.credits rows.next_credit_id

-- The entries of an order and a customer, summed as the customer's or as the order's.
abbrev pub IsTaking : ℕ → ℕ → CreditEntry → Type 0
IsTaking customer_id order_id e =
    (e.customer_id ≡ customer_id) × (e.order_id ≡ some order_id) × (e.quantity ≤ℤ pos 0)

below_zero : (n : ℕ) → neg (pos n) ≤ℤ pos 0
below_zero zero = omega arith
below_zero (suc n) = ground arith

pub use_entries-IsTaking :
    (customer_id order_id date : ℕ) (taken : List (ℕ × ℕ))
    → All (IsTaking customer_id order_id) (use_entries customer_id order_id date taken)
unfolding use_entries
use_entries-IsTaking customer_id order_id date [] = tt
use_entries-IsTaking customer_id order_id date ((item_id, quantity) ∷ taken) =
    elim (Bool-cases (ltb 0 quantity)) [
      | inl e ↦
          rw e (
            (refl, refl, below_zero quantity),
            use_entries-IsTaking customer_id order_id date taken,
          )
      | inr e ↦ rw e (use_entries-IsTaking customer_id order_id date taken)
    ]

IsTaking-tests :
    (customer_id order_id item_id : ℕ) (e : CreditEntry)
    → IsTaking customer_id order_id e
    → (of_order order_id item_id e ≡ of_customer customer_id item_id e) × (e.quantity ≤ℤ pos 0)
IsTaking-tests customer_id order_id item_id e (c, o, low) =
    let named : names_order order_id e ≡ true =
      ap (λ x. elim x [ none ↦ false | some n ↦ n == order_id ]) o ∙ ==-refl order_id in
    let own : (e.customer_id == customer_id) ≡ true = (==_iff e.customer_id customer_id).1 c in
    (rw (named, own) refl, low)

pub entry_sum-IsTaking :
    (customer_id order_id item_id : ℕ) (es : List CreditEntry)
    → All (IsTaking customer_id order_id) es
    → (entry_sum (of_order order_id item_id) es ≡ entry_sum (of_customer customer_id item_id) es)
      × (entry_sum (of_order order_id item_id) es ≤ℤ pos 0)
entry_sum-IsTaking customer_id order_id item_id [] a = (refl, omega arith)
entry_sum-IsTaking customer_id order_id item_id (e ∷ es) a =
    let (same, low) = entry_sum-IsTaking customer_id order_id item_id es a.1 in
    let (one, under) = IsTaking-tests customer_id order_id item_id e a.0 in
    (
      rw (one, same) refl,
      elim (Bool-cases (of_order order_id item_id e)) [
        | inl of_it ↦ rw of_it (omega (int_laws, under, low))
        | inr of_another ↦ rw of_another (omega (int_laws, low))
      ],
    )

-- An order that no entry names takes nothing.
pub credit_sum-unnamed :
    (order_id item_id : ℕ) (cs : List PalletCredit)
    → All (λ (c : PalletCredit). names_order order_id c.entry ≡ false) cs
    → credit_sum (of_order order_id item_id) cs ≡ pos 0
unfolding credit_sum
credit_sum-unnamed order_id item_id [] a = refl
credit_sum-unnamed order_id item_id (c ∷ cs) a =
    rw (a.0, credit_sum-unnamed order_id item_id cs a.1) (omega int_laws)
