-- ===== src/Domain/Tests.antt =====
-- Runs of the formulas of packages/shared/src/domain/ledger-math.ts on small orders, and the
-- theorems about them applied there.
use item_lending_management.Prelude.{
  Bool, List, [], arith, false, length, none, pos, refl, some, true, ℕ, ◌++◌, ◌+ℤ◌, ◌+◌, ◌-ℤ◌, ◌<◌,
  ◌==◌, ◌↔◌, ◌∷◌, ◌≡◌, ◌≤◌, ◌⊎◌,
}
use item_lending_management.Failure.{err, ok, out_quantity_negative}
use item_lending_management.Domain.Order.{
  OrderLineState, OrderState, OrderTotals, ReturnState, is_open, payment, payment_reversal, settled,
}
use item_lending_management.Domain.Totals.{
  active_return_lines, assert_safe, assert_safe_ℤ, compensation_of, compute_order_totals,
  deposit_of, line_totals, line_totals_of, live_totals, net, out_value_of, owed_of, raw_line,
  refund_line, return_credit, return_money, return_refund_due, unit_deposit_by_line,
}
use item_lending_management.Domain.Lines.{Accounts}
use item_lending_management.Domain.Money.{compute-Accounts, compute-settled, return_money_balance}
use item_lending_management.Domain.Split.{cash-covers, deposit-split}
use item_lending_management.Domain.Undo.{
  mark_reversed, order_state_without_return, order_state_without_return-owed,
}
use item_lending_management.Domain.Credit.{check_credit_limit}
use item_lending_management.Domain.Entry.{compute-paid, compute-unpaid, paid, unpaid, with_entry}
use item_lending_management.Domain.Receipt.Chunks.{
  FullButLast, chunk_loop, chunk_receipt_lines, chunk_receipt_lines_total, joined,
  receipt_lines_per_half,
}
use item_lending_management.Domain.Receipt.Pages.{
  Laid, Pages, halves, heading_at, layout_loop, layout_receipt_rows, layout_receipt_rows_total,
  page_size, pages,
}

abbrev lines : List OrderLineState
lines =
    record { id = 1; quantity = 10; unit_deposit = 5 }
    ∷ record { id = 2; quantity = 4; unit_deposit = 20 }
    ∷ []

abbrev first_return : ReturnState
first_return = record {
  reversed = false;
  lines =
      record { order_line_id = 1; accepted_quantity = 3; damaged_quantity = 2; damaged_refund = 4 }
      ∷ [];
}

abbrev order : OrderState
order = record {
  cancelled = false;
  lines = lines;
  returns = record { reversed = true; lines = first_return.lines } ∷ first_return ∷ [];
  ledger = record { type = payment; amount = 60 } ∷ [];
}

abbrev totals : OrderTotals
totals = record {
  lines =
      record {
        id = 1;
        line_total = 50;
        returned_accepted = 3;
        returned_damaged = 2;
        out_quantity = 5;
      }
      ∷ record {
        id = 2;
        line_total = 80;
        returned_accepted = 0;
        returned_damaged = 0;
        out_quantity = 4;
      }
      ∷ [];
  deposit_total = 130;
  payments_net = pos 60;
  credits_total = 19;
  refunds_net = pos 0;
  owed = 51;
  out_quantity_total = 9;
  out_value = 105;
  held = 54;
  compensation = pos 6;
  status = is_open;
}

order-totals : compute_order_totals order ≡ ok totals
unfolding compute_order_totals live_totals line_totals line_totals_of raw_line assert_safe
    assert_safe_ℤ net return_credit refund_line return_refund_due deposit_of compensation_of
    out_value_of owed_of ◌+ℤ◌ ◌-ℤ◌
order-totals = refl

-- Every pallet came back, but for one that was never paid for.
abbrev over_returned : OrderState
over_returned = record order { lines = record { id = 1; quantity = 4; unit_deposit = 5 } ∷ [] }

over_returned_refused : compute_order_totals over_returned ≡ err (out_quantity_negative 1)
unfolding compute_order_totals live_totals line_totals line_totals_of raw_line assert_safe
over_returned_refused = refl

compute-Accounts_example : Accounts (active_return_lines order.returns) lines totals.lines
compute-Accounts_example = compute-Accounts order refl order-totals

compute-settled_example :
    ((totals.status ≡ is_open) ⊎ (totals.status ≡ settled))
    × ((totals.status ≡ settled) ↔ ((totals.out_quantity_total ≡ 0) × (totals.owed ≡ 0)))
    × (totals.status ≡ settled → (totals.out_value ≡ 0) × (totals.held ≡ 0))
compute-settled_example = compute-settled order refl order-totals

deposit-split_example : pos 130 ≡ pos (105 + 19) +ℤ pos 6
deposit-split_example = deposit-split order refl (refl, (refl, tt)) order-totals

cash-covers_example : pos 60 -ℤ pos 0 +ℤ pos 51 ≡ pos 105 +ℤ pos 6
cash-covers_example = cash-covers order refl (refl, (refl, tt)) order-totals

return_money_balance_example :
    let m = return_money 51 60 in
    (m.cash_refund + 51 ≡ m.owed_after + 60) × ((m.cash_refund ≡ 0) ⊎ (m.owed_after ≡ 0))
return_money_balance_example = return_money_balance 51 60

abbrev totals_without : OrderTotals
totals_without = record totals {
  lines =
      record {
        id = 1;
        line_total = 50;
        returned_accepted = 0;
        returned_damaged = 0;
        out_quantity = 10;
      }
      ∷ record {
        id = 2;
        line_total = 80;
        returned_accepted = 0;
        returned_damaged = 0;
        out_quantity = 4;
      }
      ∷ [];
  credits_total = 0;
  owed = 70;
  out_quantity_total = 14;
  out_value = 130;
  held = 60;
  compensation = pos 0;
}

without_totals : compute_order_totals (order_state_without_return order 1 0) ≡ ok totals_without
unfolding compute_order_totals live_totals line_totals line_totals_of raw_line assert_safe
    assert_safe_ℤ net return_credit refund_line return_refund_due deposit_of compensation_of
    out_value_of owed_of order_state_without_return mark_reversed ◌+ℤ◌ ◌-ℤ◌
without_totals = refl

order_state_without_return-owed_example :
    (c : ℕ) × (return_credit (unit_deposit_by_line lines) first_return ≡ ok c)
    × (70 + 0 ≡ 51 + c)
    × (0 + c ≡ 19)
    × (totals_without.deposit_total ≡ 130)
    × (totals_without.payments_net ≡ pos 60)
order_state_without_return-owed_example =
    order_state_without_return-owed order 1 0 refl refl refl order-totals without_totals

over_limit : check_credit_limit (some 100) 80 (pos 30) ≡ record { allowed = false; excess = pos 10 }
unfolding check_credit_limit ◌+ℤ◌ ◌-ℤ◌
over_limit = refl

abbrev seven : List ℕ
seven = 1 ∷ 2 ∷ 3 ∷ 4 ∷ 5 ∷ 6 ∷ 7 ∷ []

seven_chunks :
    chunk_receipt_lines seven receipt_lines_per_half
    ≡ some ((1 ∷ 2 ∷ 3 ∷ 4 ∷ 5 ∷ 6 ∷ []) ∷ (7 ∷ []) ∷ [])
unfolding chunk_receipt_lines chunk_loop
seven_chunks = refl

chunk_receipt_lines_total_example :
    (cs : List (List ℕ)) × (chunk_receipt_lines seven 6 ≡ some cs)
    × (joined cs ≡ seven)
    × (((seven ≡ []) × (cs ≡ [] ∷ [])) ⊎ ((1 ≤ length seven) × FullButLast 6 cs))
chunk_receipt_lines_total_example = chunk_receipt_lines_total seven 6 (omega arith)

-- Rows are numbers here, and 100 is a heading that repeats.
abbrev is_hundred : ℕ → Bool
is_hundred n = n == 100

abbrev rows : List ℕ
rows = seven ++ seven ++ seven ++ 1 ∷ 2 ∷ 3 ∷ 4 ∷ 5 ∷ 100 ∷ 8 ∷ 9 ∷ []

rows_pages :
    layout_receipt_rows is_hundred is_hundred rows
    ≡ some (record {
      layout = pages;
      rows_per_copy = 27;
      chunks = (seven ++ seven ++ seven ++ 1 ∷ 2 ∷ 3 ∷ 4 ∷ 5 ∷ []) ∷ (100 ∷ 8 ∷ 9 ∷ []) ∷ [];
    })
unfolding layout_receipt_rows layout_loop page_size heading_at
rows_pages = refl

layout_receipt_rows_total_example :
    (laid : Laid ℕ) × (layout_receipt_rows is_hundred is_hundred rows ≡ some laid)
    × (((length rows ≤ 6)
          × (laid.layout ≡ halves)
          × (laid.rows_per_copy ≡ 6)
          × (laid.chunks ≡ rows ∷ []))
        ⊎ ((6 < length rows)
            × (laid.layout ≡ pages)
            × (laid.rows_per_copy ≡ 27)
            × Pages is_hundred is_hundred none rows laid.chunks))
layout_receipt_rows_total_example = layout_receipt_rows_total is_hundred is_hundred rows

compute-paid_example : compute_order_totals (with_entry payment 51 order) ≡ ok (paid 51 totals)
compute-paid_example = compute-paid order 51 refl order-totals (omega arith)

compute-unpaid_example :
    compute_order_totals (with_entry payment_reversal 60 order) ≡ ok (unpaid 60 totals)
compute-unpaid_example = compute-unpaid order 60 refl order-totals (omega arith)
