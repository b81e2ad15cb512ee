-- ===== src/PalletCredits/Tests.antt =====
-- A customer who is owed three pallets of an item takes two of them on a new order, which is
-- cancelled.
use item_lending_management.Prelude.{List, [], negsuc, none, pos, refl, some, ℕ, ℤ, ◌+ℤ◌, ◌∷◌, ◌≡◌}
use item_lending_management.Failure.{ok}
use item_lending_management.Stock.{
  StockMovement, StockState, apply, assert_available, movement_row, net_from, on_hand, ordered,
  pallet_credit, update_item, update_items,
}
use item_lending_management.PalletCredits.{
  CreditReason, CreditRows, PalletCredit, cancelled_order, credit_sum, insert_many, of_customer,
  order_credit_item_ids, order_entry, order_use, owed_of_item, plan_line, plan_order_use,
  return_surplus, reverse_for_order, reversing_entries, use_entries, use_for_order, write_many,
}
use item_lending_management.PalletCredits.Restored.{use_for_order-reversed}

abbrev surplus : PalletCredit
surplus = record {
  id = 1;
  entry = record {
    customer_id = 2;
    item_id = 4;
    quantity = pos 3;
    reason = return_surplus;
    return_id = some 5;
    order_id = none;
    reverses_credit_id = none;
    date = 100;
    note = none;
  };
  created_by_user_id = 3;
}

abbrev credit : ℕ → ℤ → CreditReason → ℕ → PalletCredit
credit id quantity reason date = record {
  id = id;
  entry = order_entry 2 7 4 quantity reason date;
  created_by_user_id = 3;
}

abbrev moved : ℕ → ℤ → StockMovement
moved id quantity =
    movement_row 3 (record { item_id = 4; quantity = quantity; reason = pallet_credit id })

abbrev stock_of : ℤ → List StockMovement → StockState
stock_of quantity movements = record {
  items = record { id = 4; quantity_on_hand = quantity } ∷ [];
  movements = movements;
}

abbrev owed : CreditRows
owed = record { credits = surplus ∷ []; next_credit_id = 2; stock = stock_of (pos 9) [] }

-- Ten are handed over, three of them owed.
plans_three : plan_order_use 2 owed.credits ((4, 10) ∷ (6, 1) ∷ []) ≡ (4, 3) ∷ []
unfolding plan_order_use plan_line owed_of_item credit_sum ◌+ℤ◌
plans_three = refl

abbrev used : CreditRows
used = record {
  credits = surplus ∷ credit 2 (negsuc 1) order_use 105 ∷ [];
  next_credit_id = 3;
  stock = stock_of (pos 7) (moved 2 (negsuc 1) ∷ []);
}

abbrev back : CreditRows
back = record {
  credits = surplus ∷ credit 2 (negsuc 1) order_use 105 ∷ credit 3 (pos 2) cancelled_order 106 ∷ [];
  next_credit_id = 4;
  stock = stock_of (pos 9) (moved 2 (negsuc 1) ∷ moved 3 (pos 2) ∷ []);
}

takes : use_for_order 2 7 ((4, 2) ∷ []) 105 3 owed ≡ ok used
unfolding use_for_order use_entries write_many insert_many apply assert_available net_from on_hand
    update_items update_item ordered movement_row ◌+ℤ◌
takes = refl

gives : reverse_for_order 7 2 106 3 used ≡ ok back
unfolding reverse_for_order reversing_entries order_credit_item_ids credit_sum write_many
    insert_many apply assert_available net_from on_hand update_items update_item ordered
    movement_row ◌+ℤ◌
gives = refl

use_for_order-reversed_example :
    (credit_sum (of_customer 2 4) back.credits ≡ credit_sum (of_customer 2 4) owed.credits)
    × (owed_of_item 2 back.credits 4 ≡ owed_of_item 2 owed.credits 4)
use_for_order-reversed_example =
    use_for_order-reversed 2 7 105 106 3 4 ((4, 2) ∷ []) owed used back (refl, tt) takes gives
