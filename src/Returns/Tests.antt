-- ===== src/Returns/Tests.antt =====
-- A return checked by the rules of apps/api/src/modules/returns/return-rules.ts, and its price.
use item_lending_management.Prelude.{All, List, [], refl, ◌∷◌, ◌≡◌, ◌≢◌, ◌≤◌}
use item_lending_management.Failure.{api, err, ok, return_exceeds_out}
use item_lending_management.Domain.{assert_safe, return_money, return_refund_due}
use item_lending_management.Returns.{
  PricedReturnLine, ReturnBody, ReturnableOrder, lines_by_id, price_return, refuse_duplicates,
  refuse_high_refunds, validate_return_against_order, with_line,
}
use item_lending_management.Returns.Rules.{Allowed, Distinct, validate-Allowed}

abbrev order : ReturnableOrder
order = record {
  date = 100;
  lines =
      record { id = 1; item_id = 4; unit_deposit = 5; out_quantity = 10 }
      ∷ record { id = 2; item_id = 6; unit_deposit = 20; out_quantity = 3 }
      ∷ [];
}

abbrev body : ReturnBody
body = record {
  date = 101;
  lines =
      record { order_line_id = 2; accepted_quantity = 1; damaged_quantity = 2; damaged_refund = 15 }
      ∷ record {
        order_line_id = 1;
        accepted_quantity = 4;
        damaged_quantity = 0;
        damaged_refund = 0;
      }
      ∷ [];
}

abbrev priced : List PricedReturnLine
priced =
    record {
      order_line_id = 2;
      item_id = 6;
      accepted_quantity = 1;
      damaged_quantity = 2;
      unit_deposit = 20;
      damaged_refund = 15;
    }
    ∷ record {
      order_line_id = 1;
      item_id = 4;
      accepted_quantity = 4;
      damaged_quantity = 0;
      unit_deposit = 5;
      damaged_refund = 0;
    }
    ∷ []

validate_test : validate_return_against_order order body ≡ ok priced
unfolding validate_return_against_order refuse_duplicates with_line refuse_high_refunds
validate_test = refl

over_test :
    validate_return_against_order
      (record order {
        date = 101;
        lines =
            record { id = 2; item_id = 6; unit_deposit = 20; out_quantity = 2 }
            ∷ record { id = 1; item_id = 4; unit_deposit = 5; out_quantity = 10 }
            ∷ [];
      })
      body
    ≡ err (api (return_exceeds_out ((2, 3, 2) ∷ [])))
unfolding validate_return_against_order refuse_duplicates with_line refuse_high_refunds
over_test = refl

price_test :
    price_return priced 40
    ≡ ok (record { refund_due = 55; owed_before = 40; cash_refund = 15; owed_after = 0 })
unfolding price_return return_refund_due assert_safe return_money
price_test = refl

validate-Allowed_example :
    (body.lines ≢ [])
    × Distinct body.lines
    × (order.date ≤ body.date)
    × All (Allowed (lines_by_id order.lines)) priced
validate-Allowed_example = validate-Allowed order body validate_test
