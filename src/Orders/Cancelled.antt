-- ===== src/Orders/Cancelled.antt =====
-- What a cancelling that succeeds was asked of, and what it leaves.
use mathlib.Core.Path.{subst}
use item_lending_management.Prelude.{
  ==-refl, ==_iff, Bool, List, Option-cases, ap, arith, false, find-holds, inl, inr, not, refl,
  some, sym, true, ℕ, ◌==◌, ◌∙◌, ◌≡◌,
}
use item_lending_management.Failure.{
  >>=-eq-ok, Failure, Result, api, err, ok, ok-injective, order_cancelled, throw_if,
  version_conflict, ◌>>◌,
}
use item_lending_management.Store.{LedgerEntry, Order, Rows, entries_of_order, find_order}
use item_lending_management.Orders.State.{is_some}
use item_lending_management.Orders.Rules.{
  ReturnWith, assert_no_activity, order_activity, standing_automatic_payment,
}
use item_lending_management.Orders.Cancel.{CancelRows, assert_cancellable, cancel, write_cancel}
use item_lending_management.Ledger.{order_found}
use item_lending_management.Versioning.{assert_version}
use item_lending_management.Orders.Cleared.{Cleared, write_cancel-Cleared}

-- An order that was cancelled is not cancelled again.
cancel-again :
    (now today order_id user_id : ℕ) (state : CancelRows) (o : Order)
    → find_order order_id state.rows ≡ some o
    → is_some o.cancelled_at ≡ true
    → cancel now today order_id o.version user_id state ≡ err (api (order_cancelled order_id))
unfolding cancel order_found assert_cancellable assert_version
cancel-again now today order_id user_id state o found dead =
    rw (found, ==-refl o.version, dead) refl

-- What the checks of `cancel` let through.
record Allowed (version : ℕ) (order : Order) (returns_with : List ReturnWith)
    (entries : List LedgerEntry) : Type 0 where
  current : order.version ≡ version
  live : is_some order.cancelled_at ≡ false
  inactive : assert_no_activity (order_activity order returns_with entries) ≡ ok tt

same_version : (a b c : ℕ) → throw_if (not (a == b)) (api (version_conflict c)) ≡ ok tt → a ≡ b
same_version a b c h = ground arith

not_thrown : (b : Bool) (e : Failure) → throw_if b e ≡ ok tt → b ≡ false
not_thrown true e h = cc
not_thrown false e h = refl

unit-eq : (r : Result (Unit {0})) {u : Unit {0}} → r ≡ ok u → r ≡ ok tt
unit-eq r h = h

assert_cancellable-Allowed :
    (order_id version : ℕ) (order : Order) (returns_with : List ReturnWith)
    (entries : List LedgerEntry) {u : Unit {0}}
    → assert_cancellable order_id version order returns_with entries ≡ ok u
    → Allowed version order returns_with entries
unfolding assert_cancellable assert_version
assert_cancellable-Allowed order_id version order returns_with entries h =
    let (_, both, last) =
      >>=-eq-ok
        (throw_if (not (order.version == version)) (api (version_conflict order.version))
          >> throw_if (is_some order.cancelled_at) (api (order_cancelled order_id)))
        _ h in
    let (_, first, second) =
      >>=-eq-ok (throw_if (not (order.version == version)) (api (version_conflict order.version))) _
        both in
    record {
      current = same_version order.version version order.version first;
      live = not_thrown (is_some order.cancelled_at) (api (order_cancelled order_id)) second;
      inactive = last;
    }

-- What is known of an order before a cancelling that succeeds, and what the cancelling leaves.
pub record Cancelled (now order_id version : ℕ) (state after : CancelRows) (detail : Order)
    : Type 0 where
  pub order : Order
  pub found : find_order order_id state.rows ≡ some order
  pub current : order.version ≡ version
  pub live : is_some order.cancelled_at ≡ false
  pub inactive :
      assert_no_activity (
        order_activity order
          (state.returns_with order_id)
          (entries_of_order order_id state.rows.ledger_entries))
      ≡ ok tt
  pub cleared :
      Cleared now order state.rows after.rows
        (standing_automatic_payment (entries_of_order order.id state.rows.ledger_entries))
  pub answered : cleared.left ≡ detail
  pub final :
      (at on user_id : ℕ)
      → cancel at on order_id detail.version user_id after ≡ err (api (order_cancelled order_id))

order_found-eq :
    (order_id : ℕ) (rows : Rows) {o : Order}
    → order_found order_id rows ≡ ok o
    → find_order order_id rows ≡ some o
unfolding order_found
order_found-eq order_id rows {o} h = elim (Option-cases (find_order order_id rows)) [
  | inl e ↦ absurd (let c = rw e at h in cc)
  | inr (p, e) ↦ e ∙ (let c : ok p ≡ ok o = rw e at h in ap some (ok-injective c))
]

some-injective : {a b : Order} → some a ≡ some b → a ≡ b
some-injective h = cc

found-Cancelled :
    (now order_id version : ℕ) (state after : CancelRows) (order detail : Order)
    → find_order order_id state.rows ≡ some order
    → order.id ≡ order_id
    → Allowed version order
        (state.returns_with order_id)
        (entries_of_order order_id state.rows.ledger_entries)
    → Cleared now order state.rows after.rows
        (standing_automatic_payment (entries_of_order order.id state.rows.ledger_entries))
    → find_order order_id after.rows ≡ some detail
    → Cancelled now order_id version state after detail
found-Cancelled now order_id version state after order detail found same allowed cleared there =
    let answered =
      some-injective (sym cleared.found ∙ (ap (λ i. find_order i after.rows) same ∙ there)) in
    record {
      order = order;
      found = found;
      current = allowed.current;
      live = allowed.live;
      inactive = allowed.inactive;
      cleared = cleared;
      answered = answered;
      final = λ at on user_id.
          cancel-again at on order_id user_id after detail there
            (subst (λ (o : Order). is_some o.cancelled_at ≡ true) answered cleared.cleared.marked);
    }

-- A cancelling that succeeds is of an order that is there in the version named, not cancelled before
-- and without activity. It leaves the order with the cancel mark, one version on, owing nothing and
-- with nothing out, held or paid; the ledger has one more row, the reversal of the standing automatic
-- payment with its amount, or none if there was no such payment; the answer is the order as it is
-- left; and another cancelling is refused as of a cancelled order.
pub cancel-effect :
    (now today order_id version user_id : ℕ) (state : CancelRows) {after : CancelRows}
    {detail : Order}
    → cancel now today order_id version user_id state ≡ ok (after, detail)
    → Cancelled now order_id version state after detail
unfolding cancel
cancel-effect now today order_id version user_id state {after} {detail} h =
    let (order, f, h₁) = >>=-eq-ok (order_found order_id state.rows) _ h in
    let (_, c, h₂) =
      >>=-eq-ok
        (assert_cancellable order_id version order (state.returns_with order_id)
          (entries_of_order order_id state.rows.ledger_entries))
        _ h₁ in
    let (written, w, h₃) = >>=-eq-ok (write_cancel now today order user_id state) _ h₂ in
    let (answer, d, h₄) = >>=-eq-ok (order_found order_id written.rows) _ h₃ in
    let found = order_found-eq order_id state.rows f in
    let same : order.id ≡ order_id =
      (==_iff order.id order_id).0
        (find-holds (λ (o : Order). o.id == order_id) state.rows.orders found) in
    let found' : find_order order.id state.rows ≡ some order =
      ap (λ i. find_order i state.rows) same ∙ found in
    subst (λ (x : CancelRows × Order). Cancelled now order_id version state x.0 x.1)
      (ok-injective h₄)
      (found-Cancelled now order_id version state written order answer found same
        (assert_cancellable-Allowed order_id version order (state.returns_with order_id)
          (entries_of_order order_id state.rows.ledger_entries) c)
        (write_cancel-Cleared now today order user_id state found' w)
        (order_found-eq order_id written.rows d))
