-- ===== src/Returns/Rules.antt =====
-- What a return that passes the rules of apps/api/src/modules/returns/return-rules.ts satisfies.
use mathlib.Core.Path.{subst}
use item_lending_management.Prelude.{
  All, All-mono, Bool, Bool-cases, Dict, List, Option-cases, [], ap, arith, false, includes, inl,
  inr, keep, lookup, ltb, map, refl, some, sym, true, ℕ, ◌*◌, ◌+◌, ◌∙◌, ◌∷◌, ◌≡◌, ◌≢◌, ◌≤◌,
}
use item_lending_management.Failure.{
  >>=-eq-ok, Failure, api, damaged_refund_too_high, ok, ok-injective, return_date_before_order_date,
  return_duplicate_line, throw_if, traverse, traverse-cons,
}
use item_lending_management.Domain.{ReturnLineState}
use item_lending_management.Returns.{
  PricedReturnLine, ReturnBody, ReturnableLine, ReturnableOrder, exceeds, lines_by_id, price_line,
  refuse_duplicates, refuse_empty, refuse_high_refunds, refuse_over, validate_return_against_order,
  with_line,
}

-- Every line id once.
abbrev pub Distinct : List ReturnLineState → Type 0
Distinct [] = Unit
Distinct (e ∷ es) =
    All (λ (x : ReturnLineState). x.order_line_id ≢ e.order_line_id) es × Distinct es

not_ltb : (a b : ℕ) → ltb a b ≡ false → b ≤ a
not_ltb a b h = ground arith

throw_if-passed : (c : Bool) (e : Failure) {u : Unit {0}} → throw_if c e ≡ ok u → c ≡ false
throw_if-passed true e h = cc
throw_if-passed false e h = refl

refuse_duplicates-unseen :
    (seen : List ℕ) (es : List ReturnLineState) {u : Unit {0}}
    → refuse_duplicates seen es ≡ ok u
    → All (λ (x : ReturnLineState). includes x.order_line_id seen ≡ false) es × Distinct es
unfolding refuse_duplicates
refuse_duplicates-unseen seen [] h = (tt, tt)
refuse_duplicates-unseen seen (e ∷ es) h =
    let (u, h₁, h₂) =
      >>=-eq-ok
        (throw_if (includes e.order_line_id seen) (api (return_duplicate_line e.order_line_id))) _
        h in
    let (unseen, distinct) = refuse_duplicates-unseen (e.order_line_id ∷ seen) es h₂ in
    (
      (
        throw_if-passed _ _ h₁,
        All-mono
            (λ (x : ReturnLineState). includes x.order_line_id (e.order_line_id ∷ seen) ≡ false)
            (λ (x : ReturnLineState). includes x.order_line_id seen ≡ false) es
            (λ x k. ground (arith, k)) unseen,
      ),
      (
        All-mono
            (λ (x : ReturnLineState). includes x.order_line_id (e.order_line_id ∷ seen) ≡ false)
            (λ (x : ReturnLineState). x.order_line_id ≢ e.order_line_id) es
            (λ x k q. ground (arith, k, q)) unseen,
        distinct,
      ),
    )

-- What one priced line satisfies: it is a line of the order at that line's deposit, no more comes
-- back than is out, and the refund for damaged pallets is at most their deposit.
abbrev pub Allowed : Dict ReturnableLine → PricedReturnLine → Type 0
Allowed lines p =
    (line : ReturnableLine) × (lookup p.order_line_id lines ≡ some line)
    × (p.item_id ≡ line.item_id)
    × (p.unit_deposit ≡ line.unit_deposit)
    × (p.accepted_quantity + p.damaged_quantity ≤ line.out_quantity)
    × (p.damaged_refund ≤ p.damaged_quantity * p.unit_deposit)

with_line-eq :
    (lines : Dict ReturnableLine) (e : ReturnLineState) {p : ReturnLineState × ReturnableLine}
    → with_line lines e ≡ ok p
    → (p.0 ≡ e) × (lookup e.order_line_id lines ≡ some p.1)
unfolding with_line
with_line-eq lines e {p} h = elim (Option-cases (lookup e.order_line_id lines)) [
  | inl q ↦ absurd (let c = rw q at h in cc)
  | inr (l, q) ↦
      let c : ok (e, l) ≡ ok p = rw q at h in
      let k = ok-injective c in
      (
        sym (ap (λ (x : ReturnLineState × ReturnableLine). x.0) k),
        q ∙ ap (λ (x : ReturnLineState × ReturnableLine). some x.1) k,
      )
]

refuse_over-none :
    (ps : List (ReturnLineState × ReturnableLine)) {u : Unit {0}}
    → refuse_over (keep exceeds ps) ≡ ok u
    → All (λ (p : ReturnLineState × ReturnableLine). exceeds p ≡ false) ps
refuse_over-none [] h = tt
refuse_over-none (p ∷ ps) h = elim (Bool-cases (exceeds p)) [
  | inl e ↦ absurd (let c = rw e at h in cc)
  | inr e ↦ (e, refuse_over-none ps (rw e at h))
]

refuse_high_refunds-low :
    (ps : List (ReturnLineState × ReturnableLine)) {u : Unit {0}}
    → refuse_high_refunds ps ≡ ok u
    → All
        (λ (p : ReturnLineState × ReturnableLine).
          ltb (p.0.damaged_quantity * p.1.unit_deposit) p.0.damaged_refund ≡ false)
        ps
unfolding refuse_high_refunds
refuse_high_refunds-low [] h = tt
refuse_high_refunds-low (p ∷ ps) h =
    let (u, h₁, h₂) =
      >>=-eq-ok
        (throw_if (ltb (p.0.damaged_quantity * p.1.unit_deposit) p.0.damaged_refund) (
          api
            (damaged_refund_too_high p.0.order_line_id (p.0.damaged_quantity * p.1.unit_deposit))))
        _ h in
    (throw_if-passed _ _ h₁, refuse_high_refunds-low ps h₂)

priced-Allowed :
    (lines : Dict ReturnableLine) (es : List ReturnLineState)
    {ps : List (ReturnLineState × ReturnableLine)}
    → traverse (with_line lines) es ≡ ok ps
    → All (λ (p : ReturnLineState × ReturnableLine). exceeds p ≡ false) ps
    → All
        (λ (p : ReturnLineState × ReturnableLine).
          ltb (p.0.damaged_quantity * p.1.unit_deposit) p.0.damaged_refund ≡ false)
        ps
    → All (Allowed lines) (map price_line ps)
priced-Allowed lines [] h over high = rw (← ok-injective h) tt
priced-Allowed lines (e ∷ es) {ps} h over high =
    let (z, zs, hz, hs, q) = traverse-cons (with_line lines) e es h in
    let over' = subst (All (λ (p : ReturnLineState × ReturnableLine). exceeds p ≡ false)) q over in
    let high' =
      subst
        (All (λ (p : ReturnLineState × ReturnableLine).
          ltb (p.0.damaged_quantity * p.1.unit_deposit) p.0.damaged_refund ≡ false))
        q high in
    let (same, found) = with_line-eq lines e hz in
    subst (λ (x : List (ReturnLineState × ReturnableLine)). All (Allowed lines) (map price_line x))
      (sym q)
      (
        (
          z.1,
          ap (λ (x : ReturnLineState). lookup x.order_line_id lines) same ∙ found,
          refl,
          refl,
          not_ltb z.1.out_quantity (z.0.accepted_quantity + z.0.damaged_quantity) over'.0,
          not_ltb (z.0.damaged_quantity * z.1.unit_deposit) z.0.damaged_refund high'.0,
        ),
        priced-Allowed lines es hs over'.1 high'.1,
      )

-- If a return passes, it has a line, names each order line once, is dated on or after its order,
-- and every priced line is one of the order's, at its stored deposit, with no more pallets than are
-- out and a refund for the damaged ones of at most their deposit.
pub validate-Allowed :
    (order : ReturnableOrder) (body : ReturnBody) {priced : List PricedReturnLine}
    → validate_return_against_order order body ≡ ok priced
    → (body.lines ≢ [])
      × Distinct body.lines
      × (order.date ≤ body.date)
      × All (Allowed (lines_by_id order.lines)) priced
unfolding validate_return_against_order
validate-Allowed order body h =
    let (u₀, e₀, h₀) = >>=-eq-ok (refuse_empty body.lines) _ h in
    let (u₁, e₁, h₁) = >>=-eq-ok (refuse_duplicates [] body.lines) _ h₀ in
    let (ps, e₂, h₂) = >>=-eq-ok (traverse (with_line (lines_by_id order.lines)) body.lines) _ h₁ in
    let (u₃, e₃, h₃) =
      >>=-eq-ok
        (throw_if (ltb body.date order.date) (api (return_date_before_order_date order.date))) _
        h₂ in
    let (u₄, e₄, h₄) = >>=-eq-ok (refuse_high_refunds ps) _ h₃ in
    let (u₅, e₅, h₅) = >>=-eq-ok (refuse_over (keep exceeds ps)) _ h₄ in
    let d = throw_if-passed _ _ e₃ in
    (
      (λ z. let c = sym (ap refuse_empty z) ∙ e₀ in cc),
      (refuse_duplicates-unseen [] body.lines e₁).1,
      ground (arith, d),
      subst (All (Allowed (lines_by_id order.lines))) (ok-injective h₅) (
          priced-Allowed (lines_by_id order.lines) body.lines e₂ (refuse_over-none ps e₅)
            (refuse_high_refunds-low ps e₄)),
    )
