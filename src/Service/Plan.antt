-- ===== src/Service/Plan.antt =====
-- internal/service/capacity.go: from the lines of a request, or its product, to the reservations to
-- make. A Go map is an association list in which a key stands once; Go visits it in any order, the
-- model in the order of the list, and the plans are sorted by pool in the end.
pub mod Order
use cloud_resource_manager.Base.{
  Bool, ◌&&◌, not, Option, none, some, List, [], ◌∷◌, String, ◌=ₛ◌, leb, if◌then◌else◌,
}
use cloud_resource_manager.Base.Int.{ℤ, pos, ◌+ℤ◌, ◌*ℤ◌, ◌%ℤ◌, leb_ℤ, ltb_ℤ, wrap64}
use cloud_resource_manager.Base.Table.{order_by}
use cloud_resource_manager.Base.Action.{Result, ok, err, pure, lift, ◌>>=◌}
use cloud_resource_manager.Domain.Types.{
  Product, ResourcePool, conflict, invalid_input, invalid_resource_kind, product_not_found,
}
use cloud_resource_manager.Domain.Errors.{Error, new_app_error, text, number}
use cloud_resource_manager.Ports.{M, Ports}
use cloud_resource_manager.Service.Input.{LineInput, CreateInput, ReservationPlan, max_amount}
use cloud_resource_manager.Service.Validate.{at_least_one, amount_ok}

abbrev pub Amounts : Type 0
Amounts = List (String × ℤ)

-- `out[k] += a`, on int64.
unfoldable pub add_amount : String → ℤ → Amounts → Amounts
add_amount k a [] = (k, wrap64 a) ∷ []
add_amount k a ((j, b) ∷ out) =
    if j =ₛ k then (j, wrap64 (b +ℤ a)) ∷ out else (j, b) ∷ add_amount k a out

unfoldable pub resolve_template : ℤ → Amounts → List (String × ℤ) → Result Error Amounts
unfolding add_amount
resolve_template qty out [] = ok out
resolve_template qty out ((k, v) ∷ rest) =
    let amt = wrap64 (v *ℤ qty) in
    let next = resolve_template qty (add_amount k amt out) rest in
    if amount_ok amt
    then next
    else err (
        new_app_error invalid_input "resolved line amount out of bounds"
          (some (("kind", text k) ∷ ("amount", number amt) ∷ ("max", number max_amount) ∷ [])))

unfoldable pub add_lines : Amounts → List LineInput → Amounts
unfolding add_amount
add_lines out [] = out
add_lines out (l ∷ ls) = add_lines (add_amount l.resource_kind l.amount out) ls

-- What `resolveLines` makes of a product, and of lines.
abbrev pub resolve_product : CreateInput → Option Product → Result Error (Amounts × Option Product)
resolve_product i none = err (
    new_app_error product_not_found "product not found"
      (some (("product", text i.product_code) ∷ [])))
resolve_product i (some p) =
    elim (resolve_template (at_least_one i.quantity) [] p.resource_template) [
      | ok out ↦ ok (out, some p)
      | err e ↦ err e
    ]

abbrev pub resolve_raw : List LineInput → Result Error (Amounts × Option Product)
resolve_raw [] = err (new_app_error conflict "product_id or lines required" none)
resolve_raw (l ∷ ls) = ok (add_lines [] (l ∷ ls), none)

-- `pool.Policy.MinGrain > 0 && amount%pool.Policy.MinGrain != 0`.
abbrev pub misaligned : ℤ → ℤ → Bool
misaligned min_grain amount =
    let r = amount %ℤ min_grain in
    ltb_ℤ (pos 0) min_grain && not (leb_ℤ r (pos 0) && leb_ℤ (pos 0) r)

abbrev pub plan_for :
    {F : Type 0} → String → ℤ → Option (ResourcePool F) → Result Error ReservationPlan
plan_for kind amount none =
    err (
      new_app_error invalid_resource_kind "unknown resource kind" (some (("kind", text kind) ∷ [])))
plan_for kind amount (some pool) =
    if misaligned pool.policy.min_grain amount
    then err (
        new_app_error conflict "amount not aligned to min grain" (
          some (
            ("kind", text kind)
            ∷ ("amount", number amount)
            ∷ ("min_grain", number pool.policy.min_grain)
            ∷ [])))
    else ok (record { kind = kind; pool_id = pool.id; amount = amount })

abbrev pub plan_le : ReservationPlan → ReservationPlan → Bool
plan_le a b = leb a.pool_id b.pool_id

module _ {F S : Type 0} (P : Ports F S) where
  unfoldable pub resolve_lines : CreateInput → M S (Amounts × Option Product)
  unfolding resolve_template add_lines
  resolve_lines i =
      if i.product_code =ₛ ""
      then lift (resolve_raw i.lines)
      else do p ← P.get_by_code i.product_code; lift (resolve_product i p)

  unfoldable pub plan_lines : Amounts → M S (List ReservationPlan)
  plan_lines [] = pure []
  plan_lines ((kind, amount) ∷ rest) = do
    pool ← P.get_by_kind kind
    p ← lift (plan_for kind amount pool)
    ps ← plan_lines rest
    pure (p ∷ ps)

  unfoldable pub build_reservation_plan : CreateInput → M S (List ReservationPlan × Option Product)
  unfolding resolve_lines plan_lines
  build_reservation_plan i = do
    resolved ← resolve_lines i
    plans ← plan_lines resolved.0
    pure (order_by plan_le plans, resolved.1)
