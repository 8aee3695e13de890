-- ===== src/Service/Validate/Bounds.antt =====
-- internal/service/capacity.go: what validateCreateInput lets through.
use cloud_resource_manager.Base.{
  ℕ, Bool, true, false, ◌≡◌, ◌≤◌, refl, List, [], ◌∷◌, String, ◌=ₛ◌, ltb, length, if◌then◌else◌,
  arith,
}
use cloud_resource_manager.Base.Int.{ℤ, pos, ◌≤ℤ◌}
use cloud_resource_manager.Base.Action.{Result, ok, err}
use cloud_resource_manager.Domain.Errors.{Error}
use cloud_resource_manager.Service.Input.{LineInput, CreateInput, max_amount, max_lines_per_request}
use cloud_resource_manager.Service.Validate.{
  amount_ok, contains, check_lines, quantity_ok, validate_create_input,
}

-- The lines that pass: each kind is given, and not among the earlier ones, and each amount is
-- between 1 and the maximum.
abbrev pub Accepted : List String → List LineInput → Type 0
Accepted seen [] = Unit
Accepted seen (l ∷ ls) =
    ((l.resource_kind =ₛ "") ≡ false)
    × (contains seen l.resource_kind ≡ false)
    × (pos 1 ≤ℤ l.amount)
    × (l.amount ≤ℤ max_amount)
    × Accepted (l.resource_kind ∷ seen) ls

amount_ok-bounds : (a : ℤ) → amount_ok a ≡ true → (pos 1 ≤ℤ a) × (a ≤ℤ max_amount)
amount_ok-bounds a h = ground arith

ok_or :
    {A : Type 0} {x : Result Error A} (e : Error) (b : Bool) {a : A}
    → (if b then x else err e) ≡ ok a
    → (b ≡ true) × (x ≡ ok a)
ok_or e true h = (refl, h)
ok_or e false h = cc

ok_unless :
    {A : Type 0} {x : Result Error A} (e : Error) (b : Bool) {a : A}
    → (if b then err e else x) ≡ ok a
    → (b ≡ false) × (x ≡ ok a)
ok_unless e true h = cc
ok_unless e false h = (refl, h)

pub check_lines-Accepted :
    (seen : List String) (ls : List LineInput) → check_lines seen ls ≡ ok tt → Accepted seen ls
unfolding check_lines
check_lines-Accepted seen [] h = tt
check_lines-Accepted seen (l ∷ ls) h =
    let (given, h1) = ok_unless _ (l.resource_kind =ₛ "") h in
    let (fresh, h2) = ok_unless _ (contains seen l.resource_kind) h1 in
    let (bounded, h3) = ok_or _ (amount_ok l.amount) h2 in
    let (low, high) = amount_ok-bounds l.amount bounded in
    (given, fresh, low, high, check_lines-Accepted (l.resource_kind ∷ seen) ls h3)

few : (n : ℕ) → ltb max_lines_per_request n ≡ false → n ≤ 50
few n h = ground arith

no_lines : (ls : List LineInput) → ltb 0 (length ls) ≡ false → ls ≡ []
no_lines [] h = refl
no_lines (l ∷ ls) h = ground arith

-- A request of lines that passes validateCreateInput has at most 50 lines, each of a kind that is
-- given and that no earlier line has, with an amount from 1 to the maximum.
pub validate_create_input-raw :
    (i : CreateInput)
    → (i.product_code =ₛ "") ≡ true
    → validate_create_input i ≡ ok tt
    → (length i.lines ≤ 50) × Accepted [] i.lines
unfolding validate_create_input
validate_create_input-raw i raw h =
    let (short, h1) = ok_unless _ (ltb max_lines_per_request (length i.lines)) (rw raw at h) in
    (few (length i.lines) short, check_lines-Accepted [] i.lines h1)

-- A request of a product that passes has no lines, and a quantity from 0 to 1000.
pub validate_create_input-product :
    (i : CreateInput)
    → (i.product_code =ₛ "") ≡ false
    → validate_create_input i ≡ ok tt
    → (i.lines ≡ []) × (pos 0 ≤ℤ i.quantity) × (i.quantity ≤ℤ pos 1000)
unfolding validate_create_input
validate_create_input-product i given h =
    let (q, h1) = ok_or _ (quantity_ok i.quantity) (rw given at h) in
    let (none_given, _) = ok_unless _ (ltb 0 (length i.lines)) h1 in
    let (low, high) = bounds i.quantity q in (no_lines i.lines none_given, low, high)
  where
    bounds : (z : ℤ) → quantity_ok z ≡ true → (pos 0 ≤ℤ z) × (z ≤ℤ pos 1000)
    bounds z e = ground arith
