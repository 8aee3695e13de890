-- ===== src/Service/Validate.antt =====
-- internal/service/capacity.go: the checks on the input and its fingerprint.
pub mod Bounds
use cloud_resource_manager.Base.{
  ℕ, Bool, true, false, ◌&&◌, ◌||◌, not, Option, none, some, List, [], ◌∷◌, String, ◌=ₛ◌, ltb,
  str_lt, length, if◌then◌else◌,
}
use cloud_resource_manager.Base.Int.{ℤ, pos, leb_ℤ, ltb_ℤ}
use cloud_resource_manager.Base.Table.{order_by}
use cloud_resource_manager.Base.Action.{Result, ok, err}
use cloud_resource_manager.Domain.Types.{invalid_input}
use cloud_resource_manager.Domain.Errors.{Error, new_app_error, text, number}
use cloud_resource_manager.Service.Input.{
  LineInput, CreateInput, BodyFingerprint, Codecs, max_amount, max_quantity, max_lines_per_request,
}

-- `int64(len(…))` in the details of an error.
abbrev pub count_lines : List LineInput → ℤ
count_lines ls = pos (length ls)

abbrev pub contains : List String → String → Bool
contains [] k = false
contains (s ∷ seen) k = if s =ₛ k then true else contains seen k

abbrev pub amount_ok : ℤ → Bool
amount_ok a = ltb_ℤ (pos 0) a && leb_ℤ a max_amount

-- The loop over the lines; `seen` holds the kinds of the lines before.
unfoldable pub check_lines : List String → List LineInput → Result Error (Unit {0})
check_lines seen [] = ok tt
check_lines seen (l ∷ ls) =
    let rest = check_lines (l.resource_kind ∷ seen) ls in
    if l.resource_kind =ₛ ""
    then err (new_app_error invalid_input "resource_kind is required" none)
    else (if contains seen l.resource_kind
        then err (
            new_app_error invalid_input "duplicate resource_kind in lines"
              (some (("kind", text l.resource_kind) ∷ [])))
        else (if amount_ok l.amount
            then rest
            else err (
                new_app_error invalid_input "line amount out of bounds" (
                  some (
                    ("kind", text l.resource_kind)
                    ∷ ("amount", number l.amount)
                    ∷ ("max", number max_amount)
                    ∷ [])))))

abbrev pub quantity_ok : ℤ → Bool
quantity_ok q = leb_ℤ (pos 0) q && leb_ℤ q max_quantity

abbrev pub product_input : CreateInput → Result Error (Unit {0})
product_input i =
    if quantity_ok i.quantity
    then (if ltb 0 (length i.lines)
        then err (new_app_error invalid_input "provide product_id or lines, not both" none)
        else ok tt)
    else err (
        new_app_error invalid_input "quantity out of bounds"
          (some (("quantity", number i.quantity) ∷ ("max", number max_quantity) ∷ [])))

unfoldable pub validate_create_input : CreateInput → Result Error (Unit {0})
unfolding check_lines
validate_create_input i =
    if i.product_code =ₛ ""
    then (if ltb max_lines_per_request (length i.lines)
        then err (
            new_app_error invalid_input "too many resource lines"
              (some (("lines", number (count_lines i.lines)) ∷ ("max", number (pos 50)) ∷ [])))
        else check_lines [] i.lines)
    else product_input i

-- `if qty <= 0 { qty = 1 }`.
abbrev pub at_least_one : ℤ → ℤ
at_least_one q = if leb_ℤ q (pos 0) then pos 1 else q

unfoldable pub resolved_quantity : CreateInput → ℤ
resolved_quantity i = if ltb_ℤ (pos 0) i.quantity then i.quantity else pos 1

-- `lines[i]` may stand before or beside `lines[j]`: not (j < i) in the order of sort.Slice.
abbrev pub line_le : LineInput → LineInput → Bool
line_le a b =
    if a.resource_kind =ₛ b.resource_kind
    then leb_ℤ a.amount b.amount
    else str_lt a.resource_kind b.resource_kind

unfoldable pub fingerprint : CreateInput → BodyFingerprint
fingerprint i =
    if i.product_code =ₛ ""
    then record { product_code = ""; quantity = pos 0; lines = order_by (line_le) i.lines }
    else record { product_code = i.product_code; quantity = at_least_one i.quantity; lines = [] }

abbrev pub hash_text : {F : Type 0} → Codecs F → Option String → String
hash_text C none = ""
hash_text C (some b) = C.sha256_hex b

unfoldable pub compute_body_hash : {F : Type 0} → Codecs F → CreateInput → String
unfolding fingerprint
compute_body_hash C i = hash_text C (C.marshal_body (fingerprint i))
