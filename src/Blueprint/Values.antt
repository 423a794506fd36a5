-- ===== src/Blueprint/Values.antt =====
-- The values of internal/blueprint/blueprint.go that stand for JSON: `any` and `Resource`.
use tearenv.Common.{
  ℤ, Bool, Text, [], text_eq, text_eq_iff, text_eq_self, Option, none, some, if◌then◌else◌, ◌≡◌,
  refl, arith,
}

-- `any` as JSON decodes it. A `number` is one that `number` of the source reads, and a
-- `fraction` any other, by its text.
mutual
  pub data Value : Type 0 where
    string : Text → Value
    number : ℤ → Value
    object : Fields → Value
    array : Items → Value
    boolean : Bool → Value
    fraction : Text → Value
    null : Value

  pub data Fields : Type 0 where
    end : Fields
    field : Text → Value → Fields → Fields

  pub data Items : Type 0 where
    nil : Items
    cons : Value → Items → Items

-- `map[string]any` that is indexed.
unfoldable pub get : Text → Fields → Option Value
get k end = none
get k (field j v fs) = if text_eq j k then some v else get k fs

unfoldable pub put : Text → Value → Fields → Fields
put k v end = field k v end
put k v (field j w fs) = if text_eq j k then field k v fs else field j w (put k v fs)

-- The type assertions `.(string)`, `.(map[string]any)` and `.([]any)`: the zero value where the
-- assertion fails. A nil map is read as the empty one.
abbrev pub as_text : Option Value → Text
as_text (some (string t)) = t
as_text _ = []

abbrev pub as_object : Option Value → Fields
as_object (some (object fs)) = fs
as_object _ = end

abbrev pub as_array : Option Value → Items
as_array (some (array vs)) = vs
as_array _ = nil

-- `number`.
abbrev pub as_number : Option Value → Option ℤ
as_number (some (number n)) = some n
as_number _ = none

pub get-put :
    (j k : Text) (v : Value) (fs : Fields)
    → get j (put k v fs) ≡ (if text_eq k j then some v else get j fs)
unfolding get put
get-put j k v end = refl
get-put j k v (field i w fs) =
    ground
      (arith, text_eq_iff k j, text_eq_iff i k, text_eq_iff i j, text_eq_self k, get-put j k v fs)
