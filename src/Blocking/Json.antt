-- ===== src/Blocking/Json.antt =====
-- The messages of the protocol as `json.loads` gives them, as far as the proxy looks at them.
use stolosio.Prelude.{ℕ, String, str_eq, Option, none, some, Bool, true, false, ◌==◌, if◌then◌else◌}

-- A whole number; `negsuc n` is -(n + 1).
pub data ℤ : Type 0 where
  pos : ℕ → ℤ
  negsuc : ℕ → ℤ

abbrev pub int_eq : ℤ → ℤ → Bool
int_eq (pos m) (pos n) = m == n
int_eq (negsuc m) (negsuc n) = m == n
int_eq _ _ = false

-- Arrays and other numbers keep nothing that is read. The fields of an object have different names.
mutual
  pub data Json : Type 0 where
    null other_number array : Json
    boolean : Bool → Json
    number : ℤ → Json
    string : String → Json
    object : Fields → Json

  pub data Fields : Type 0 where
    end : Fields
    field : String → Json → Fields → Fields

abbrev pub field_of : String → Fields → Option Json
field_of k end = none
field_of k (field j v rest) = if str_eq j k then some v else field_of k rest

-- `value.get(k)` of an object; of anything else, none.
abbrev pub get : String → Json → Option Json
get k (object fields) = field_of k fields
get k _ = none

abbrev pub is_object : Json → Bool
is_object (object _) = true
is_object _ = false

-- A value that is a text, and one that is an int: a bool is one too.
abbrev pub as_text : Option Json → Option String
as_text (some (string s)) = some s
as_text _ = none

abbrev pub as_int : Option Json → Option ℤ
as_int (some (number n)) = some n
as_int (some (boolean true)) = some (pos 1)
as_int (some (boolean false)) = some (pos 0)
as_int _ = none
