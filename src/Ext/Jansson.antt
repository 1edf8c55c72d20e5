-- ===== src/Ext/Jansson.antt =====
-- jansson, as the code uses it: JSON values, how they are made and how they are read. `none` is NULL
-- where a function makes a value. Memory does not run out.
use libnrm.Prelude.{◌<◌, ◌≡◌, Bool, true, Option, none, some, List, [], ◌∷◌, if◌then◌else◌}
use libnrm.Prelude.Int.{ℤ}
use libnrm.Prelude.Bytes.{Bytes, bytes_eq}
use libnrm.Ext.Doubles.{Doubles}

-- The value of a key in an object's members, whose keys differ.
unfoldable pub find_member : {J : Type 0} → Bytes → List (Bytes × J) → Option J
find_member k [] = none
find_member k ((j, v) ∷ l) = if bytes_eq j k then some v else find_member k l

-- ASCII characters, none of them null.
abbrev pub IsAscii : Bytes → Type 0
IsAscii [] = Unit {0}
IsAscii (c ∷ s) = (0 < c) × (c < 128) × IsAscii s

pub record Jansson (fp : Doubles) : Type 1 where
  pub Json : Type 0
  -- valid UTF-8, and neither infinite nor NaN
  pub IsText : Bytes → Type 0
  pub IsFinite : fp.Double → Type 0
  pub null : Json
  -- json_integer
  pub integer : ℤ → Json
  -- json_real and json_string
  pub real : fp.Double → Option Json
  pub string : Bytes → Option Json
  pub boolean : Bool → Json
  -- json_array with json_array_append_new, and json_pack of an object
  pub array : List Json → Json
  pub object : List (Bytes × Json) → Json
  -- json_is_array, json_array_size and json_array_get
  pub items : Json → Option (List Json)
  pub is_object : Json → Bool
  -- json_object_get
  pub member : Json → Bytes → Option Json
  pub is_real : Json → Bool
  -- json_is_boolean and json_boolean_value
  pub boolean_value : Json → Option Bool
  pub integer_value : Json → ℤ
  pub real_value : Json → fp.Double
  pub string_value : Json → Option Bytes
  pub text_of_ascii : (s : Bytes) → IsAscii s → IsText s
  pub items-array : (l : List Json) → items (array l) ≡ some l
  pub is_object-object : (l : List (Bytes × Json)) → is_object (object l) ≡ true
  pub member-object : (l : List (Bytes × Json)) (k : Bytes) → member (object l) k ≡ find_member k l
  pub integer_value-integer : (n : ℤ) → integer_value (integer n) ≡ n
  pub boolean_value-boolean : (b : Bool) → boolean_value (boolean b) ≡ some b
  pub real_lem :
      (d : fp.Double)
      → IsFinite d
      → (j : Json) × (real d ≡ some j) × (real_value j ≡ d) × (is_real j ≡ true)
  pub string_lem :
      (s : Bytes) → IsText s → (j : Json) × (string s ≡ some j) × (string_value j ≡ some s)
