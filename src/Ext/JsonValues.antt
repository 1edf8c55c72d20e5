-- ===== src/Ext/JsonValues.antt =====
-- An instance of jansson: JSON as a data type.
use libnrm.Prelude.{◌≡◌, refl, ap, Bool, true, false, Option, none, some, List, [], ◌∷◌}
use libnrm.Prelude.Int.{ℤ, pos}
use libnrm.Prelude.Bytes.{Bytes}
use libnrm.Ext.Doubles.{Doubles}
use libnrm.Ext.Jansson.{Jansson, find_member}

module _ (fp : Doubles) where
  mutual
    pub data Value : Type 0 where
      null_value : Value
      int_value : ℤ → Value
      double_value : fp.Double → Value
      text_value : Bytes → Value
      bool_value : Bool → Value
      arr : Elements → Value
      obj : Members → Value

    pub data Elements : Type 0 where
      no_element : Elements
      element : Value → Elements → Elements

    pub data Members : Type 0 where
      no_member : Members
      with_member : Bytes → Value → Members → Members

  abbrev pub to_elements : List Value → Elements
  to_elements [] = no_element
  to_elements (v ∷ l) = element v (to_elements l)

  abbrev pub of_elements : Elements → List Value
  of_elements no_element = []
  of_elements (element v l) = v ∷ of_elements l

  pub of_elements-to_elements : (l : List Value) → of_elements (to_elements l) ≡ l
  of_elements-to_elements [] = refl
  of_elements-to_elements (v ∷ l) = ap (λ r. v ∷ r) (of_elements-to_elements l)

  abbrev pub to_members : List (Bytes × Value) → Members
  to_members [] = no_member
  to_members ((k, v) ∷ l) = with_member k v (to_members l)

  abbrev pub of_members : Members → List (Bytes × Value)
  of_members no_member = []
  of_members (with_member k v l) = (k, v) ∷ of_members l

  pub of_members-to_members : (l : List (Bytes × Value)) → of_members (to_members l) ≡ l
  of_members-to_members [] = refl
  of_members-to_members ((k, v) ∷ l) = ap (λ r. (k, v) ∷ r) (of_members-to_members l)

  abbrev pub items_of : Value → Option (List Value)
  items_of (arr l) = some (of_elements l)
  items_of v = none

  abbrev pub is_obj : Value → Bool
  is_obj (obj l) = true
  is_obj v = false

  abbrev pub member_of : Value → Bytes → Option Value
  member_of (obj l) k = find_member k (of_members l)
  member_of v k = none

  abbrev pub is_double : Value → Bool
  is_double (double_value d) = true
  is_double v = false

  abbrev pub int_of : Value → ℤ
  int_of (int_value n) = n
  int_of v = pos 0

  abbrev pub double_of : Value → fp.Double
  double_of (double_value d) = d
  double_of v = fp.zero

  abbrev pub text_of : Value → Option Bytes
  text_of (text_value s) = some s
  text_of v = none

  abbrev pub bool_of : Value → Option Bool
  bool_of (bool_value b) = some b
  bool_of v = none

  abbrev pub json_values : Jansson fp
  json_values = record {
    Json = Value;
    IsText = λ s. Unit;
    IsFinite = λ d. Unit;
    null = null_value;
    integer = λ n. int_value n;
    real = λ d. some (double_value d);
    string = λ s. some (text_value s);
    boolean = λ b. bool_value b;
    array = λ l. arr (to_elements l);
    object = λ l. obj (to_members l);
    items = items_of;
    is_object = is_obj;
    member = member_of;
    is_real = is_double;
    boolean_value = bool_of;
    integer_value = int_of;
    real_value = double_of;
    string_value = text_of;
    text_of_ascii = λ s h. tt;
    items-array = λ l. ap some (of_elements-to_elements l);
    is_object-object = λ l. refl;
    member-object = λ l k. ap (find_member k) (of_members-to_members l);
    integer_value-integer = λ n. refl;
    boolean_value-boolean = λ b. refl;
    real_lem = λ d h. (double_value d, refl, refl, refl);
    string_lem = λ s h. (text_value s, refl, refl);
  }
