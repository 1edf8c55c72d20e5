-- ===== src/Control/CreatedTests.antt =====
-- A configuration in the form of examples/controlling-stream/static.json, with whole numbers.
use libnrm.Prelude.{◌≡◌, refl, false, some, [], ◌∷◌}
use mathlib.Core.List.{Forall₂}
use libnrm.Prelude.Int.{pos}
use libnrm.Prelude.Bytes.{ascii, bytes_eq}
use libnrm.Error.{success}
use libnrm.Ext.Models.{list_array}
use libnrm.Ext.Integers.{integers}
use libnrm.Ext.Arithmetic.{whole_arithmetic}
use libnrm.Ext.Jansson.{find_member}
use libnrm.Ext.JsonValues.{
  json_values, Value, text_value, bool_value, double_value, arr, obj, element, no_element,
  with_member, no_member,
}
use libnrm.Control.Tests.{at}
use libnrm.Control.Creation.{create}
use libnrm.Control.Created.{Configuration, IsConfiguration, IsArgsOf, loop_of, create_lem}

abbrev numbers : Value integers
numbers = obj (
    with_member (ascii "a") (double_value (pos 1)) (
      with_member (ascii "b") (double_value (pos 2)) (
        with_member (ascii "alpha") (double_value (pos 3)) (
          with_member (ascii "beta") (double_value (pos 4)) (
            with_member (ascii "Kl") (double_value (pos 5)) (
              with_member (ascii "t") (double_value (pos 6)) (
                with_member (ascii "e") (double_value (pos 7)) (
                  with_member (ascii "tobj") (double_value (pos 10)) (
                    with_member (ascii "min") (double_value (pos 219))
                      (with_member (ascii "max") (double_value (pos 350)) no_member))))))))))

abbrev input : Value integers
input = obj (
    with_member (ascii "sensor") (text_value (ascii "progress"))
      (with_member (ascii "scope") (text_value (ascii "Machine")) no_member))

abbrev output : Value integers
output = text_value (ascii "power")

abbrev config : Value integers
config = obj (
    with_member (ascii "name") (text_value (ascii "europar21")) (
      with_member (ascii "active") (bool_value false) (
        with_member (ascii "inputs") (arr (element input no_element)) (
          with_member (ascii "outputs") (arr (element output no_element))
            (with_member (ascii "args") numbers no_member)))))

abbrev said : Configuration list_array integers whole_arithmetic (json_values integers)
said = record {
  active = false;
  inputs = (ascii "progress", ascii "Machine") ∷ [];
  outputs = ascii "power" ∷ [];
  a = pos 1;
  b = pos 2;
  alpha = pos 3;
  beta = pos 4;
  kl = pos 5;
  t = pos 6;
  e = pos 7;
  tobj = pos 10;
  min = pos 219;
  max = pos 350;
}

numbers-IsArgsOf : IsArgsOf list_array integers whole_arithmetic (json_values integers) said numbers
unfolding find_member bytes_eq
numbers-IsArgsOf = record {
  a = (_, refl, (refl, refl));
  b = (_, refl, (refl, refl));
  alpha = (_, refl, (refl, refl));
  beta = (_, refl, (refl, refl));
  kl = (_, refl, (refl, refl));
  t = (_, refl, (refl, refl));
  e = (_, refl, (refl, refl));
  tobj = (_, refl, (refl, refl));
  min = (_, refl, (refl, refl));
  max = (_, refl, (refl, refl));
}

config-IsConfiguration :
    IsConfiguration list_array integers whole_arithmetic (json_values integers) said config
unfolding find_member bytes_eq
config-IsConfiguration = record {
  name = (_, refl, refl);
  active = (_, refl, refl);
  inputs =
      (_, refl, (input ∷ [], refl, Forall₂.cons ((_, refl, refl), (_, refl, refl)) Forall₂.nil));
  outputs = (_, refl, (output ∷ [], refl, Forall₂.cons refl Forall₂.nil));
  args = (numbers, refl, numbers-IsArgsOf);
}

create_lem_example :
    create list_array integers whole_arithmetic (json_values integers) (at (pos 9)) config
    ≡ some (
      success,
      some (loop_of list_array integers whole_arithmetic (json_values integers) (at (pos 9)) said),
    )
create_lem_example =
    create_lem list_array integers whole_arithmetic (json_values integers) (at (pos 9)) said config
      config-IsConfiguration
