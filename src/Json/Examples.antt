-- ===== src/Json/Examples.antt =====
-- JSON values as functions of their keys, for examples.
use Prim.Native.String.{String}
use text.Mathlib.Text.{◌==◌}
use g_core_rest_sba.Base.{
  ℕ, refl, Bool, true, false, Option, none, some, List, [], Bytes, if◌then◌else◌,
}
use g_core_rest_sba.Json.{Json}

pub record Object : Type 0 where
  pub numbers : String → ℕ
  pub texts : String → Bytes
  pub arrays : String → List ℕ
  pub flags : String → Bool
  pub members : String → Bool

abbrev pub no_members : Object
no_members = record {
  numbers = λ k. 0;
  texts = λ k. [];
  arrays = λ k. [];
  flags = λ k. false;
  members = λ k. false;
}

-- The empty text, the text of a value.
abbrev pub is_none : Option Object → Bool
is_none none = true
is_none (some v) = false

abbrev pub objects : Json
objects = record {
  Value = Object;
  null = no_members;
  set_num = λ v k x. record v {
    numbers = λ j. if k == j then x else v.numbers j;
    members = λ j. if k == j then true else v.members j;
  };
  set_text = λ v k x. record v {
    texts = λ j. if k == j then x else v.texts j;
    members = λ j. if k == j then true else v.members j;
  };
  set_nums = λ v k x. record v {
    arrays = λ j. if k == j then x else v.arrays j;
    members = λ j. if k == j then true else v.members j;
  };
  set_bool = λ v k x. record v {
    flags = λ j. if k == j then x else v.flags j;
    members = λ j. if k == j then true else v.members j;
  };
  has = λ v k. v.members k;
  num = λ v k. v.numbers k;
  text = λ v k. v.texts k;
  nums = λ v k. v.arrays k;
  bool = λ v k. v.flags k;
  Text = Option Object;
  no_text = none;
  braces = some no_members;
  is_empty = is_none;
  write = λ v. some v;
  parse = λ t. t;
  num_null = λ k. refl;
  num_set_num = λ v k x j. refl;
  num_set_text = λ v k s j h. refl;
  num_set_nums = λ v k xs j h. refl;
  text_set_text = λ v k s j. refl;
  text_set_num = λ v k x j h. refl;
  nums_set_nums = λ v k xs j. refl;
  nums_set_num = λ v k x j h. refl;
  bool_null = λ k. refl;
  bool_set_bool = λ v k b j. refl;
  num_set_bool = λ v k b j h. refl;
  text_set_bool = λ v k b j h. refl;
  text_set_nums = λ v k xs j h. refl;
  nums_set_bool = λ v k b j h. refl;
  nums_set_text = λ v k s j h. refl;
  has_null = λ k. refl;
  has_set_num = λ v k x j. refl;
  has_set_text = λ v k s j. refl;
  has_set_nums = λ v k xs j. refl;
  has_set_bool = λ v k b j. refl;
  parse_write = λ v. refl;
  write_some = λ v. refl;
}
