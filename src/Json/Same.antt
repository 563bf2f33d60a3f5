-- ===== src/Json/Same.antt =====
-- When two values have one `json.dumps(…, sort_keys=True)`: they are alike up to the order of keys.
-- Unlike under `==`, `true`, `1` and `1.0` differ.
use home_ai_agent.Base.{Bool, true, false, ◌&&◌, none, some, ◌==◌, string_eq, nat_eq, not}
use home_ai_agent.Json.Number.{int_eq}
use home_ai_agent.Json.{
  Value, null, bool, int, float, str, arr, obj, Items, nil, cons, Fields, end, field, lookup,
  field_count,
}

abbrev same_flag : Bool → Bool → Bool
same_flag true b = b
same_flag false b = not b

unfoldable mutual
  unfolding string_eq nat_eq int_eq

  pub same : Value → Value → Bool
  same null w = elim w [ null ↦ true | _ ↦ false ]
  same (bool b) w = elim w [ bool c ↦ same_flag b c | _ ↦ false ]
  same (int z) w = elim w [ int y ↦ z == y | _ ↦ false ]
  same (float z) w = elim w [ float y ↦ z == y | _ ↦ false ]
  same (str s) w = elim w [ str t ↦ s == t | _ ↦ false ]
  same (arr vs) w = elim w [ arr ws ↦ same_items vs ws | _ ↦ false ]
  same (obj fs) w = elim w [
    | obj gs ↦ field_count fs == field_count gs && same_fields fs gs
    | _ ↦ false
  ]

  pub same_items : Items → Items → Bool
  same_items nil ws = elim ws [ nil ↦ true | cons _ _ ↦ false ]
  same_items (cons v vs) ws = elim ws [ nil ↦ false | cons w rest ↦ same v w && same_items vs rest ]

  -- every key of the first object is in the second, with the same value
  pub same_fields : Fields → Fields → Bool
  same_fields end gs = true
  same_fields (field k v fs) gs =
      elim (lookup k gs) [ none ↦ false | some w ↦ same v w ] && same_fields fs gs
