-- ===== src/Normalize/Json.antt =====
-- JSON as `encoding/json` decodes it into `interface{}`; numbers, Booleans and null are not told apart.
use dingtalk_channel_sdk_go.Prelude.{if◌then◌else◌, Text, ◌==◌, Option, none, some, []}

mutual
  pub data Json : Type 0 where
    other_json : Json
    string_json : Text → Json
    array_json : Items → Json
    object_json : Fields → Json

  pub data Items : Type 0 where
    no_items : Items
    item : Json → Items → Items

  pub data Fields : Type 0 where
    no_fields : Fields
    field : Text → Json → Fields → Fields

-- `m[name]`; the names of a decoded object are distinct
unfoldable pub value_of : Text → Fields → Option Json
value_of name no_fields = none
value_of name (field other v m) = if other == name then some v else value_of name m

-- `s, _ := v.(string)`
unfoldable pub to_string : Json → Text
to_string (string_json s) = s
to_string _ = []

-- `m[name].(string)`, with what it is worth where it fails
unfoldable pub string_at : Text → Fields → Option Text
unfolding value_of
string_at name m = elim (value_of name m) [ some (string_json s) ↦ some s | _ ↦ none ]

unfoldable pub text_at : Text → Fields → Text
unfolding string_at
text_at name m = elim (string_at name m) [ some s ↦ s | none ↦ [] ]

-- the items of `m[name].([]interface{})`
unfoldable pub items_at : Text → Fields → Option Items
unfolding value_of
items_at name m = elim (value_of name m) [ some (array_json xs) ↦ some xs | _ ↦ none ]

-- `m[name].(map[string]interface{})`
unfoldable pub object_at : Text → Fields → Option Fields
unfolding value_of
object_at name m = elim (value_of name m) [ some (object_json o) ↦ some o | _ ↦ none ]
