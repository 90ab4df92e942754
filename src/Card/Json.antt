-- ===== src/Card/Json.antt =====
-- JSON values, and `sortKeys` and `deepEqual` of src/card/delegation.ts. `JSON.stringify` is a
-- parameter.
use kya_os_mcp.Common.{Bool, Option, none, some, ◌==◌, nat_eq, list_eq, if◌then◌else◌}
use kya_os_mcp.Text.{Text, is_before}

-- A number is the text that it is written as.
mutual
  pub data Json : Type 0 where
    null : Json
    bool : Bool → Json
    number : Text → Json
    text : Text → Json
    array : Items → Json
    object : Fields → Json

  pub data Items : Type 0 where
    end : Items
    item : Json → Items → Items

  -- An object's members, each key once.
  pub data Fields : Type 0 where
    done : Fields
    field : Text → Json → Fields → Fields

unfoldable pub insert_field : Text → Json → Fields → Fields
unfolding is_before
insert_field k v done = field k v done
insert_field k v (field j w rest) =
    let later = insert_field k v rest in
    if is_before k j then field k v (field j w rest) else field j w later

unfoldable mutual
  unfolding insert_field

  pub sort_keys : Json → Json
  sort_keys null = null
  sort_keys (bool b) = bool b
  sort_keys (number t) = number t
  sort_keys (text t) = text t
  sort_keys (array items) = array (sort_items items)
  sort_keys (object fields) = object (sort_fields fields)

  pub sort_items : Items → Items
  sort_items end = end
  sort_items (item v items) = item (sort_keys v) (sort_items items)

  pub sort_fields : Fields → Fields
  sort_fields done = done
  sort_fields (field k v rest) = insert_field k (sort_keys v) (sort_fields rest)

-- `value[key]`
unfoldable pub member : Text → Fields → Option Json
member key done = none
member key (field k v rest) = if k == key then some v else member key rest

-- `deepEqual`
unfoldable pub deep_equal : (Json → Text) → Json → Json → Bool
unfolding sort_keys
deep_equal stringify a b = stringify (sort_keys a) == stringify (sort_keys b)
