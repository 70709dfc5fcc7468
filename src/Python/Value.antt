-- ===== src/Python/Value.antt =====
-- The values that pass through the JSON-RPC layer as `Any`.
use iox2_jsonrpc.Base.{ℕ, String, Bool, List, [], ◌∷◌, true, false}
use iox2_jsonrpc.Python.Int.{ℤ}

-- `object` stands for every other object, floats among them, by an identity.
mutual
  pub data Value : Type 0 where
    null : Value
    bool : Bool → Value
    int : ℤ → Value
    str : String → Value
    list : Items → Value
    dict : Fields → Value
    object : ℕ → Value

  pub data Items : Type 0 where
    nil : Items
    cons : Value → Items → Items

  pub data Fields : Type 0 where
    end : Fields
    field : String → Value → Fields → Fields

-- `v is not None`
abbrev pub is_not_none : Value → Bool
is_not_none null = false
is_not_none _ = true

-- A list and a dictionary of this module's library types as a value.
abbrev pub list_of : List Value → Value
list_of xs = list (items xs)
  where
    items : List Value → Items
    items [] = nil
    items (x ∷ xs) = cons x (items xs)

abbrev pub dict_of : List (String × Value) → Value
dict_of d = dict (fields d)
  where
    fields : List (String × Value) → Fields
    fields [] = end
    fields ((k, v) ∷ d) = field k v (fields d)

-- The alias `JsonValue` of iceoryx_protocols.py: no other object, at any depth.
abbrev mutual
  pub IsJson : Value → Type 0
  IsJson null = Unit
  IsJson (bool b) = Unit
  IsJson (int n) = Unit
  IsJson (str s) = Unit
  IsJson (list xs) = IsJsonItems xs
  IsJson (dict fs) = IsJsonFields fs
  IsJson (object n) = ⊥

  pub IsJsonItems : Items → Type 0
  IsJsonItems nil = Unit
  IsJsonItems (cons x xs) = IsJson x × IsJsonItems xs

  pub IsJsonFields : Fields → Type 0
  IsJsonFields end = Unit
  IsJsonFields (field k v fs) = IsJson v × IsJsonFields fs
