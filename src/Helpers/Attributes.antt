-- ===== src/Helpers/Attributes.antt =====
-- `to_str`, `call_or_value`, `make_attributes`, `make_attribute_verifier` and `attribute_set_to_dict`
-- of iox2_jsonrpc/iceoryx_helpers.py. The objects of iceoryx2 are given by what their attributes
-- hold.
use iox2_jsonrpc.Base.{String, Option, List, [], ◌∷◌, or_default}
use iox2_jsonrpc.Python.Outcome.{Outcome, returned, ◌>>=◌}
use iox2_jsonrpc.Python.Dict.{Dict, put}

-- A value, or a callable by what a call of it gives.
pub data OrCall (A : Type 0) : Type 0 where
  value : A → OrCall A
  callable : Outcome A → OrCall A

unfoldable pub call_or_value : {A : Type 0} → OrCall A → Outcome A
call_or_value (value a) = returned a
call_or_value (callable result) = result

-- `getattr(x, name, None)`: `None`, something that is not callable, by its `str`, or a method, by the
-- `str` of what it gives.
pub data Accessor : Type 0 where
  absent : Accessor
  plain : Outcome String → Accessor
  method : Outcome String → Accessor

-- An object as `to_str` sees it; `text` is its own `str`.
pub record Printable : Type 0 where
  pub to_string : Accessor
  pub as_str : Accessor
  pub text : Outcome String

abbrev after_to_string : Printable → Accessor → Outcome String
after_to_string p absent = p.text
after_to_string p (plain s) = s
after_to_string p (method s) = s

-- What follows the first call.
unfoldable pub text_of : Accessor → Printable → Outcome String
text_of (method s) p = s
text_of _ p = after_to_string p p.as_str

unfoldable pub to_str : OrCall Printable → Outcome String
unfolding call_or_value text_of
to_str x = call_or_value x >>= λ p. text_of p.to_string p

-- An attribute of a service, whose `key` and `value` may be missing.
pub record AttributeItem : Type 0 where
  pub key : Outcome (OrCall Printable)
  pub item_value : Outcome (OrCall Printable)

unfoldable pub collect_attributes : List AttributeItem → Dict String → Outcome (Dict String)
collect_attributes [] result = returned result
collect_attributes (a ∷ attributes) result = do
  key ← a.key >>= to_str
  text ← a.item_value >>= to_str
  collect_attributes attributes (put key text result)

-- The argument is what `getattr(attribute_set, "values")` gives.
unfoldable pub attribute_set_to_dict : Outcome (OrCall (List AttributeItem)) → Outcome (Dict String)
unfolding collect_attributes call_or_value
attribute_set_to_dict values = do
  raw_values ← values
  attributes ← call_or_value raw_values
  collect_attributes attributes []

-- An attribute specifier or verifier. `add` gives what the binding returns, which may be `None`, and
-- the object as it is then, which the call may have changed in place.
pub record Builder (A : Type 0) : Type 0 where
  pub new : A
  pub add : A → String → String → Outcome (Option A × A)

module _ {A : Type 0} (builder : Builder A) where
  unfoldable pub add_all : A → Dict String → Outcome A
  add_all spec [] = returned spec
  add_all spec ((key, text) ∷ values) =
      builder.add spec key text >>= λ (updated, spec'). add_all (or_default updated spec') values

-- `make_attributes` is this with the specifier and its `define`, `make_attribute_verifier` with the
-- verifier and its `require`.
unfoldable pub make_attributes : {A : Type 0} → Builder A → Dict String → Outcome A
unfolding add_all
make_attributes specifier values = add_all specifier specifier.new values

unfoldable pub make_attribute_verifier : {A : Type 0} → Builder A → Dict String → Outcome A
unfolding add_all
make_attribute_verifier verifier values = add_all verifier verifier.new values
