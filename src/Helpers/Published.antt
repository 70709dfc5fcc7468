-- ===== src/Helpers/Published.antt =====
-- Attributes that are written to a service and read back (iox2_jsonrpc/iceoryx_helpers.py).
use iox2_jsonrpc.Base.{
  String, ◌≡◌, refl, sym, ap, ◌∙◌, Option, List, [], ◌∷◌, ◌++◌, or_default, append_assoc,
  append-nil,
}
use iox2_jsonrpc.Python.Outcome.{returned, ◌>>=◌}
use iox2_jsonrpc.Python.Dict.{Dict, IsDict, put-new, Apart, Apart-append, Apart-nil}
use iox2_jsonrpc.Helpers.Attributes.{
  OrCall, call_or_value, to_str, AttributeItem, collect_attributes, attribute_set_to_dict, Builder,
  add_all, make_attribute_verifier,
}

-- An attribute whose key and value have these texts.
pub record Shows (a : AttributeItem) (p : String × String) : Type 0 where
  pub key_text : (a.key >>= to_str) ≡ returned p.0
  pub value_text : (a.item_value >>= to_str) ≡ returned p.1

abbrev pub ShowsAll : List AttributeItem → Dict String → Type 0
ShowsAll [] [] = Unit
ShowsAll (a ∷ items) (p ∷ ps) = Shows a p × ShowsAll items ps
ShowsAll _ _ = ⊥

collect-ShowsAll :
    (items : List AttributeItem) (d acc : Dict String)
    → ShowsAll items d
    → IsDict d
    → Apart acc d
    → collect_attributes items acc ≡ returned (acc ++ d)
unfolding collect_attributes
collect-ShowsAll [] [] acc h i n = rw append-nil
collect-ShowsAll [] (p ∷ d) acc h i n = absurd h
collect-ShowsAll (a ∷ items) [] acc h i n = absurd h
collect-ShowsAll (a ∷ items) ((k, v) ∷ d) acc (shows, h) i n =
    rw (shows.key_text, shows.value_text, put-new k v acc n.0)
      (collect-ShowsAll items d (acc ++ (k, v) ∷ []) h i.1 (Apart-append acc d k v n.1 i.0)
        ∙ ap returned (append_assoc acc ((k, v) ∷ []) d))

-- If a service's attributes, listed by a method or a property, show the entries of a dictionary in its
-- order, then `attribute_set_to_dict` gives this dictionary.
pub attribute_set_to_dict_shown :
    (values : OrCall (List AttributeItem)) (items : List AttributeItem) (d : Dict String)
    → call_or_value values ≡ returned items
    → ShowsAll items d
    → IsDict d
    → attribute_set_to_dict (returned values) ≡ returned d
unfolding attribute_set_to_dict
attribute_set_to_dict_shown values items d e h i =
    rw e (collect-ShowsAll items d [] h i (Apart-nil d))

-- A builder whose content grows by the entry that is added, whether `add` returns a new object or
-- changes the one that it has and returns `None`.
pub record Appends {A : Type 0} (builder : Builder A) : Type 0 where
  pub entries : A → Dict String
  pub empty : entries builder.new ≡ []
  pub adds :
      (a : A) (k v : String)
      → (r : Option A × A) × (builder.add a k v ≡ returned r)
        × (entries (or_default r.0 r.1) ≡ entries a ++ (k, v) ∷ [])

module _ {A : Type 0} (builder : Builder A) (grows : Appends builder) where
  open grows use {entries, empty, adds}

  add_all-entries :
      (a : A) (d : Dict String)
      → (b : A) × (add_all builder a d ≡ returned b) × (entries b ≡ entries a ++ d)
  unfolding add_all
  add_all-entries a [] = (a, refl, sym (append-nil _))
  add_all-entries a ((k, v) ∷ d) =
      let ((u, a'), added, grown) = adds a k v in
      let (b, rest, e) = add_all-entries (or_default u a') d in
      (b, rw added rest, e ∙ ap (λ l. l ++ d) grown ∙ append_assoc (entries a) ((k, v) ∷ []) d)

  -- The attributes that are required of a service are the entries of the dictionary, each once and
  -- in its order.
  pub make_attribute_verifier-entries :
      (d : Dict String)
      → (b : A) × (make_attribute_verifier builder d ≡ returned b) × (entries b ≡ d)
  unfolding make_attribute_verifier
  make_attribute_verifier-entries d =
      let (b, made, e) = add_all-entries builder.new d in (b, made, e ∙ ap (λ l. l ++ d) empty)
