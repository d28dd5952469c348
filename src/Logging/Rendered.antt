-- ===== src/Logging/Rendered.antt =====
-- What Handle (slogpretty.go) writes for an attribute.
use in_memory_base.Base.{
  ◌≡◌, refl, sym, ap, ◌∙◌, Bool, true, false, List, [], ◌∷◌, Option, none, some, if◌then◌else◌,
  arith,
}
use in_memory_base.Base.Text.{Text, text_eq, text_eq_iff}
use in_memory_base.Logging.Pretty.{
  Attr, Record, PrettyHandler, put_field, put_fields, fields_of, with_attrs, with_group,
}

-- What the map has under a key.
abbrev pub field : Text → List Attr → Option Text
field key [] = none
field key (a ∷ fields) = if text_eq a.key key then some a.value else field key fields

abbrev pub or_before : Option Text → Option Text → Option Text
or_before none earlier = earlier
or_before (some value) earlier = some value

-- The last attribute with the key.
abbrev pub last_value : Text → List Attr → Option Text
last_value key [] = none
last_value key (a ∷ attrs) =
    or_before (last_value key attrs) (if text_eq a.key key then some a.value else none)

field-put_field :
    (key : Text) (a : Attr) (fields : List Attr)
    → field key (put_field a fields)
      ≡ (if text_eq a.key key then some a.value else field key fields)
unfolding put_field
field-put_field key a [] = refl
field-put_field key a (b ∷ fields) = ground (
  arith,
  field-put_field key a fields,
  text_eq_iff b.key a.key,
  text_eq_iff b.key key,
  text_eq_iff a.key key,
)

or_before-none : (a : Option Text) → or_before a none ≡ a
or_before-none none = refl
or_before-none (some x) = refl

or_before_assoc : (a b c : Option Text) → or_before (or_before a b) c ≡ or_before a (or_before b c)
or_before_assoc none b c = refl
or_before_assoc (some x) b c = refl

if-or_before :
    (here : Bool) (value : Text) (earlier : Option Text)
    → (if here then some value else earlier) ≡ or_before (if here then some value else none) earlier
if-or_before true value earlier = refl
if-or_before false value earlier = refl

-- Attributes that come later take the place of earlier ones with the same key.
field-put_fields :
    (key : Text) (attrs fields : List Attr)
    → field key (put_fields attrs fields) ≡ or_before (last_value key attrs) (field key fields)
unfolding put_fields
field-put_fields key [] fields = refl
field-put_fields key (a ∷ attrs) fields =
    field-put_fields key attrs (put_field a fields)
    ∙ ap (or_before (last_value key attrs))
        (field-put_field key a fields ∙ if-or_before (text_eq a.key key) a.value (field key fields))
    ∙ sym (
        or_before_assoc (last_value key attrs) (if text_eq a.key key then some a.value else none)
          (field key fields))

-- Under a key Handle writes the last attribute of its handler, and if it has none the last one of
-- the record.
field-fields_of :
    (key : Text) (h : PrettyHandler) (r : Record)
    → field key (fields_of h r) ≡ or_before (last_value key h.attrs) (last_value key r.attrs)
unfolding fields_of
field-fields_of key h r =
    field-put_fields key h.attrs (put_fields r.attrs [])
    ∙ ap (or_before (last_value key h.attrs))
        (field-put_fields key r.attrs [] ∙ or_before-none (last_value key r.attrs))

-- Of a handler that was given attributes twice Handle writes, under each key, the last of the second
-- ones, or else of the record: those given first are not written, though no later one has their key.
-- Of a handler that was given attributes and then a group none of them is written.
pub field-with_attrs :
    (key : Text) (h : PrettyHandler) (r : Record) (first second : List Attr) (name : Text)
    → (field key (fields_of (with_attrs second (with_attrs first h)) r)
        ≡ or_before (last_value key second) (last_value key r.attrs))
      × (field key (fields_of (with_group name (with_attrs first h)) r) ≡ last_value key r.attrs)
unfolding with_attrs with_group
field-with_attrs key h r first second name = (
  field-fields_of key (with_attrs second (with_attrs first h)) r,
  field-fields_of key (with_group name (with_attrs first h)) r,
)
