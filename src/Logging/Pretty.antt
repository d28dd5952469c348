-- ===== src/Logging/Pretty.antt =====
-- slogpretty.go. A value of an attribute is a text. The colours, which a terminal shows, the JSON encoder
-- and the format of a time stand in the parameter Console.
use in_memory_base.Base.{ℕ, Bool, List, [], ◌∷◌, ◌++◌, if◌then◌else◌}
use in_memory_base.Base.Int.{ℤ, pos, negsuc, eq_ℤ, leb_ℤ}
use in_memory_base.Base.Text.{Text, runes, text_eq}
use in_memory_base.Base.Errors.{Result, ok, err, ◌>>=◌, formatted}

-- slog.Attr
pub record Attr : Type 0 where
  pub key : Text
  pub value : Text

-- slog.Record. A level is slog's integer.
pub record Record : Type 0 where
  pub time : ℕ
  pub level : ℤ
  pub message : Text
  pub attrs : List Attr

-- slog.LevelDebug, LevelInfo, LevelWarn and LevelError
abbrev pub level_debug : ℤ
level_debug = negsuc 3

abbrev pub level_info : ℤ
level_info = pos 0

abbrev pub level_warn : ℤ
level_warn = pos 4

abbrev pub level_error : ℤ
level_error = pos 8

pub data Colour : Type 0 where
  magenta blue yellow red cyan white : Colour

-- `json.MarshalIndent` of the map, which may fail, and what a terminal gets for a text in a colour.
pub record Console : Type 0 where
  pub paint : Colour → Text → Text
  pub marshal_indent : List Attr → Result Text
  pub format_time : ℕ → Text

-- PrettyHandler: its JSON handler is known by the least level that it lets through and its groups.
pub record PrettyHandler : Type 0 where
  pub least : ℤ
  pub groups : List Text
  pub attrs : List Attr

-- NewPrettyHandler
unfoldable pub new_pretty_handler : ℤ → PrettyHandler
new_pretty_handler least = record { least = least; groups = []; attrs = [] }

-- `fields[a.Key] = a.Value.Any()`, where the map has each key once.
unfoldable pub put_field : Attr → List Attr → List Attr
put_field a [] = a ∷ []
put_field a (b ∷ fields) =
    let rest = put_field a fields in if text_eq b.key a.key then a ∷ fields else b ∷ rest

unfoldable pub put_fields : List Attr → List Attr → List Attr
put_fields [] fields = fields
put_fields (a ∷ attrs) fields = put_fields attrs (put_field a fields)

-- The colour of a level; a level between those of slog has none.
unfoldable pub paint_level : Console → ℤ → Text → Text
paint_level console level text =
    if eq_ℤ level level_debug
    then console.paint magenta text
    else if eq_ℤ level level_info
    then console.paint blue text
    else if eq_ℤ level level_warn
    then console.paint yellow text
    else if eq_ℤ level level_error
    then console.paint red text
    else text

-- The JSON of the fields, or nothing.
unfoldable pub marshal : Console → List Attr → Result Text
marshal console [] = ok []
marshal console (a ∷ fields) = marshal_or_fail (console.marshal_indent (a ∷ fields))
  where
    marshal_or_fail : Result Text → Result Text
    marshal_or_fail (ok b) = ok b
    marshal_or_fail (err e) = err formatted

-- The map that Handle fills: the attributes of the record, and over them those of the handler.
unfoldable pub fields_of : PrettyHandler → Record → List Attr
unfolding put_fields
fields_of h r = put_fields h.attrs (put_fields r.attrs [])

-- PrettyHandler.Handle: the line that Println writes, with a space between its parts. `level_text` is
-- slog.Level.String.
unfoldable pub handle : Console → (ℤ → Text) → PrettyHandler → Record → Result Text
unfolding marshal fields_of paint_level
handle console level_text h r = marshal console (fields_of h r) >>= λ b. ok (
    console.format_time r.time
    ++ (runes " "
        ++ (paint_level console r.level (level_text r.level ++ runes ":")
            ++ (runes " "
                ++ (console.paint cyan r.message
                    ++ (runes " " ++ (console.paint white b ++ runes "\n")))))))

-- PrettyHandler.WithAttrs
unfoldable pub with_attrs : List Attr → PrettyHandler → PrettyHandler
with_attrs attrs h = record { least = h.least; groups = h.groups; attrs = attrs }

-- PrettyHandler.WithGroup
unfoldable pub with_group : Text → PrettyHandler → PrettyHandler
with_group name h = record { least = h.least; groups = h.groups ++ (name ∷ []); attrs = [] }

-- Enabled, which is that of the JSON handler.
unfoldable pub enabled : PrettyHandler → ℤ → Bool
enabled h level = leb_ℤ h.least level
