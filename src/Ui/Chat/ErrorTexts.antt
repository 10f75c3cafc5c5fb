-- ===== src/Ui/Chat/ErrorTexts.antt =====
-- `extractErrorMessage` of frontend/astiango-hub-ui/src/components/core/ai/useAssistantConsole.ts.
use astiango_hub.Common.{String, Bool, false, Option, none, some, codes, Text, if◌then◌else◌}
use astiango_hub.Common.Options.{◌>>=◌}
use astiango_hub.Mcp.Json.{Json, undefined, null, str, arr, obj, truthy, read_field}
use astiango_hub.Ui.Menu.{starts_with}

-- What the language does with the text of a value: `JSON.parse`, `none` where it throws,
-- `JSON.stringify` without and with an indent of two, and `String`.
pub record JsonTexts : Type 0 where
  pub parse : Text → Option Json
  pub stringify : Json → Text
  pub stringify_indented : Json → Text
  pub to_string : Json → Text

-- `v?.k`
abbrev read_optional : String → Json → Option Json
read_optional k undefined = some undefined
read_optional k null = some undefined
read_optional k v = read_field k v

-- `v?.startsWith(prefix)`, which throws for a value that is no text.
abbrev begins_with : Text → Json → Option Bool
begins_with prefix undefined = some false
begins_with prefix null = some false
begins_with prefix (str s) = some (starts_with (codes s) prefix)
begins_with prefix v = none

module _ (j : JsonTexts) where
  -- `typeof e === 'string' ? e : JSON.stringify(e)`
  abbrev text_or_json : Json → Text
  text_or_json (str s) = codes s
  text_or_json v = j.stringify v

  abbrev object_text : Text → Json → Text
  object_text error_data null = j.stringify_indented null
  object_text error_data (arr xs) = j.stringify_indented (arr xs)
  object_text error_data (obj fs) = j.stringify_indented (obj fs)
  object_text error_data v = error_data

  -- The `try`; `none` where it throws.
  unfoldable pub parsed_message : Text → Json → Option Text
  unfolding read_field truthy starts_with
  parsed_message error_data parsed = do
    detail ← read_field "error_detail" parsed
    message ← read_optional "message" detail
    failure ← read_field "error" parsed
    content ← read_field "text" parsed
    let prefixed = begins_with (codes "Error:") content
    if truthy message
        then some (j.to_string message)
        else if truthy failure
        then some (text_or_json failure)
        else prefixed >>= λ is_error.
            some (if is_error then j.to_string content else object_text error_data parsed)

  unfoldable pub extract_error_message : Text → Text
  unfolding parsed_message
  extract_error_message error_data = elim (j.parse error_data >>= parsed_message error_data) [
    | none ↦ error_data
    | some message ↦ message
  ]
