-- ===== src/Anthropic/Tests.antt =====
-- Checks of the Anthropic translation at concrete inputs.
use agnos_proxy_oss.Base.{◌≡◌, refl, String, Option, some, [], ◌∷◌, ◌++◌, string_eq, if◌then◌else◌}
use agnos_proxy_oss.Base.Json.{Json, str, int, pos, obj, Fields, end, field}
use agnos_proxy_oss.Anthropic.{Library, object, array, fields_of}
use agnos_proxy_oss.Anthropic.Request.{translate_message, translate_request, text_blocks}
use agnos_proxy_oss.Anthropic.Response.{answer_message}
use agnos_proxy_oss.Anthropic.ToolCalls.{
  Call, IsReadable, answer_blocks, assistant_message, use_blocks, translate_message-answer_message,
}

abbrev city : Fields
city = field "city" (str "Rome") end

abbrev dumped : Json → String
dumped (obj (field k v d)) = "{\"city\": \"Rome\"}"
dumped _ = "{}"

abbrev loaded : String → Option Json
loaded s = if string_eq.beq s "{}" then some (obj end) else some (obj city)

abbrev library : Library
library = record {
  dumps = dumped;
  loads = loaded;
  fresh_id = "0123456789ab";
  written = dumped;
  created = 1700000000;
}

abbrev weather : Call
weather = record { id = "toolu_1"; name = "weather"; input = city }

abbrev clock : Call
clock = record { id = "toolu_2"; name = "clock"; input = end }

weather-IsReadable : IsReadable library weather
weather-IsReadable = record { has_id = refl; has_text = refl; reads_back = refl }

clock-IsReadable : IsReadable library clock
clock-IsReadable = record { has_id = refl; has_text = refl; reads_back = refl }

translate_message-answer_message_example :
    translate_message library
      (fields_of (answer_message library (answer_blocks "I look." (weather ∷ clock ∷ []))))
    ≡ some (assistant_message (text_blocks (str "I look.") ++ use_blocks (weather ∷ clock ∷ [])))
translate_message-answer_message_example =
    translate_message-answer_message library "I look." weather (clock ∷ [])
      (weather-IsReadable, (clock-IsReadable, tt))

-- A system message becomes the system field, and a thinking request loses its temperature.
translate_request_thinking :
    translate_request library (
      fields_of (
        object (
          ("model", str "claude")
          ∷ (
            "messages",
            array (
                object (("role", str "system") ∷ ("content", str "Be brief.") ∷ [])
                ∷ object (("role", str "user") ∷ ("content", str "Hello") ∷ [])
                ∷ []),
          )
          ∷ ("temperature", int (pos 1))
          ∷ ("reasoning_effort", str "LOW")
          ∷ [])))
    ≡ object (
        ("model", str "claude")
        ∷ ("messages", array (object (("role", str "user") ∷ ("content", str "Hello") ∷ []) ∷ []))
        ∷ ("max_tokens", int (pos 1024))
        ∷ ("system", str "Be brief.")
        ∷ ("thinking", object (("type", str "enabled") ∷ ("budget_tokens", int (pos 2048)) ∷ []))
        ∷ [])
unfolding translate_request
translate_request_thinking = refl
