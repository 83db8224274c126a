-- ===== src/Assistant/Llm/Completion.antt =====
-- llm.py: the text and the metadata of a response, and whether its output budget ran out.
use alertmind.Prelude.{ℤ, pos, Bool, false, not, ◌&&◌, Option, none, some, if◌then◌else◌}
use alertmind.Text.{Text, text, text_eq}
use alertmind.Json.{Json, null, bool, int, str, arr, obj, cons, Fields, end, field, is_null, truthy}
use alertmind.Json.Dict.{lookup, get}
use alertmind.Json.Parsed.{Parsed, loads_plain}
use alertmind.Assistant.Llm.Error.{
  not_json, malformed, bad_shape, no_content, Outcome, done, failed, ◌>>=◌,
}
use alertmind.Assistant.Llm.Settings.{int_lt}

abbrev from_json : Option Json → Outcome Json
from_json none = failed not_json
from_json (some v) = done v

-- `response.json()`
unfoldable pub json_of : Parsed → Outcome Json
json_of body = from_json (loads_plain body)

-- `(v or {})`, on which `.get` is called
unfoldable pub dict_or_empty : Json → Outcome Fields
dict_or_empty (obj fs) = done fs
dict_or_empty v = if truthy v then failed malformed else done end

-- `(v or [{}])[0]`
unfoldable pub first_choice : Json → Outcome Json
first_choice (arr (cons choice _)) = done choice
first_choice v = if truthy v then failed malformed else done (obj end)

-- `{k: v for k, v in meta.items() if v is not None}`
unfoldable pub drop_nulls : Fields → Fields
drop_nulls end = end
drop_nulls (field k v fs) = let rest = drop_nulls fs in if is_null v then rest else field k v rest

unfoldable pub usage_of : Fields → Fields → Json
usage_of usage details = obj (
    field (text "prompt_tokens") (get (text "prompt_tokens") usage) (
      field (text "completion_tokens") (get (text "completion_tokens") usage) (
        field (text "total_tokens") (get (text "total_tokens") usage)
          (field (text "reasoning_tokens") (get (text "reasoning_tokens") details) end))))

unfoldable pub dict_meta : Fields → Outcome Fields
dict_meta body = do
  usage ← dict_or_empty (get (text "usage") body)
  details ← dict_or_empty (get (text "completion_tokens_details") usage)
  first ← first_choice (get (text "choices") body)
  choice ← dict_or_empty first
  done (
      drop_nulls (
        field (text "response_id") (get (text "id") body) (
          field (text "model_actual") (get (text "model") body) (
            field (text "system_fingerprint") (get (text "system_fingerprint") body) (
              field (text "finish_reason") (get (text "finish_reason") choice)
                (field (text "usage") (usage_of usage details) end))))))

abbrev pub decoded_meta : Option Json → Outcome Fields
decoded_meta (some (obj fs)) = dict_meta fs
decoded_meta _ = done end

-- `_completion_meta`
unfoldable pub completion_meta : Parsed → Outcome Fields
completion_meta body = decoded_meta (loads_plain body)

-- `v[k]` of a dict, `v[0]` of a list: a KeyError, an IndexError or a TypeError otherwise
unfoldable pub item_at : Text → Json → Option Json
item_at k v = elim v [ obj fs ↦ lookup k fs | _ ↦ none ]

unfoldable pub first_item : Json → Option Json
first_item v = elim v [ arr (cons w _) ↦ some w | _ ↦ none ]

abbrev pub and_then : Option Json → (Json → Option Json) → Option Json
and_then none f = none
and_then (some v) f = f v

abbrev pub non_empty : Json → Option Json → Outcome Json
non_empty choice none = failed bad_shape
non_empty choice (some content) =
    if truthy content
    then done content
    else failed (no_content (elim choice [ obj fs ↦ get (text "finish_reason") fs | _ ↦ null ]))

abbrev pub content_of : Option Json → Outcome Json
content_of none = failed bad_shape
content_of (some choice) =
    non_empty choice (and_then (item_at (text "message") choice) (item_at (text "content")))

-- `_completion_text`, which returns any content that is not empty
unfoldable pub completion_text : Parsed → Outcome Json
completion_text body = do
  value ← json_of body
  content_of (and_then (item_at (text "choices") value) first_item)

-- `_anthropic_meta`
unfoldable pub anthropic_meta : Json → Outcome Fields
anthropic_meta body = elim body [
  | obj fs ↦ dict_or_empty (get (text "usage") fs) >>= λ usage. done (
      drop_nulls (
        field (text "response_id") (get (text "id") fs) (
          field (text "model_actual") (get (text "model") fs) (
            field (text "finish_reason") (get (text "stop_reason") fs) (
              field (text "usage")
                (obj (
                  field (text "prompt_tokens") (get (text "input_tokens") usage)
                    (field (text "completion_tokens") (get (text "output_tokens") usage) end)))
                end)))))
  | _ ↦ failed malformed
]

-- `body["content"][0]["text"]`
unfoldable pub anthropic_text : Json → Option Json
anthropic_text body =
    and_then (and_then (item_at (text "content") body) first_item) (item_at (text "text"))

-- An `int` for `isinstance`: a `bool` is one, too.
unfoldable pub int_value : Json → Option ℤ
int_value v = elim v [ int n ↦ some n | bool b ↦ some (pos (if b then 1 else 0)) | _ ↦ none ]

abbrev pub reaches : Option ℤ → Option ℤ → Bool
reaches (some completion) (some budget) = not (int_lt completion budget)
reaches _ _ = false

-- `budget_exhausted`
unfoldable pub budget_exhausted : Fields → Outcome Bool
budget_exhausted meta = do
  usage ← dict_or_empty (get (text "usage") meta)
  config ← dict_or_empty (get (text "request_config") meta)
  done (
      (elim (get (text "finish_reason") meta) [ str s ↦ text_eq s (text "length") | _ ↦ false ])
      && reaches (int_value (get (text "completion_tokens") usage))
          (int_value (get (text "token_budget") config)))
