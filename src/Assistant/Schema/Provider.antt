-- ===== src/Assistant/Schema/Provider.antt =====
-- schema.py: the formal schema, and the copy of it that is sent to Ollama.
use alertmind.Prelude.{pos, false, List, [], ◌∷◌, ◌++◌, Option, some}
use alertmind.Text.{Text, text}
use alertmind.Json.{Json, bool, int, str, arr, obj, of_items, Fields, end, field, items}
use alertmind.Json.Dict.{lookup, insert, erase}
use alertmind.Assistant.Schema.{required}

abbrev texts : List Text → List Json
texts [] = []
texts (t ∷ ts) = str t ∷ texts ts

abbrev typed : Text → Fields → Json
typed t rest = obj (field (text "type") (str t) rest)

-- `["string", "null"]`
abbrev text_or_null : Json
text_or_null = arr (of_items (texts (text "string" ∷ text "null" ∷ [])))

unfoldable pub technique_schema : Fields
technique_schema = field (text "type") text_or_null (
    field (text "pattern")
      (str (text "^T\\d{4}(?:\\.\\d{3})?(?:\\s*[/,]\\s*T\\d{4}(?:\\.\\d{3})?)*$")) end)

-- `sorted(DISPOSITIONS)` and `sorted(CONFIDENCES)`
unfoldable pub properties_schema : Fields
unfolding technique_schema
properties_schema =
    field (text "summary")
      (typed (text "array") (
        field (text "items") (typed (text "string") end)
          (field (text "maxItems") (int (pos 5)) end)))
      (field (text "attack_technique_id") (obj technique_schema) (
        field (text "attack_technique_name") (obj (field (text "type") text_or_null end)) (
          field (text "disposition_suggestion")
            (obj (
              field (text "enum")
                (arr (
                  of_items (
                    texts (
                      text "likely_benign"
                      ∷ text "likely_true_positive"
                      ∷ text "needs_investigation"
                      ∷ []))))
                end))
            (field (text "confidence")
              (obj (
                field (text "enum")
                  (arr (of_items (texts (text "high" ∷ text "low" ∷ text "medium" ∷ [])))) end))
              (field (text "investigation_queries")
                (typed (text "array") (
                  field (text "items") (typed (text "string") end) (
                    field (text "minItems") (int (pos 1))
                      (field (text "maxItems") (int (pos 4)) end))))
                (field (text "draft_user_message") (typed (text "string") end)
                  (field (text "caveats") (typed (text "string") end) end)))))))

-- `JSON_SCHEMA`
unfoldable pub json_schema : Fields
unfolding properties_schema required
json_schema = field (text "type") (str (text "object")) (
    field (text "additionalProperties") (bool false) (
      field (text "required") (arr (of_items (texts required)))
        (field (text "properties") (obj properties_schema) end)))

-- `d[k] = f(d[k])` where `d[k]` is a dict, and where it is a list
abbrev at_dict : Text → (Fields → Fields) → Option Json → Fields → Fields
at_dict k f (some (obj inner)) fs = insert k (obj (f inner)) fs
at_dict k f _ fs = fs

abbrev at_list : Text → (List Json → List Json) → Option Json → Fields → Fields
at_list k f (some (arr vs)) fs = insert k (arr (of_items (f (items vs)))) fs
at_list k f _ fs = fs

abbrev pub update_dict : Text → (Fields → Fields) → Fields → Fields
update_dict k f fs = at_dict k f (lookup k fs) fs

abbrev pub update_list : Text → (List Json → List Json) → Fields → Fields
update_list k f fs = at_list k f (lookup k fs) fs

-- What `ollama_json_schema` changes in the copy.
unfoldable pub provider_schema : Fields → Fields
provider_schema schema =
    update_list (text "required") (λ vs. vs ++ str (text "attack_technique_name") ∷ [])
      (update_dict (text "properties")
        (update_dict (text "attack_technique_id") (erase (text "pattern"))) schema)

unfoldable pub ollama_json_schema : Fields
unfolding provider_schema json_schema
ollama_json_schema = provider_schema json_schema
