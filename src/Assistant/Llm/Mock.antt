-- ===== src/Assistant/Llm/Mock.antt =====
-- llm.py: `_mock`, the offline provider, which answers from the fields of the prompt.
use alertmind.Prelude.{
  not, List, [], ◌∷◌, ◌++◌, Option, none, some, take, nat_eq, is_empty, if◌then◌else◌,
}
use alertmind.Text.{Text, text}
use alertmind.Platform.{Platform, is_decimal}
use alertmind.Json.{Json, null, str, arr, obj, Fields, end, field, of_items}
use alertmind.Dumps.{dump, plain_style}
use alertmind.Regex.{Re, Found, group, one, star, opt, plus, all_of, lit, space, find_all}

-- `([^"]+)`, in quotes
abbrev quoted : Re
quoted =
    all_of
      (one (nat_eq b'"') ∷ group (plus (one (λ c. not (nat_eq c b'"')))) ∷ one (nat_eq b'"') ∷ [])

-- `"mitre":\s*{[^}]*"id":\s*\[\s*"([^"]+)"`
unfoldable pub mitre_pattern : Re
unfolding lit
mitre_pattern = all_of (
    lit (text "\"mitre\":")
    ∷ star space
    ∷ one (nat_eq b'{')
    ∷ star (one (λ c. not (nat_eq c b'}')))
    ∷ lit (text "\"id\":")
    ∷ star space
    ∷ one (nat_eq b'[')
    ∷ star space
    ∷ quoted
    ∷ [])

-- `"rule_description":\s*"([^"]+)"`
unfoldable pub description_pattern : Re
unfolding lit
description_pattern = all_of (lit (text "\"rule_description\":") ∷ star space ∷ quoted ∷ [])

module _ ⦃p : Platform⦄ where
  -- `"rule_id":\s*"?(\d+)`
  unfoldable pub rule_pattern : Re
  unfolding lit
  rule_pattern = all_of (
      lit (text "\"rule_id\":")
      ∷ star space
      ∷ opt (one (nat_eq b'"'))
      ∷ group (plus (one is_decimal))
      ∷ [])

  abbrev first_group : List Found → Option Text
  first_group [] = none
  first_group (m ∷ _) = some m.inner

  -- `m.group(1)` of `re.search`, where there is a match
  unfoldable pub searched : Re → Text → Option Text
  unfolding find_all
  searched r s = first_group (find_all r s)

  abbrev or_blank : Option Text → Text
  or_blank none = []
  or_blank (some s) = s

  abbrev or_none : Option Text → Json
  or_none none = null
  or_none (some s) = str s

  unfoldable pub mock_answer : Option Text → Text → Text → Fields
  mock_answer technique description rule =
      field (text "summary")
        (arr (
          of_items (
            str (text "[MOCK] Wazuh rule " ++ (rule ++ (text " fired: " ++ take 80 description)))
            ∷ str (text "Source, target and key fields are present in the alert.")
            ∷ str (text "Review the redacted alert for the acting user/process and path.")
            ∷ str (text "Confirm whether the activity is expected on this host.")
            ∷ str (text "This is a mock inference — run a real model for measurement.")
            ∷ [])))
        (field (text "attack_technique_id") (or_none technique) (
          field (text "attack_technique_name") (str (text "(from alert)")) (
            field (text "disposition_suggestion") (str (text "needs_investigation")) (
              field (text "confidence") (str (text "low")) (
                field (text "investigation_queries")
                  (arr (
                    of_items (
                      str (if is_empty rule then text "rule.id:*" else text "rule.id:" ++ rule)
                      ∷ str (text "agent.name:\"<host>\" AND rule.mitre.id:*")
                      ∷ str (text "agent.name:\"<host>\" (widen the time window around the event)")
                      ∷ [])))
                  (field (text "draft_user_message")
                    (str (
                      text
                        "Draft: we observed activity on your host that our monitoring flagged for review; please confirm if this was you."))
                    (field (text "caveats") (str (text "Mock output; not a real model inference."))
                      end)))))))

  -- The printed answer and its metadata.
  unfoldable pub mock : Text → Json × Fields
  mock user = (
    str (
        dump plain_style 0 (
          obj (
            mock_answer (searched mitre_pattern user) (or_blank (searched description_pattern user))
              (or_blank (searched rule_pattern user))))),
    field (text "model_actual") (str (text "mock"))
        (field (text "request_config") (obj (field (text "provider") (str (text "mock")) end)) end),
  )
