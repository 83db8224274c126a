-- ===== src/Assistant/Answer.antt =====
-- llm.py: the answer of a provider, and the JSON object in its text.
use alertmind.Prelude.{true, List, [], ◌∷◌, Option, none, some, nat_eq}
use alertmind.Text.{Text, text, strip}
use alertmind.Platform.{Platform}
use alertmind.Json.{Json, bool, str, obj, end, field}
use alertmind.Json.Parsed.{loads_plain}
use alertmind.Regex.{
  Re, Found, start, finish, one, seq, star, opt, all_of, lit, any_char, find_all, sub,
}

-- What `call_llm_meta` does: it returns a text and metadata, or it raises; the exception is known by
-- the line `f"{type(e).__name__}: {e}"` and by its `meta`, if it has one.
pub data Reply : Type 0 where
  answered : Text → Json → Reply
  raised : Text → Option Json → Reply

fence : Re
unfolding lit text
fence = lit (text "```")

-- "^```(?:json)?" and "```$"
opening_fence : Re
unfolding fence lit text
opening_fence = all_of (start ∷ fence ∷ opt (lit (text "json")) ∷ [])

closing_fence : Re
unfolding fence
closing_fence = seq fence finish

-- `\{.*\}`
object_text : Re
object_text = all_of (one (nat_eq b'{') ∷ star any_char ∷ one (nat_eq b'}') ∷ [])

abbrev no_object : Text → Json
no_object raw = obj (field (text "_parse_error") (bool true) (field (text "_raw") (str raw) end))

module _ ⦃p : Platform⦄ where
  unfoldable pub unfenced : Text → Text
  unfolding strip sub opening_fence closing_fence
  unfenced raw =
      strip (sub closing_fence (λ _. []) (strip (sub opening_fence (λ _. []) (strip raw))))

  abbrev loaded : Text → Option Json → Json
  loaded raw none = no_object raw
  loaded raw (some v) = v

  abbrev first_object : Text → List Found → Json
  first_object raw [] = no_object raw
  first_object raw (m ∷ _) = loaded raw (loads_plain (p.decode m.whole))

  unfoldable pub parse_response : Text → Json
  unfolding unfenced find_all object_text text loads_plain
  parse_response raw = first_object raw (find_all object_text (unfenced raw))
