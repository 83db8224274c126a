-- ===== src/Assistant/Injection/Block.antt =====
-- The gate of injection.py against the block that prompts.py prints between the delimiters.
use alertmind.Prelude.{ℕ, ◌≡◌, refl, true, false, ◌||◌, arith}
use alertmind.Text.{text, is_in}
use alertmind.Platform.{Platform}
use alertmind.Json.{Json}
use alertmind.Dumps.{indent_style}
use alertmind.Dumps.Mentions.{mentions, IsPlain}
use alertmind.Dumps.Confined.{IsClean}
use alertmind.Dumps.Confined.Values.{CleanStyle, mentions-dump}
use alertmind.Assistant.Prompts.{alert_block}
use alertmind.Assistant.Injection.{delim_open, delim_close, contains_boundary}
use alertmind.Assistant.Injection.Gate.{contains_boundary-mentions}

open-IsPlain : IsPlain (text "ALERT_DATA>")
unfolding text
open-IsPlain =
    (refl, (refl, (refl, (refl, (refl, (refl, (refl, (refl, (refl, (refl, (refl, tt)))))))))))

close-IsPlain : IsPlain (text "/ALERT_DATA>")
unfolding text
close-IsPlain = (
  refl,
  (refl, (refl, (refl, (refl, (refl, (refl, (refl, (refl, (refl, (refl, (refl, tt))))))))))),
)

indent-CleanStyle : CleanStyle indent_style
unfolding CleanStyle
indent-CleanStyle = ((refl, tt), (refl, (refl, tt)))

module _ ⦃p : Platform⦄ (floats : (n : ℕ) → IsClean (p.float_text n)) (v : Json) where
  open_mentions : is_in delim_open (alert_block v) ≡ true → mentions delim_open v ≡ true
  unfolding delim_open alert_block text
  open_mentions e =
      mentions-dump (text "ALERT_DATA>") open-IsPlain indent_style indent-CleanStyle floats 0 v e

  close_mentions : is_in delim_close (alert_block v) ≡ true → mentions delim_close v ≡ true
  unfolding delim_close alert_block text
  close_mentions e =
      mentions-dump (text "/ALERT_DATA>") close-IsPlain indent_style indent-CleanStyle floats 0 v e

  -- An alert that passes the gate, which reads it in one layout, has no delimiter in the layout that
  -- the prompt prints, if the runtime prints no float with a `<`: the block of the prompt cannot be
  -- closed or opened again by what is in it.
  pub contains_boundary-alert_block :
      contains_boundary v ≡ false
      → (is_in delim_open (alert_block v) || is_in delim_close (alert_block v)) ≡ false
  contains_boundary-alert_block h =
      ground (arith, open_mentions, close_mentions, contains_boundary-mentions v)
