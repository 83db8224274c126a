-- ===== src/Assistant/Injection/Rules.antt =====
-- `_RULES` of injection.py.
use alertmind.Prelude.{String, ◌||◌, List, [], ◌∷◌, map, nat_eq}
use alertmind.Text.{Text, text, is_space}
use alertmind.Platform.{Platform, is_word}
use alertmind.Regex.{
  Re, edge, start, one, seq, star, at_most_lazy, opt, plus, all_of, one_of, lit, ilit, space, dot,
}

pub record Marker : Type 0 where
  pub name : Text
  pub pattern : Re

-- `(?:a|b|c)` of literals under `(?i)`
words : List String → Re
unfolding ilit text
words ws = one_of (map (λ w. ilit (text w)) ws)

-- `a\s+b`
spaced : Re → Re → Re
spaced a b = all_of (a ∷ plus space ∷ b ∷ [])

-- `.{0,25}?`
gap : Re
unfolding at_most_lazy
gap = at_most_lazy 25 dot

ignore_previous : Re
unfolding words spaced ilit text
ignore_previous = all_of (
    edge
    ∷ ilit (text "ignore")
    ∷ plus space
    ∷ opt
        (one_of (seq (ilit (text "all")) (plus space) ∷ seq (ilit (text "any")) (plus space) ∷ []))
    ∷ spaced (words ("previous" ∷ "prior" ∷ "above" ∷ "earlier" ∷ []))
        (words ("instructions" ∷ "rules" ∷ "prompts" ∷ "context" ∷ []))
    ∷ [])

module _ ⦃p : Platform⦄ where
  role_override : Re
  unfolding words spaced ilit text
  role_override = all_of (
      edge
      ∷ one_of (
          spaced (ilit (text "you")) (spaced (ilit (text "are")) (ilit (text "now")))
          ∷ spaced (ilit (text "from")) (
              spaced (ilit (text "now"))
                (spaced (ilit (text "on")) (spaced (ilit (text "you")) (ilit (text "are")))))
          ∷ spaced (ilit (text "act"))
              (spaced (ilit (text "as")) (spaced (words ("a" ∷ "an" ∷ [])) (plus (one is_word))))
          ∷ spaced (ilit (text "new")) (spaced (ilit (text "system")) (ilit (text "prompt")))
          ∷ [])
      ∷ edge
      ∷ [])

forced_disposition : Re
unfolding words spaced gap ilit text
forced_disposition = all_of (
    edge
    ∷ words ("classify" ∷ "mark" ∷ "treat" ∷ "report" ∷ "label" ∷ "set" ∷ [])
    ∷ edge
    ∷ gap
    ∷ edge
    ∷ opt (seq (ilit (text "as")) (plus space))
    ∷ one_of (
        ilit (text "benign")
        ∷ ilit (text "safe")
        ∷ all_of (
            ilit (text "false")
            ∷ opt (one (λ c. is_space c || nat_eq c b'-'))
            ∷ ilit (text "positive")
            ∷ [])
        ∷ ilit (text "clean")
        ∷ spaced (ilit (text "not")) (ilit (text "malicious"))
        ∷ [])
    ∷ edge
    ∷ [])

forced_output : Re
unfolding words spaced gap ilit text
forced_output = all_of (
    edge
    ∷ one_of (
        spaced (ilit (text "you")) (ilit (text "must"))
        ∷ ilit (text "always")
        ∷ ilit (text "only")
        ∷ [])
    ∷ plus space
    ∷ words ("respond" ∷ "reply" ∷ "answer" ∷ "output" ∷ "return" ∷ [])
    ∷ edge
    ∷ gap
    ∷ words ("with" ∷ "format" ∷ "json" ∷ "exactly" ∷ [])
    ∷ [])

no_action : Re
unfolding words spaced ilit text
no_action = all_of (
    edge
    ∷ one_of (
        spaced (ilit (text "take")) (spaced (ilit (text "no")) (ilit (text "action")))
        ∷ spaced (ilit (text "do")) (
            spaced (ilit (text "not"))
              (words ("alert" ∷ "report" ∷ "escalate" ∷ "flag" ∷ "investigate" ∷ "block" ∷ [])))
        ∷ [])
    ∷ edge
    ∷ [])

prompt_exfil : Re
unfolding words spaced gap ilit text
prompt_exfil = all_of (
    edge
    ∷ words ("reveal" ∷ "repeat" ∷ "print" ∷ "show" ∷ "disclose" ∷ "output" ∷ [])
    ∷ edge
    ∷ gap
    ∷ edge
    ∷ one_of (
        spaced (ilit (text "system")) (ilit (text "prompt"))
        ∷ spaced (ilit (text "your")) (words ("prompt" ∷ "instructions" ∷ []))
        ∷ spaced (ilit (text "previous")) (ilit (text "instructions"))
        ∷ [])
    ∷ edge
    ∷ [])

system_impersonation : Re
unfolding words ilit text
system_impersonation = one_of (
    all_of
      (ilit (text "<|") ∷ words ("im_start" ∷ "system" ∷ "assistant" ∷ []) ∷ ilit (text "|>") ∷ [])
    ∷ all_of (ilit (text "[") ∷ opt (ilit (text "/")) ∷ ilit (text "inst]") ∷ [])
    ∷ all_of (
        start
        ∷ star space
        ∷ ilit (text "system")
        ∷ star space
        ∷ ilit (text ":")
        ∷ star space
        ∷ words ("you" ∷ "ignore" ∷ "always" ∷ "respond" ∷ "disregard" ∷ [])
        ∷ [])
    ∷ [])

authorization_claim : Re
unfolding words spaced ilit text
authorization_claim = all_of (
    edge
    ∷ spaced (ilit (text "this")) (
        spaced
          (one_of (
            words ("activity" ∷ "action" ∷ "alert" ∷ [])
            ∷ all_of (ilit (text "behavio") ∷ opt (ilit (text "u")) ∷ ilit (text "r") ∷ [])
            ∷ ilit (text "command")
            ∷ []))
          (spaced (words ("is" ∷ "was" ∷ []))
            (words ("approved" ∷ "authorized" ∷ "authorised" ∷ "sanctioned" ∷ "expected" ∷ []))))
    ∷ edge
    ∷ [])

-- `</?ALERT_DATA>`
unfoldable pub delimiter_break : Re
unfolding lit text
delimiter_break = all_of (lit (text "<") ∷ opt (lit (text "/")) ∷ lit (text "ALERT_DATA>") ∷ [])

abbrev marker : String → Re → Marker
marker name pattern = record { name = text name; pattern = pattern }

module _ ⦃p : Platform⦄ where
  -- In order; the delimiters last.
  unfoldable pub markers : List Marker
  unfolding ignore_previous role_override forced_disposition forced_output no_action prompt_exfil
      system_impersonation authorization_claim delimiter_break text
  markers =
      marker "ignore_previous" ignore_previous
      ∷ marker "role_override" role_override
      ∷ marker "forced_disposition" forced_disposition
      ∷ marker "forced_output" forced_output
      ∷ marker "no_action" no_action
      ∷ marker "prompt_exfil" prompt_exfil
      ∷ marker "system_impersonation" system_impersonation
      ∷ marker "authorization_claim" authorization_claim
      ∷ marker "delimiter_break" delimiter_break
      ∷ []
