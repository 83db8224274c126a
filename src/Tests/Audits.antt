-- ===== src/Tests/Audits.antt =====
-- The ad-hoc audit log with a repeated record.
use alertmind.Prelude.{◌≡◌, refl, true, List, [], ◌∷◌, none, All, arith}
use alertmind.Text.{Text, text, text_eq}
use alertmind.Text.Laws.{text_eq_iff}
use alertmind.Platform.{Platform, plain}
use alertmind.Json.{str, Fields, end, field}
use alertmind.Json.Parsed.{Parsed, Pairs}
use alertmind.Assistant.Audit.{lines_of, has_record, is_record_of, line_of, append_all}
use alertmind.Assistant.Audit.Once.{IsReadBack, IsOnce, Extends, count_of, append_all-IsOnce}

abbrev reader : Platform
reader = record plain {
  decode = λ _. Parsed.obj (Pairs.pair (text "record_id") (Parsed.str (text "a")) Pairs.end);
}

abbrev saved : Fields × Text
saved = (field (text "record_id") (str (text "a")) end, text "a")

abbrev calls : List (Fields × Text)
calls = saved ∷ saved ∷ []

own_line : is_record_of ⦃p = reader⦄ (text "a") (line_of ⦃p = reader⦄ saved.0) ≡ true
unfolding is_record_of alertmind.Text.strip line_of alertmind.Dumps.dump alertmind.Dumps.newline
    alertmind.Dumps.quote alertmind.Dumps.escape text alertmind.Dumps.escape_char
    alertmind.Json.Parsed.loads_plain alertmind.Json.Dict.lookup alertmind.Json.Dict.insert text_eq
own_line = refl

only_line :
    (other : Text)
    → is_record_of ⦃p = reader⦄ other (line_of ⦃p = reader⦄ saved.0) ≡ true
    → other ≡ text "a"
unfolding text_eq is_record_of alertmind.Text.strip line_of alertmind.Dumps.dump
    alertmind.Dumps.newline alertmind.Dumps.quote alertmind.Dumps.escape text
    alertmind.Dumps.escape_char alertmind.Json.Parsed.loads_plain alertmind.Json.Dict.lookup
    alertmind.Json.Dict.insert
only_line other h = (text_eq_iff other (text "a")).0 h

read_back : All (IsReadBack ⦃p = reader⦄) calls
unfolding IsReadBack
read_back = ((own_line, only_line), ((own_line, only_line), tt))

no_file : IsOnce ⦃p = reader⦄ (lines_of none)
unfolding IsOnce count_of
no_file = λ id. omega arith

append_all-IsOnce_example :
    IsOnce ⦃p = reader⦄ (lines_of (append_all ⦃p = reader⦄ none calls))
    × Extends ⦃p = reader⦄ (lines_of none) (lines_of (append_all ⦃p = reader⦄ none calls))
    × All
        (λ c. has_record ⦃p = reader⦄ c.1 (lines_of (append_all ⦃p = reader⦄ none calls)) ≡ true)
        calls
append_all-IsOnce_example = append_all-IsOnce ⦃p = reader⦄ none calls read_back no_file
