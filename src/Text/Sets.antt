-- ===== src/Text/Sets.antt =====
-- `sorted(set(...))` of texts.
use alertmind.Prelude.{List, [], ◌∷◌, if◌then◌else◌}
use alertmind.Text.{Text, text_eq}
use alertmind.Dumps.{text_lt}

-- Into its place in a sorted list that has no text twice.
unfoldable pub insert_text : Text → List Text → List Text
insert_text a [] = a ∷ []
insert_text a (b ∷ bs) =
    let later = insert_text a bs in
    if text_eq a b then b ∷ bs else (if text_lt a b then a ∷ b ∷ bs else b ∷ later)

unfoldable pub sorted_set : List Text → List Text
unfolding insert_text
sorted_set [] = []
sorted_set (a ∷ as') = insert_text a (sorted_set as')
