-- ===== src/Assistant/Batch/Selection.antt =====
-- `select_alerts` of runner.py: a subset of the corpus by identifiers or by number.
pub mod Requested
use alertmind.Prelude.{
  ℕ, zero, suc, ℤ, pos, negsuc, Bool, true, false, not, ◌&&◌, List, [], ◌∷◌, ◌++◌, Option, none,
  some, take, keep, map, is_empty, all, if◌then◌else◌,
}
use alertmind.Text.{Text, text, is_one_of, strip, split_on}
use alertmind.Json.{Json, str, arr, obj, Fields}
use alertmind.Json.Dict.{get}
use alertmind.Result.{Result, ok, err, ◌>>=◌, ◌>>◌, require}

-- `{item.strip() for item in alert_ids.split(",") if item.strip()}`
unfoldable pub requested : Text → List Text
requested ids = keep (λ s. not (is_empty s)) (map strip (split_on b',' ids))

abbrev is_hashable : Json → Bool
is_hashable (arr _) = false
is_hashable (obj _) = false
is_hashable _ = true

abbrev id_in : List Text → Json → Bool
id_in ids (str s) = is_one_of ids s
id_in ids _ = false

-- `a.get("alert_id") in ids`
unfoldable pub is_requested : List Text → Fields → Bool
is_requested ids a = id_in ids (get (text "alert_id") a)

abbrev pub texts_of : List Json → List Text
texts_of [] = []
texts_of (str s ∷ vs) = s ∷ texts_of vs
texts_of (_ ∷ vs) = texts_of vs

-- The identifiers that the corpus has.
unfoldable pub available : List Fields → List Text
available alerts = texts_of (map (get (text "alert_id")) alerts)

abbrev from_limit : List Fields → ℤ → Result (List Fields)
from_limit alerts (pos zero) = ok alerts
from_limit alerts (pos (suc n)) = ok (take (suc n) alerts)
from_limit alerts (negsuc n) = err "--limit must be zero or a positive integer"

abbrev limited : ℤ → Bool
limited (pos zero) = false
limited _ = true

abbrev is_negative : ℤ → Bool
is_negative (pos _) = false
is_negative (negsuc _) = true

unfoldable pub select_alerts : List Fields → Text → ℤ → Result (List Fields)
select_alerts alerts ids limit = do
  require (not (is_negative limit)) "--limit must be zero or a positive integer"
  require (not (not (is_empty ids) && limited limit)) "--alert-ids cannot be combined with --limit"
  if is_empty ids
      then from_limit alerts limit
      else (require (not (is_empty (requested ids)))
            "--alert-ids must contain at least one alert ID"
          >> (require (all is_hashable (map (get (text "alert_id")) alerts)) "TypeError"
              >> (require (all (is_one_of (available alerts)) (requested ids)) "unknown alert ID(s)"
                  >> ok (keep (is_requested (requested ids)) alerts))))
