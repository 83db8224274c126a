-- ===== src/Assistant/Scoring.antt =====
-- scoring.py: the metrics of one answer against the ground truth, and their counts.
pub mod Grade
use alertmind.Prelude.{
  ℕ, suc, Bool, true, false, not, ◌&&◌, ◌||◌, List, [], ◌∷◌, ◌++◌, Option, none, some, nat_eq, map,
  length, any, is_empty, if◌then◌else◌,
}
use alertmind.Text.{Text, text, text_eq, is_one_of, strip, join, split_on}
use alertmind.Text.Sets.{sorted_set}
use alertmind.Platform.{Platform, lower, upper}
use alertmind.Json.{Json, null, str, obj, Fields, truthy}
use alertmind.Json.Dict.{get}
use alertmind.Result.{Result, ok, err, ◌>>=◌}
use alertmind.Regex.{Found, one, seq, opt, all_of, exactly, same_letter, find_all}
use alertmind.Assistant.Views.{digit}

module _ ⦃p : Platform⦄ where
  abbrev uppers : List Found → List Text
  uppers [] = []
  uppers (f ∷ fs) = upper f.whole ∷ uppers fs

  -- The codes in a text, as a set.
  unfoldable pub codes : Text → List Text
  unfolding exactly same_letter find_all upper sorted_set
  codes s = sorted_set (
      uppers (
        find_all
          (all_of (
            one (same_letter b't')
            ∷ exactly 4 digit
            ∷ opt (seq (one (nat_eq b'.')) (exactly 3 digit))
            ∷ []))
          s))

  abbrev first_part : List Text → Text
  first_part [] = []
  first_part (a ∷ _) = a

  -- `_base(code)`
  unfoldable pub base : Text → Text
  unfolding split_on upper
  base code = upper (first_part (split_on b'.' code))

  -- `bool(a & b)`
  unfoldable pub meets : List Text → List Text → Bool
  meets a b = any (is_one_of b) a

  pub record Score : Type 0 where
    pub technique_exact_correct : Bool
    pub technique_relaxed_correct : Bool
    pub disposition_correct : Bool
    pub response_consistent : Bool
    pub overall_correct : Bool
    pub assistant_tag : Option Text
    pub assistant_disposition : Option Text

  unfoldable pub nothing_correct : Score
  nothing_correct = record {
    technique_exact_correct = false;
    technique_relaxed_correct = false;
    disposition_correct = false;
    response_consistent = false;
    overall_correct = false;
    assistant_tag = none;
    assistant_disposition = none;
  }

  -- `v or ""`, then a call that wants a text
  unfoldable pub text_or_empty : Json → Result Text
  unfolding truthy
  text_or_empty (str s) = ok s
  text_or_empty v = if truthy v then err "TypeError" else ok []

  -- `s or None`
  abbrev or_none : Text → Option Text
  or_none s = if is_empty s then none else some s

  unfoldable pub attack_dispositions : List Text
  unfolding text
  attack_dispositions = text "likely_true_positive" ∷ text "needs_investigation" ∷ []

  unfoldable pub is_benign : Text → Bool
  unfolding text lower strip
  is_benign ground_truth = text_eq (lower (strip ground_truth)) (text "benign")

  abbrev pub likely_benign : Text
  likely_benign = text "likely_benign"

  abbrev pub likely_true_positive : Text
  likely_true_positive = text "likely_true_positive"

  unfoldable pub is_exact : Bool → List Text → List Text → Bool
  unfolding meets
  is_exact benign a_codes gt_codes = if benign then is_empty a_codes else meets a_codes gt_codes

  unfoldable pub is_relaxed : Bool → List Text → List Text → Bool
  unfolding meets base is_exact
  is_relaxed benign a_codes gt_codes =
      if benign
      then is_exact benign a_codes gt_codes
      else is_exact benign a_codes gt_codes || meets (map base a_codes) (map base gt_codes)

  unfoldable pub is_disposition_correct : Bool → Text → Bool
  unfolding attack_dispositions
  is_disposition_correct benign disp =
      if benign then text_eq disp likely_benign else is_one_of attack_dispositions disp

  -- A benign disposition must carry no technique; a confident true positive must carry one.
  unfoldable pub is_consistent : List Text → Text → Bool
  is_consistent a_codes disp =
      not (text_eq disp likely_benign && not (is_empty a_codes))
      && not (text_eq disp likely_true_positive && is_empty a_codes)

  -- The score of an answer with this technique field and this disposition field.
  unfoldable pub grade : Text → Text → Text → Score
  unfolding codes is_relaxed is_disposition_correct is_consistent is_benign lower strip join text
  grade ground_truth technique disposition =
      let benign = is_benign ground_truth in
      let gt_codes = codes (strip ground_truth) in
      let a_codes = codes technique in
      let disp = lower (strip disposition) in
      let exact = is_exact benign a_codes gt_codes in
      let relaxed = is_relaxed benign a_codes gt_codes in
      let right = is_disposition_correct benign disp in
      let consistent = is_consistent a_codes disp in
      record {
        technique_exact_correct = exact;
        technique_relaxed_correct = relaxed;
        disposition_correct = right;
        response_consistent = consistent;
        overall_correct = right && relaxed && consistent;
        assistant_tag = or_none (join (text "/") a_codes);
        assistant_disposition = or_none disp;
      }

  abbrev errored : Fields → Bool
  errored fs = truthy (get (text "_error") fs) || truthy (get (text "_parse_error") fs)

  -- An answer that is no dict, or an errored one, is correct on nothing.
  unfoldable pub score_alert : Text → Json → Result Score
  unfolding grade text_or_empty nothing_correct
  score_alert ground_truth (obj fs) =
      if errored fs
      then ok nothing_correct
      else (text_or_empty (get (text "attack_technique_id") fs) >>= λ technique.
          text_or_empty (get (text "disposition_suggestion") fs) >>= λ disposition.
          ok (grade ground_truth technique disposition))
  score_alert ground_truth _ = ok nothing_correct

  -- `sum(1 for r in rows if r[k])`
  unfoldable pub count : (Score → Bool) → List Score → ℕ
  count metric [] = 0
  count metric (r ∷ rows) = let rest = count metric rows in if metric r then suc rest else rest

  pub record Counts : Type 0 where
    pub technique_exact_correct : ℕ
    pub technique_relaxed_correct : ℕ
    pub disposition_correct : ℕ
    pub response_consistent : ℕ
    pub overall_correct : ℕ
    pub n : ℕ

  unfoldable pub aggregate : List Score → Counts
  unfolding count
  aggregate rows = record {
    technique_exact_correct = count (λ r. r.technique_exact_correct) rows;
    technique_relaxed_correct = count (λ r. r.technique_relaxed_correct) rows;
    disposition_correct = count (λ r. r.disposition_correct) rows;
    response_consistent = count (λ r. r.response_consistent) rows;
    overall_correct = count (λ r. r.overall_correct) rows;
    n = length rows;
  }
