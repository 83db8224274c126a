-- ===== src/Assistant/Scoring/Grade.antt =====
-- How the metrics of scoring.py hang together, for one answer and in the counts.
use alertmind.Prelude.{
  ◌≤◌, ◌≡◌, refl, ap, ◌∙◌, subst, inl, inr, Bool, true, false, ◌&&◌, List, [], ◌∷◌, Bool-cases,
  arith, All, if◌then◌else◌, map, is_empty, length,
}
use alertmind.Text.{Text, text, text_eq, is_one_of, strip}
use alertmind.Text.Laws.{text_eq_iff}
use alertmind.Platform.{Platform, lower}
use alertmind.Json.{Json, null, bool, int, float, str, arr, obj}
use alertmind.Json.Dict.{get}
use alertmind.Result.{ok, ◌>>=◌, ok-injective, after_ok}
use alertmind.Assistant.Scoring.{
  Score, codes, base, meets, is_benign, is_exact, is_relaxed, is_disposition_correct, is_consistent,
  likely_benign, likely_true_positive, attack_dispositions, grade, score_alert, nothing_correct,
  errored, text_or_empty, count, aggregate,
}

module _ ⦃p : Platform⦄ where
  is_one_of-map :
      (a : Text) (bs : List Text) → is_one_of bs a ≡ true → is_one_of (map base bs) (base a) ≡ true
  is_one_of-map a [] h = h
  is_one_of-map a (b ∷ bs) h = elim (Bool-cases (text_eq a b)) [
    | inl same ↦
        let e : text_eq (base a) (base b) ≡ true =
          (text_eq_iff (base a) (base b)).1 (ap base ((text_eq_iff a b).0 same)) in
        ground arith
    | inr other ↦ ground (arith, is_one_of-map a bs)
  ]

  meets-map :
      (mine bs : List Text) → meets mine bs ≡ true → meets (map base mine) (map base bs) ≡ true
  unfolding meets
  meets-map [] bs h = h
  meets-map (a ∷ mine) bs h = ground (arith, is_one_of-map a bs, meets-map mine bs)

  meets_empty : (mine bs : List Text) → is_empty mine ≡ true → meets mine bs ≡ false
  unfolding meets
  meets_empty [] bs h = refl
  meets_empty (a ∷ mine) bs h = cc

  benign_differs :
      (d : Text) → text_eq d likely_benign ≡ true → text_eq d likely_true_positive ≡ false
  unfolding text_eq text
  benign_differs d h = rw ((text_eq_iff d likely_benign).0 h) refl

  attack_differs :
      (d : Text) → is_one_of attack_dispositions d ≡ true → text_eq d likely_benign ≡ false
  unfolding attack_dispositions text_eq text
  attack_differs d h = elim (Bool-cases (text_eq d likely_benign)) [
    | inl same ↦
        let e : false ≡ true =
          subst (λ x. is_one_of attack_dispositions x ≡ true) ((text_eq_iff d likely_benign).0 same)
            h in
        cc
    | inr other ↦ other
  ]

  is_empty-map : (mine : List Text) → is_empty (map base mine) ≡ is_empty mine
  is_empty-map [] = refl
  is_empty-map (a ∷ mine) = refl

  -- A right disposition and a related technique never contradict each other.
  consistent_of_right :
      (benign : Bool) (mine gs : List Text) (d : Text)
      → is_disposition_correct benign d ≡ true
      → is_relaxed benign mine gs ≡ true
      → is_consistent mine d ≡ true
  unfolding is_disposition_correct is_relaxed is_exact is_consistent
  consistent_of_right true mine gs d h k = ground (arith, benign_differs d)
  consistent_of_right false mine gs d h k = ground (
    arith,
    attack_differs d,
    meets_empty mine gs,
    meets_empty (map base mine) (map base gs),
    is_empty-map mine,
  )

  relaxed_attack :
      (mine gs : List Text) → is_relaxed false mine gs ≡ meets (map base mine) (map base gs)
  unfolding is_relaxed is_exact
  relaxed_attack mine gs = ground (arith, meets-map mine gs)

  and_implied : (a b c : Bool) → (a ≡ true → b ≡ true → c ≡ true) → (a && b && c) ≡ (a && b)
  and_implied true true c h = h refl refl
  and_implied true false c h = refl
  and_implied false b c h = refl

  and_last : (a b c : Bool) → (a && b && c) ≡ true → c ≡ true
  and_last true true c h = h
  and_last true false c h = cc
  and_last false b c h = cc

  overall_shape :
      (benign : Bool) (mine theirs : List Text) (d : Text)
      → (is_disposition_correct benign d && is_relaxed benign mine theirs && is_consistent mine d)
        ≡ (if benign
            then text_eq d likely_benign && is_empty mine
            else is_one_of attack_dispositions d && meets (map base mine) (map base theirs))
  overall_shape benign mine theirs d =
      and_implied (is_disposition_correct benign d) (is_relaxed benign mine theirs) _
        (consistent_of_right benign mine theirs d)
      ∙ parts benign
    where
      parts :
          (b : Bool)
          → (is_disposition_correct b d && is_relaxed b mine theirs) ≡ (
              if b
              then text_eq d likely_benign && is_empty mine
              else is_one_of attack_dispositions d && meets (map base mine) (map base theirs))
      parts true = unfold is_disposition_correct is_relaxed is_exact in refl
      parts false = rw (relaxed_attack mine theirs) (unfold is_disposition_correct in refl)

  -- An answer to a benign alert is correct overall if it says benign and names no technique; one to
  -- an attack if its disposition is one of the two for attacks and one of its techniques has the
  -- parent of one of the true ones. The metric for consistency, which also counts, changes nothing.
  pub grade-overall :
      (ground_truth technique disposition : Text)
      → (grade ground_truth technique disposition).overall_correct ≡ (
          if is_benign ground_truth
          then text_eq (lower (strip disposition)) likely_benign && is_empty (codes technique)
          else is_one_of attack_dispositions (lower (strip disposition))
            && meets (map base (codes technique)) (map base (codes (strip ground_truth))))
  unfolding grade
  grade-overall ground_truth technique disposition =
      overall_shape (is_benign ground_truth) (codes technique) (codes (strip ground_truth))
        (lower (strip disposition))

  -- A right disposition and a related technique make an answer correct, of whatever shape it is: the
  -- five metrics of a score are never at odds.
  IsCoherent : Score → Type 0
  IsCoherent s =
      (s.overall_correct ≡ (s.disposition_correct && s.technique_relaxed_correct))
      × ((s.overall_correct ≡ true → s.response_consistent ≡ true)
          × (s.technique_exact_correct ≡ true → s.technique_relaxed_correct ≡ true))

  relaxed_of_exact :
      (benign : Bool) (mine theirs : List Text)
      → is_exact benign mine theirs ≡ true
      → is_relaxed benign mine theirs ≡ true
  unfolding is_relaxed
  relaxed_of_exact true mine theirs h = h
  relaxed_of_exact false mine theirs h = ground arith

  grade-IsCoherent : (g t d : Text) → IsCoherent (grade g t d)
  unfolding grade IsCoherent
  grade-IsCoherent g t d = (
    and_implied _ _ _
        (consistent_of_right (is_benign g) (codes t) (codes (strip g)) (lower (strip d))),
    (
      and_last (is_disposition_correct (is_benign g) (lower (strip d)))
          (is_relaxed (is_benign g) (codes t) (codes (strip g))) _,
      relaxed_of_exact (is_benign g) (codes t) (codes (strip g)),
    ),
  )

  nothing_correct-IsCoherent : IsCoherent nothing_correct
  unfolding nothing_correct IsCoherent
  nothing_correct-IsCoherent = (refl, (λ h. cc, λ h. cc))

  score_alert-IsCoherent : (g : Text) (v : Json) (s : Score) → score_alert g v ≡ ok s → IsCoherent s
  unfolding score_alert
  score_alert-IsCoherent g null s h = subst IsCoherent (ok-injective h) nothing_correct-IsCoherent
  score_alert-IsCoherent g (bool b) s h =
      subst IsCoherent (ok-injective h) nothing_correct-IsCoherent
  score_alert-IsCoherent g (int n) s h =
      subst IsCoherent (ok-injective h) nothing_correct-IsCoherent
  score_alert-IsCoherent g (float n) s h =
      subst IsCoherent (ok-injective h) nothing_correct-IsCoherent
  score_alert-IsCoherent g (str t) s h =
      subst IsCoherent (ok-injective h) nothing_correct-IsCoherent
  score_alert-IsCoherent g (arr vs) s h =
      subst IsCoherent (ok-injective h) nothing_correct-IsCoherent
  score_alert-IsCoherent g (obj fs) s h = answered (errored fs) h
    where
      answered :
          (b : Bool)
          → (if b
              then ok nothing_correct
              else (text_or_empty (get (text "attack_technique_id") fs) >>= λ technique.
                  text_or_empty (get (text "disposition_suggestion") fs) >>= λ disposition.
                  ok (grade g technique disposition)))
            ≡ ok s
          → IsCoherent s
      answered true k = subst IsCoherent (ok-injective k) nothing_correct-IsCoherent
      answered false k = after_ok (text_or_empty (get (text "attack_technique_id") fs)) k (λ t _ k'.
          after_ok (text_or_empty (get (text "disposition_suggestion") fs)) k'
            (λ d _ e. subst IsCoherent (ok-injective e) (grade-IsCoherent g t d)))

  count_le :
      (f g : Score → Bool) (rows : List Score)
      → All (λ r. f r ≡ true → g r ≡ true) rows
      → count f rows ≤ count g rows
  unfolding count
  count_le f g [] h = omega arith
  count_le f g (r ∷ rows) (h, hs) = ground (arith, h, count_le f g rows hs)

  -- The rows of a report, each the score of some answer.
  unfoldable pub AreScored : List Score → Type 0
  AreScored = All (λ r. (g : Text) × (v : Json) × (score_alert g v ≡ ok r))

  map_scored :
      (P : Score → Type 0)
      → ((r : Score) → IsCoherent r → P r)
      → (rows : List Score) → AreScored rows
      → All P rows
  unfolding AreScored
  map_scored P f [] h = tt
  map_scored P f (r ∷ rows) ((g, v, e), hs) =
      (f r (score_alert-IsCoherent g v r e), map_scored P f rows hs)

  count_le_n : (f : Score → Bool) (rows : List Score) → count f rows ≤ length rows
  unfolding count
  count_le_n f [] = omega arith
  count_le_n f (r ∷ rows) = ground (arith, count_le_n f rows)

  and_true : (a b c : Bool) → a ≡ (b && c) → a ≡ true → (b ≡ true) × (c ≡ true)
  and_true a true true h k = (refl, refl)
  and_true a true false h k = cc
  and_true a false c h k = cc

  -- In the counts of a report no more answers are correct overall than have a right disposition, a
  -- related technique or a consistent response, no more techniques are exact than related, and no
  -- count is above the number of answers.
  pub aggregate-le :
      (rows : List Score)
      → AreScored rows
      → ((aggregate rows).overall_correct ≤ (aggregate rows).disposition_correct)
        × (((aggregate rows).overall_correct ≤ (aggregate rows).technique_relaxed_correct)
            × (((aggregate rows).overall_correct ≤ (aggregate rows).response_consistent)
                × (((aggregate rows).technique_exact_correct
                      ≤ (aggregate rows).technique_relaxed_correct)
                    × (((aggregate rows).technique_relaxed_correct ≤ (aggregate rows).n)
                        × (((aggregate rows).disposition_correct ≤ (aggregate rows).n)
                            × ((aggregate rows).response_consistent ≤ (aggregate rows).n))))))
  unfolding aggregate IsCoherent
  aggregate-le rows h = (
    count_le _ _ rows (map_scored _ (λ r (e, _) k. (and_true _ _ _ e k).0) rows h),
    (
      count_le _ _ rows (map_scored _ (λ r (e, _) k. (and_true _ _ _ e k).1) rows h),
      (
        count_le _ _ rows (map_scored _ (λ r (_, (c, _)). c) rows h),
        (
          count_le _ _ rows (map_scored _ (λ r (_, (_, x)). x) rows h),
          (count_le_n _ rows, (count_le_n _ rows, count_le_n _ rows)),
        ),
      ),
    ),
  )
