-- ===== src/Assistant/Batch/Selection/Requested.antt =====
-- What a run over requested identifiers selects in runner.py.
use alertmind.Prelude.{
  ℤ, ◌≡◌, subst, inl, inr, Bool, true, false, not, ◌&&◌, List, [], ◌∷◌, Bool-cases, arith, All,
  keep, map, is_empty, all,
}
use alertmind.Text.{Text, text, text_eq, is_one_of}
use alertmind.Text.Laws.{text_eq_iff, text_eq_refl}
use alertmind.Json.{Json, null, bool, int, float, str, arr, obj, Fields}
use alertmind.Json.Dict.{get}
use alertmind.Result.{ok, ok-injective, after_require}
use alertmind.Assistant.Batch.Selection.{
  requested, id_in, is_requested, texts_of, available, limited, is_negative, is_hashable,
  select_alerts,
}

-- An alert with the identifier `id`.
id_in_texts :
    (ids : List Text) (id : Text) (v : Json) (vs : List Json)
    → id_in ids v ≡ false
    → is_one_of ids id ≡ true
    → is_one_of (texts_of (v ∷ vs)) id ≡ true
    → is_one_of (texts_of vs) id ≡ true
id_in_texts ids id (str s) vs h k e = elim (Bool-cases (text_eq id s)) [
  | inl same ↦
      let back : is_one_of ids s ≡ true =
        subst (λ x. is_one_of ids x ≡ true) ((text_eq_iff id s).0 same) k in
      absurd (cc)
  | inr other ↦ ground arith
]
id_in_texts ids id null vs h k e = e
id_in_texts ids id (bool b) vs h k e = e
id_in_texts ids id (int b) vs h k e = e
id_in_texts ids id (float b) vs h k e = e
id_in_texts ids id (arr b) vs h k e = e
id_in_texts ids id (obj b) vs h k e = e

texts_of_cons :
    (id : Text) (v : Json) (vs ws : List Json)
    → (is_one_of (texts_of vs) id ≡ true → is_one_of (texts_of ws) id ≡ true)
    → is_one_of (texts_of (v ∷ vs)) id ≡ true
    → is_one_of (texts_of (v ∷ ws)) id ≡ true
texts_of_cons id (str s) vs ws f e = ground (arith, f)
texts_of_cons id null vs ws f e = f e
texts_of_cons id (bool b) vs ws f e = f e
texts_of_cons id (int b) vs ws f e = f e
texts_of_cons id (float b) vs ws f e = f e
texts_of_cons id (arr b) vs ws f e = f e
texts_of_cons id (obj b) vs ws f e = f e

-- A requested identifier of the corpus stays in the selection.
available-keep :
    (ids : List Text) (id : Text) (alerts : List Fields)
    → is_one_of ids id ≡ true
    → is_one_of (available alerts) id ≡ true
    → is_one_of (available (keep (is_requested ids) alerts)) id ≡ true
unfolding available is_requested
available-keep ids id [] h e = e
available-keep ids id (a ∷ alerts) h e = elim (Bool-cases (id_in ids (get (text "alert_id") a))) [
  | inl kept ↦ rw kept (
      texts_of_cons id (get (text "alert_id") a) (map (get (text "alert_id")) alerts) _
        (available-keep ids id alerts h) e)
  | inr dropped ↦ rw dropped (
      available-keep ids id alerts h (
        id_in_texts ids id (get (text "alert_id") a) (map (get (text "alert_id")) alerts) dropped h
          e))
]

is_one_of-All :
    (xs ids : List Text) → all (is_one_of xs) ids ≡ true → All (λ id. is_one_of xs id ≡ true) ids
is_one_of-All xs [] h = tt
is_one_of-All xs (id ∷ ids) h = (ground arith, is_one_of-All xs ids (ground arith))

keep-All : (p : Fields → Bool) (xs : List Fields) → All (λ x. p x ≡ true) (keep p xs)
keep-All p [] = tt
keep-All p (x ∷ xs) = elim (Bool-cases (p x)) [
  | inl held ↦ rw held (held, keep-All p xs)
  | inr failed ↦ rw failed (keep-All p xs)
]

kept_ids :
    (ids rest : List Text) (alerts : List Fields)
    → All (λ id. is_one_of ids id ≡ true) rest
    → All (λ id. is_one_of (available alerts) id ≡ true) rest
    → All (λ id. is_one_of (available (keep (is_requested ids) alerts)) id ≡ true) rest
kept_ids ids [] alerts h k = tt
kept_ids ids (id ∷ rest) alerts (h, hs) (k, ks) =
    (available-keep ids id alerts h k, kept_ids ids rest alerts hs ks)

own_later :
    (a : Text) (ids rest : List Text)
    → All (λ id. is_one_of ids id ≡ true) rest
    → All (λ id. is_one_of (a ∷ ids) id ≡ true) rest
own_later a ids [] h = tt
own_later a ids (id ∷ rest) (h, hs) = (ground arith, own_later a ids rest hs)

own : (ids : List Text) → All (λ id. is_one_of ids id ≡ true) ids
own [] = tt
own (a ∷ ids) = (ground (arith, text_eq_refl a), own_later a ids ids (own ids))

-- A selection by identifiers that succeeds holds an alert for each requested identifier, and no other
-- alerts: a run cannot silently leave one out.
pub select_alerts-requested :
    (alerts chosen : List Fields) (ids : Text) (limit : ℤ)
    → is_empty ids ≡ false
    → select_alerts alerts ids limit ≡ ok chosen
    → All (λ id. is_one_of (available chosen) id ≡ true) (requested ids)
      × All (λ a. is_requested (requested ids) a ≡ true) chosen
unfolding select_alerts
select_alerts-requested alerts chosen ids limit given h =
    after_require (not (is_negative limit)) _ h (λ _ h1.
      after_require (not (not (is_empty ids) && limited limit)) _ h1 (λ _ h2.
        after_require (not (is_empty (requested ids))) _ (rw given at h2) (λ _ h3.
          after_require (all is_hashable (map (get (text "alert_id")) alerts)) _ h3 (λ _ h4.
            after_require (all (is_one_of (available alerts)) (requested ids)) _ h4 (λ known h5.
              subst
                (λ (c : List Fields).
                  All (λ id. is_one_of (available c) id ≡ true) (requested ids)
                  × All (λ a. is_requested (requested ids) a ≡ true) c)
                (ok-injective h5)
                (
                  kept_ids (requested ids) (requested ids) alerts (own (requested ids))
                      (is_one_of-All (available alerts) (requested ids) known),
                  keep-All (is_requested (requested ids)) alerts,
                ))))))
