-- ===== src/Assistant/Batch/Rebuild.antt =====
-- The scores of a run of runner.py, and those that rebuild_from_audit.py makes of its audit log.
use alertmind.Prelude.{
  ◌≡◌, ◌≢◌, refl, ap, sym, ◌∙◌, subst, inl, inr, Bool, true, false, List, [], ◌∷◌, Bool-cases, All,
}
use alertmind.Text.{Text, text}
use alertmind.Platform.{Platform}
use alertmind.Json.{Json, null, bool, int, float, str, arr, obj, Fields, truthy}
use alertmind.Json.Dict.{get}
use alertmind.Result.{ok, ok-injective, after_ok}
use alertmind.Assistant.Schema.{SchemaError, validate_output}
use alertmind.Assistant.Schema.Accept.{validate_output-unmarked}
use alertmind.Assistant.Scoring.{Score, score_alert}
use alertmind.Assistant.Answer.{Reply, parse_response}
use alertmind.Assistant.Batch.{
  call_error, ScoreRow, AuditRecord, with_marks, ground_truth_of, alert_id_of, status_of, is_valid,
  row, score_response, rebuild_record, rebuild, run_alert, run_alerts,
}

-- No call of the run failed.
unfoldable pub AllAnswered : List AuditRecord → Type 0
AllAnswered = All (λ rec. rec.parse_status ≢ call_error)

module _ ⦃p : Platform⦄ where
  -- Without a failed call the status is `valid` exactly for an accepted answer.
  is_valid-status_of :
      (failed accepted : Bool) (q : Fields)
      → (accepted ≡ true → truthy (get (text "_parse_error") q) ≡ false)
      → status_of failed accepted (obj q) ≢ call_error
      → is_valid (status_of failed accepted (obj q)) ≡ accepted
  unfolding status_of
  is_valid-status_of true accepted q h n = absurd (n refl)
  is_valid-status_of false true q h n = rw (h refl) refl
  is_valid-status_of false false q h n = elim (Bool-cases (truthy (get (text "_parse_error") q))) [
    | inl marked ↦ rw marked refl
    | inr other ↦ rw other refl
  ]

  module _ (ground : List (Text × Text)) where
    marked_obj :
        (aid v : Json) (marked : Fields) → with_marks aid v ≡ ok marked → (q : Fields) × (v ≡ obj q)
    unfolding with_marks
    marked_obj aid (obj q) marked h = (q, refl)
    marked_obj aid null marked h = absurd (cc)
    marked_obj aid (bool b) marked h = absurd (cc)
    marked_obj aid (int b) marked h = absurd (cc)
    marked_obj aid (float b) marked h = absurd (cc)
    marked_obj aid (str b) marked h = absurd (cc)
    marked_obj aid (arr b) marked h = absurd (cc)

    -- The status of a response whose fields were marked.
    valid_of_marked :
        (v aid parsed : Json) (failed accepted : Bool) (errors : List SchemaError) (marked : Fields)
        → validate_output v ≡ ok (accepted, errors, parsed)
        → with_marks aid parsed ≡ ok marked
        → status_of failed accepted parsed ≢ call_error
        → is_valid (status_of failed accepted parsed) ≡ accepted
    valid_of_marked v aid parsed failed accepted errors marked h m n =
        let (q, same) = marked_obj aid parsed marked m in
        ap (λ x. is_valid (status_of failed accepted x)) same
        ∙ is_valid-status_of failed accepted q
            (λ yes'.
              validate_output-unmarked v errors q (
                h ∙ ap (λ x. ok (accepted, errors, x)) same ∙ ap (λ b. ok (b, errors, obj q)) yes'))
            (λ e. n (ap (status_of failed accepted) same ∙ e))

    -- The rebuild of a record goes through the same steps.
    rebuild_record_steps :
        (rec : AuditRecord) (accepted : Bool) (errors : List SchemaError) (parsed : Json)
        (marked : Fields) (truth : Text) (score : Score)
        → validate_output (parse_response rec.raw_response) ≡ ok (accepted, errors, parsed)
        → with_marks rec.alert_id parsed ≡ ok marked
        → ground_truth_of ground rec.alert_id ≡ ok truth
        → score_alert truth (obj marked) ≡ ok score
        → rebuild_record ground rec ≡ ok (row rec.alert_id truth marked score accepted)
    unfolding rebuild_record
    rebuild_record_steps rec accepted errors parsed marked truth score c m t s =
        rw c (rw m (rw t (rw s refl)))

    rebuild_record-score_response :
        (aid : Json) (user raw : Text) (failed : Bool) (r : ScoreRow) (rec : AuditRecord)
        → score_response ground aid user raw failed ≡ ok (r, rec)
        → rec.parse_status ≢ call_error
        → rebuild_record ground rec ≡ ok r
    unfolding score_response
    rebuild_record-score_response aid user raw failed r rec h answered' =
        after_ok (validate_output (parse_response raw)) h (λ (accepted, errors, parsed) checked h1.
          after_ok (with_marks aid parsed) h1 (λ marked m h2.
            after_ok (ground_truth_of ground aid) h2 (λ truth t h3.
              after_ok (score_alert truth (obj marked)) h3 (λ score s h4.
                let same = ok-injective h4 in
                let status : rec.parse_status ≡ status_of failed accepted parsed =
                  ap (λ x. x.1.parse_status) (sym same) in
                let valid' =
                  valid_of_marked (parse_response raw) aid parsed failed accepted errors marked
                    checked m (λ e. answered' (status ∙ e)) in
                ap (rebuild_record ground) (ap (λ x. x.1) (sym same))
                ∙ rebuild_record_steps _ accepted errors parsed marked truth score checked m t s
                ∙ ap (λ b. ok (row aid truth marked score b)) (sym valid')
                ∙ ap (λ x. ok x.0) same))))

    rebuild_cons :
        (rec : AuditRecord) (recs : List AuditRecord) (r : ScoreRow) (rs : List ScoreRow)
        → rebuild_record ground rec ≡ ok r
        → rebuild ground recs ≡ ok rs
        → rebuild ground (rec ∷ recs) ≡ ok (r ∷ rs)
    unfolding rebuild
    rebuild_cons rec recs r rs e es = rw e (rw es refl)

    module _ (view : Text) (call : Text → Reply) where
      run_alert-rebuild :
          (a : Fields) (r : ScoreRow) (rec : AuditRecord)
          → run_alert ground view call a ≡ ok (r, rec)
          → rec.parse_status ≢ call_error
          → rebuild_record ground rec ≡ ok r
      unfolding run_alert
      run_alert-rebuild a r rec h n =
          after_ok (alert_id_of a) h
            (λ aid _ h'. rebuild_record-score_response aid _ _ _ r rec h' n)

      -- The rebuild of the audit log of a run in which every call was answered yields the score rows of
      -- the run, the validity and the validity-gated result in them too.
      pub rebuild-run_alerts :
          (alerts : List Fields) (rows : List ScoreRow) (audit : List AuditRecord)
          → run_alerts ground view call alerts ≡ ok (rows, audit)
          → AllAnswered audit
          → rebuild ground audit ≡ ok rows
      unfolding run_alerts rebuild AllAnswered
      rebuild-run_alerts [] rows audit h n =
          let same = ok-injective h in
          ap (rebuild ground) (ap (λ x. x.1) (sym same)) ∙ ap (λ x. ok x.0) same
      rebuild-run_alerts (a ∷ alerts) rows audit h n =
          after_ok (run_alert ground view call a) h (λ (r, rec) one' h'.
            after_ok (run_alerts ground view call alerts) h' (λ (rs, recs) more h''.
              let same = ok-injective h'' in
              let (first, rest) : AllAnswered (rec ∷ recs) =
                subst AllAnswered (ap (λ x. x.1) (sym same)) n in
              ap (rebuild ground) (ap (λ x. x.1) (sym same))
              ∙ rebuild_cons rec recs r rs (run_alert-rebuild a r rec one' first)
                  (rebuild-run_alerts alerts rs recs more rest)
              ∙ ap (λ x. ok x.0) same))
