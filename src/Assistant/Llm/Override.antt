-- ===== src/Assistant/Llm/Override.antt =====
-- llm.py: `timeout_override`, the context manager around a block of calls.
use alertmind.Prelude.{ℤ, pos, false, ◌≡◌, refl, Option, none, some, if◌then◌else◌}
use alertmind.Platform.{Platform}
use alertmind.Assistant.Llm.Error.{bad_override, Outcome, done, failed}
use alertmind.Assistant.Llm.Settings.{Settings, int_lt, timeout_seconds}

-- What stands in front of the `try`: the callers give an `int`, or `None`.
unfoldable pub enter : Option ℤ → Settings → Outcome Settings
enter none s = done s
enter (some seconds) s =
    if int_lt seconds (pos 1)
    then failed bad_override
    else done (record s { timeout_override = some seconds })

module _ {R : Type 0} ⦃p : Platform⦄ (body : ℤ → Settings → Outcome R × Settings) where
  -- `try: yield _timeout_seconds()`, and the globals behind the block
  unfoldable pub yielded : Settings → Outcome ℤ → Outcome R × Settings
  yielded s (failed e) = (failed e, s)
  yielded s (done seconds) = body seconds s

  -- `finally: _TIMEOUT_OVERRIDE = previous`
  unfoldable pub leave : Option ℤ → Outcome R × Settings → Outcome R × Settings
  leave previous (result, s) = (result, record s { timeout_override = previous })

  unfoldable pub entered : Option ℤ → Settings → Outcome Settings → Outcome R × Settings
  entered previous s (failed e) = (failed e, s)
  entered previous s (done inside) = leave previous (yielded inside (timeout_seconds inside))

  unfoldable pub timeout_override : Option ℤ → Settings → Outcome R × Settings
  timeout_override seconds s = entered s.timeout_override s (enter seconds s)

  leave-restored :
      (previous : Option ℤ) (out : Outcome R × Settings)
      → (leave previous out).1.timeout_override ≡ previous
  unfolding leave
  leave-restored previous (result, s) = refl

  entered-restored :
      (s : Settings) (o : Outcome Settings)
      → (entered s.timeout_override s o).1.timeout_override ≡ s.timeout_override
  unfolding entered
  entered-restored s (failed e) = refl
  entered-restored s (done inside) =
      leave-restored s.timeout_override (yielded inside (timeout_seconds inside))

  leave-result : (previous : Option ℤ) (out : Outcome R × Settings) → (leave previous out).0 ≡ out.0
  unfolding leave
  leave-result previous (result, s) = refl

  entered-runs :
      (n : ℤ) (s : Settings)
      → int_lt n (pos 1) ≡ false
      → (entered s.timeout_override s (enter (some n) s)).0
        ≡ (body n (record s { timeout_override = some n })).0
  unfolding entered enter yielded timeout_seconds
  entered-runs n s valid = rw valid (leave-result s.timeout_override _)

  -- Whether the block returns, raises or is not reached, the override is what it was before, and a
  -- block that is reached with a time of its own runs under that time.
  pub timeout_override-restores :
      (seconds : Option ℤ) (s : Settings)
      → ((timeout_override seconds s).1.timeout_override ≡ s.timeout_override)
        × ((n : ℤ)
            → seconds ≡ some n
            → int_lt n (pos 1) ≡ false
            → (timeout_override seconds s).0 ≡ (body n (record s { timeout_override = some n })).0)
  unfolding timeout_override
  timeout_override-restores seconds s =
      (entered-restored s (enter seconds s), λ n e valid. rw e (entered-runs n s valid))
