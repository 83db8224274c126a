-- ===== src/Broker/Service/Rounds.antt =====
-- The rounds in which `_query` of operator_service.py reads the pipe of its child are enough.
use alertmind.Prelude.{
  ℕ, zero, suc, ◌+◌, ◌-◌, ◌≤◌, ◌≡◌, refl, min, Bool, true, false, String, List, [], ◌∷◌, ◌++◌,
  length, length-append, leb, leb→le, arith,
}
use alertmind.Platform.{Bytes}
use alertmind.Broker.Os.{
  Os, Call, Ran, value, threw, Io, continue, ◌>>◌, demand, do_read, do_select,
}
use alertmind.Broker.Files.Trust.{chunk_size}
use alertmind.Broker.Service.Properties.{max_reply}
use alertmind.Broker.Service.Query.{after_part, pipe_loop}

-- Two continuations that agree come to the same end.
continued {ℓ κ} :
    {A : Type ℓ} {B : Type κ} (f g : A → Io B) (out : Ran A × List Call)
    → ((a : A) (log : List Call) → f a log ≡ g a log)
    → continue f out ≡ continue g out
continued f g (value a, log) h = h a log
continued f g (threw e, log) h = refl

-- So do two rests under a condition.
demands {ℓ} :
    {B : Type ℓ} (t : Bool) (f g : Io B) (code : String) (log : List Call)
    → (t ≡ true → (l : List Call) → f l ≡ g l)
    → (demand t code >> f) log ≡ (demand t code >> g) log
unfolding demand
demands true f g code log h = h refl log
demands false f g code log h = refl

module _ (os : Os) (fd : ℕ) where
  parts :
      (f g : Bytes → Io Bytes) (raw chunk : Bytes) (log : List Call)
      → ((c : ℕ) (more : Bytes)
          → leb (length (raw ++ c ∷ more)) max_reply ≡ true
          → (l : List Call) → f (raw ++ c ∷ more) l ≡ g (raw ++ c ∷ more) l)
      → after_part f raw chunk log ≡ after_part g raw chunk log
  parts f g raw [] log h = refl
  parts f g raw (c ∷ more) log h = demands _ _ _ "SERVICE_SIZE" log (h c more)

  more_rounds :
      (rounds m : ℕ) (raw : Bytes) (log : List Call)
      → length raw ≤ max_reply
      → suc max_reply ≤ length raw + rounds
      → rounds ≤ m
      → pipe_loop os fd m raw log ≡ pipe_loop os fd rounds raw log
  unfolding pipe_loop
  more_rounds zero m raw log fits h le = absurd (none_left (length raw) fits h)
    where
      none_left : (n : ℕ) → n ≤ max_reply → suc max_reply ≤ n + 0 → ⊥
      none_left n fits h = omega arith
  more_rounds (suc rounds) zero raw log fits h le = absurd (none_below rounds le)
    where
      none_below : (n : ℕ) → suc n ≤ 0 → ⊥
      none_below n h = omega arith
  more_rounds (suc rounds) (suc m) raw log fits h le =
      continued _ _ (do_select os fd log) (λ ready l1.
        demands ready _ _ "SERVICE_TIMEOUT" l1 (λ _ l2.
          continued _ _ (do_read os fd (min chunk_size (max_reply + 1 - length raw)) l2)
            (λ chunk l3.
              parts (λ more. pipe_loop os fd m more) (λ more. pipe_loop os fd rounds more) raw chunk
                l3
                (λ c more fits' l4.
                  let longer = length-append raw (c ∷ more) in
                  more_rounds rounds m (raw ++ c ∷ more) l4 (leb→le _ _ fits') (omega arith)
                    (omega arith)))))

  -- With more rounds than it is given the read of the pipe does the same calls and comes to the same
  -- end.
  pipe_loop-enough :
      (m : ℕ) (log : List Call)
      → max_reply + 2 ≤ m
      → pipe_loop os fd m [] log ≡ pipe_loop os fd (max_reply + 2) [] log
  pipe_loop-enough m log h = more_rounds (max_reply + 2) m [] log (omega arith) (omega arith) h
