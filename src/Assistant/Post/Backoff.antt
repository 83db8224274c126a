-- ===== src/Assistant/Post/Backoff.antt =====
-- Which attempt `_post` of llm.py settles on, and how long it waits before it.
use native.Mathlib.Numerals.{unary_clauses}
use alertmind.Prelude.{
  ℕ, zero, suc, ◌+◌, ◌*◌, ◌^◌, ◌≤◌, ◌<◌, ◌≡◌, ap, sym, ◌∙◌, ◌⊎◌, inl, inr, true, false, ◌&&◌, List,
  [], ◌∷◌, Bool-cases, ltb, ltb→lt, lt→ltb, length, sum, arith,
}
use alertmind.Assistant.Post.{Attempt, PostEnd, settle, is_transient, post_from, post}

-- Every attempt from the first to the last but one of `k` failed in a way that may pass.
TransientFrom : (ℕ → Attempt) → ℕ → ℕ → Type 0
TransientFrom net attempt k = (i : ℕ) → i < k → is_transient (net (attempt + i)) ≡ true

Settled : (ℕ → Attempt) → ℕ → ℕ → ℕ → PostEnd × List ℕ → Type 0
Settled net retries attempt delay out =
    (out.0 ≡ settle (net (attempt + length out.1)))
    × (attempt + length out.1 ≤ retries)
    × ((attempt + length out.1 ≡ retries) ⊎ (is_transient (net (attempt + length out.1)) ≡ false))
    × TransientFrom net attempt (length out.1)
    × (sum out.1 + delay ≡ delay * 2 ^ length out.1)

doubled : (d k : ℕ) → d * 2 * 2 ^ k ≡ d * 2 ^ suc k
doubled d k = simp unary_clauses (grind arith)

module _ (net : ℕ → Attempt) (retries : ℕ) where
  none_below : (i : ℕ) → i < 0 → ⊥
  none_below i h = omega arith

  stop :
      (attempt delay : ℕ)
      → attempt ≤ retries
      → (attempt ≡ retries) ⊎ (is_transient (net attempt) ≡ false)
      → Settled net retries attempt delay (settle (net attempt), [])
  unfolding Settled TransientFrom
  stop attempt delay le last =
      let same : attempt + 0 ≡ attempt = omega arith in
      (
        ap (λ x. settle (net x)) (sym same),
        omega arith,
        elim last [
          | inl e ↦ inl (omega arith)
          | inr n ↦ inr (ap (λ x. is_transient (net x)) same ∙ n)
        ],
        λ i h. absurd (none_below i h),
        omega arith,
      )

  again :
      (attempt delay : ℕ) (out : PostEnd × List ℕ)
      → is_transient (net attempt) ≡ true
      → Settled net retries (suc attempt) (delay * 2) out
      → Settled net retries attempt delay (out.0, delay ∷ out.1)
  unfolding Settled TransientFrom
  again attempt delay (end', slept) here (e, le, last, before, waited) =
      let shift : suc attempt + length slept ≡ attempt + suc (length slept) = omega arith in
      (
        e ∙ ap (λ x. settle (net x)) shift,
        omega arith,
        elim last [
          | inl n ↦ inl (omega arith)
          | inr n ↦ inr (ap (λ x. is_transient (net x)) (sym shift) ∙ n)
        ],
        earlier,
        omega (arith, doubled delay (length slept)),
      )
    where
      earlier : (i : ℕ) → i < suc (length slept) → is_transient (net (attempt + i)) ≡ true
      earlier zero h = ap (λ x. is_transient (net x)) (omega arith) ∙ here
      earlier (suc j) h = ap (λ x. is_transient (net x)) (omega arith) ∙ before j (omega arith)

  from_zero : (n : ℕ) → 0 + n ≡ n
  from_zero n = omega arith

  not_below : (attempt : ℕ) → ltb attempt retries ≡ true → attempt ≡ retries → ⊥
  not_below attempt h e = let lt = ltb→lt attempt retries h in omega arith

  post_from-Settled :
      (fuel attempt delay : ℕ)
      → attempt + fuel ≡ retries
      → Settled net retries attempt delay (post_from net retries (suc fuel) attempt delay)
  unfolding post_from
  post_from-Settled zero attempt delay h =
      elim (Bool-cases (is_transient (net attempt) && ltb attempt retries)) [
        | inl both ↦ absurd (not_below attempt (ground arith) (omega arith))
        | inr settled ↦ rw settled (stop attempt delay (omega arith) (inl (omega arith)))
      ]
  post_from-Settled (suc fuel) attempt delay h =
      elim (Bool-cases (is_transient (net attempt) && ltb attempt retries)) [
        | inl both ↦ rw both (
            again attempt delay (post_from net retries (suc fuel) (suc attempt) (delay * 2))
              (ground arith) (post_from-Settled fuel (suc attempt) (delay * 2) (omega arith)))
        | inr settled ↦
            let room : ltb attempt retries ≡ true = lt→ltb attempt retries (omega arith) in
            rw settled (stop attempt delay (omega arith) (inr (ground arith)))
      ]

  -- The loop always ends with what one attempt came to: the first one that is no passing failure, or
  -- the last one allowed. All attempts before it were passing failures, and the waits before it add
  -- up to `2 ^ k - 1` seconds for `k` of them.
  pub post-settle :
      ((post net retries).0 ≡ settle (net (length (post net retries).1)))
      × (length (post net retries).1 ≤ retries)
      × ((length (post net retries).1 ≡ retries)
          ⊎ (is_transient (net (length (post net retries).1)) ≡ false))
      × ((i : ℕ) → i < length (post net retries).1 → is_transient (net i) ≡ true)
      × (sum (post net retries).1 + 1 ≡ 2 ^ length (post net retries).1)
  unfolding post Settled TransientFrom
  post-settle =
      let (e, le, last, before, waited) = post_from-Settled retries 0 1 (omega arith) in
      (
        e ∙ ap (λ x. settle (net x)) (from_zero _),
        omega arith,
        elim last [
          | inl n ↦ inl (omega arith)
          | inr n ↦ inr (ap (λ x. is_transient (net x)) (sym (from_zero _)) ∙ n)
        ],
        λ i h. ap (λ x. is_transient (net x)) (sym (from_zero i)) ∙ before i h,
        omega arith,
      )
