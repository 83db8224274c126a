-- ===== src/Regex/Sound.antt =====
-- The matcher against what a pattern means: a relation between the places of a text.
use native.Mathlib.Nat.{le_refl}
use alertmind.Prelude.{
  ℕ, zero, suc, ◌≤◌, ◌<◌, ◌≡◌, refl, sym, ap, ◌∙◌, ◌⊎◌, inl, inr, ◌↔◌, Bool, true, false, List, [],
  ◌∷◌, some, arith, length, Bool-cases,
}
use alertmind.Text.{Text}
use alertmind.Platform.{Platform}
use alertmind.Regex.{
  Re, empty, edge, start, finish, one, seq, alt, star, lazy, group, Cursor, consumed, step_one,
  each_from, longer, loop, ends, capture, only_if,
}
use alertmind.Regex.Meaning.{
  In, In-append, swap, In-concat, Matches, m_empty, m_edge, m_start, m_finish, m_one, m_seq, m_left,
  m_right, star_end, star_more, lazy_end, lazy_more, m_group, each_from-In, In-each_from, longer-In,
  In-longer,
}

-- Rounds of a loop that each read something.
data Chain (f : Cursor → List Cursor) : Cursor → Cursor → Type 0 where
  done : {c d : Cursor} → d ≡ c → Chain f c d
  more : {c d e : Cursor} → In d (f c) → length d.rest < length c.rest → Chain f d e → Chain f c e

module _ (f : Cursor → List Cursor) (greedy : Bool) where
  loop-suc :
      (n : ℕ) (c e : Cursor)
      → In e (loop f greedy (suc n) c)
        ↔ (In e (each_from (loop f greedy n) (longer c (f c))) ⊎ (e ≡ c))
  unfolding loop
  loop-suc n c e = elim (Bool-cases greedy) [
    | inl g ↦ rw (g, loop) (In-concat e c _)
    | inr g ↦ rw (g, loop) (swap, swap)
  ]

  loop_sound : (n : ℕ) (c e : Cursor) → In e (loop f greedy n c) → Chain f c e
  unfolding loop
  loop_sound zero c e (inl same) = done same
  loop_sound zero c e (inr h) = absurd h
  loop_sound (suc n) c e h = elim ((loop-suc n c e).0 h) [
    | inr same ↦ done same
    | inl k ↦
        let (d, l, m) = each_from-In (loop f greedy n) (longer c (f c)) e k in
        let (q, shorter) = longer-In c (f c) d l in more q shorter (loop_sound n d e m)
  ]

  loop_complete :
      {c e : Cursor} (n : ℕ) → Chain f c e → length c.rest ≤ n → In e (loop f greedy n c)
  loop_complete zero (done same) h = unfold loop in inl same
  loop_complete {c} {e} (suc n) (done same) h = (loop-suc n c e).1 (inr same)
  loop_complete zero (more q shorter k) h = absurd (omega arith)
  loop_complete {c} {e} (suc n) (more {d} q shorter k) h = (loop-suc n c e).1 (
      inl (
        In-each_from (loop f greedy n) (longer c (f c)) d e (In-longer c (f c) d q shorter)
          (loop_complete n k (omega arith))))

module _ ⦃p : Platform⦄ where
  Chain-star :
      (r : Re) {c e : Cursor}
      → ((d x : Cursor) → In x (ends r d) → Matches r d x)
      → Chain (ends r) c e
      → Matches (star r) c e
  Chain-star r ih (done same) = star_end same
  Chain-star r ih (more {c} {d} q shorter k) = star_more (ih c d q) shorter (Chain-star r ih k)

  Chain-lazy :
      (r : Re) {c e : Cursor}
      → ((d x : Cursor) → In x (ends r d) → Matches r d x)
      → Chain (ends r) c e
      → Matches (lazy r) c e
  Chain-lazy r ih (done same) = lazy_end same
  Chain-lazy r ih (more {c} {d} q shorter k) = lazy_more (ih c d q) shorter (Chain-lazy r ih k)

  capture-In :
      (c : Cursor) (ds : List Cursor) (e : Cursor)
      → In e (capture c ds) ↔ ((d : Cursor) × In d ds × (e ≡ record d { captured = consumed c d }))
  capture-In c [] e = (λ h. absurd h, λ (d, h, _). absurd h)
  capture-In c (x ∷ ds) e = (
    λ h. elim h [
      | inl same ↦ (x, inl refl, same)
      | inr k ↦ let (d, l, m) = (capture-In c ds e).0 k in (d, inr l, m)
    ],
    λ (d, h, same). elim h [
      | inl here ↦ inl (same ∙ ap (λ (y : Cursor). record y { captured = consumed c y }) here)
      | inr k ↦ inr ((capture-In c ds e).1 (d, k, same))
    ],
  )

  only_if-In : (b : Bool) (c e : Cursor) → In e (only_if b c) → (b ≡ true) × (e ≡ c)
  only_if-In true c e (inl h) = (refl, h)
  only_if-In true c e (inr h) = absurd h
  only_if-In false c e h = absurd h

  step_one_sound :
      (test : ℕ → Bool) (c e : Cursor) → In e (step_one test c c.rest) → Matches (one test) c e
  step_one_sound test c e h = go c.rest refl h
    where
      go : (s : Text) → c.rest ≡ s → In e (step_one test c s) → Matches (one test) c e
      go [] same k = absurd k
      go (x ∷ s) same k =
          let (t, q) =
            only_if-In (test x) (record { before = some x; rest = s; captured = c.captured }) e k in
          m_one x (same ∙ ap (λ (y : Cursor). x ∷ y.rest) (sym q)) t
            (ap (λ (y : Cursor). y.before) q) (ap (λ (y : Cursor). y.captured) q)

  ends_sound : (r : Re) (c e : Cursor) → In e (ends r c) → Matches r c e
  unfolding ends
  ends_sound empty c e (inl h) = m_empty h
  ends_sound empty c e (inr h) = absurd h
  ends_sound edge c e h = let (t, k) = only_if-In _ c e h in m_edge t k
  ends_sound start c e h = let (t, k) = only_if-In _ c e h in m_start (ground arith) k
  ends_sound finish c e h = let (t, k) = only_if-In _ c e h in m_finish t k
  ends_sound (one test) c e h = step_one_sound test c e h
  ends_sound (seq r s) c e h =
      let (d, k, l) = each_from-In (ends s) (ends r c) e h in
      m_seq (ends_sound r c d k) (ends_sound s d e l)
  ends_sound (alt r s) c e h = elim ((In-append e (ends r c) _).0 h) [
    | inl l ↦ m_left (ends_sound r c e l)
    | inr l ↦ m_right (ends_sound s c e l)
  ]
  ends_sound (star r) c e h =
      Chain-star r (ends_sound r) (loop_sound (ends r) true (length c.rest) c e h)
  ends_sound (lazy r) c e h =
      Chain-lazy r (ends_sound r) (loop_sound (ends r) false (length c.rest) c e h)
  ends_sound (group r) c e h =
      let (d, k, same) = (capture-In c (ends r c) e).0 h in m_group (ends_sound r c d k) same

  only_if_complete : (b : Bool) (c e : Cursor) → b ≡ true → e ≡ c → In e (only_if b c)
  only_if_complete true c e _ same = inl same
  only_if_complete false c e h _ = cc

  -- What a derivation gives: the rounds of a loop, or an end in the list.
  abbrev Ends : Re → Cursor → Cursor → Type 0
  Ends (star r) c e = Chain (ends r) c e
  Ends (lazy r) c e = Chain (ends r) c e
  Ends r c e = In e (ends r c)

  In-of_Ends : (r : Re) (c e : Cursor) → Ends r c e → In e (ends r c)
  unfolding ends
  In-of_Ends (star r) c e k = loop_complete (ends r) true (length c.rest) k (le_refl _)
  In-of_Ends (lazy r) c e k = loop_complete (ends r) false (length c.rest) k (le_refl _)
  In-of_Ends empty c e k = k
  In-of_Ends _ c e k = k

  step_one_complete :
      (test : ℕ → Bool) (c e : Cursor) (s : Text) (x : ℕ)
      → s ≡ x ∷ e.rest
      → test x ≡ true
      → e.before ≡ some x
      → e.captured ≡ c.captured
      → In e (step_one test c s)
  step_one_complete test c e s x same t b k = rw same (
      only_if_complete (test x) (record { before = some x; rest = e.rest; captured = c.captured }) e
        t (λ i. record { before = b i; rest = e.rest; captured = k i }))

  Ends-complete : {r : Re} {c e : Cursor} → Matches r c e → Ends r c e
  unfolding ends
  Ends-complete (m_empty same) = inl same
  Ends-complete (m_edge {c} {d} t same) = only_if_complete _ c d t same
  Ends-complete (m_start {c} {d} t same) = only_if_complete _ c d (rw t) same
  Ends-complete (m_finish {c} {d} t same) = only_if_complete _ c d t same
  Ends-complete (m_one {test} {c} {d} x same t b k) = step_one_complete test c d c.rest x same t b k
  Ends-complete (m_seq {r} {s} {c} {d} {e} m n) =
      In-each_from (ends s) (ends r c) d e (In-of_Ends r c d (Ends-complete m))
        (In-of_Ends s d e (Ends-complete n))
  Ends-complete (m_left {r} {s} {c} {d} m) =
      (In-append d (ends r c) _).1 (inl (In-of_Ends r c d (Ends-complete m)))
  Ends-complete (m_right {r} {s} {c} {d} m) =
      (In-append d (ends r c) _).1 (inr (In-of_Ends s c d (Ends-complete m)))
  Ends-complete (star_end same) = done same
  Ends-complete (star_more {r} {c} {d} m shorter k) =
      more (In-of_Ends r c d (Ends-complete m)) shorter (Ends-complete k)
  Ends-complete (lazy_end same) = done same
  Ends-complete (lazy_more {r} {c} {d} m shorter k) =
      more (In-of_Ends r c d (Ends-complete m)) shorter (Ends-complete k)
  Ends-complete (m_group {r} {c} {d} {e} m same) =
      (capture-In c (ends r c) e).1 (d, In-of_Ends r c d (Ends-complete m), same)

  -- The matcher lists exactly the places that the pattern reads to.
  pub ends_iff : (r : Re) (c e : Cursor) → In e (ends r c) ↔ Matches r c e
  ends_iff r c e = (ends_sound r c e, λ m. In-of_Ends r c e (Ends-complete m))
