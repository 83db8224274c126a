-- ===== src/Assistant/Injection/Delimiter.antt =====
-- Where the delimiter rule of injection.py finds something, a delimiter stands.
use alertmind.Prelude.{
  ℕ, suc, ◌≡◌, refl, ap, sym, ◌∙◌, ◌⊎◌, inl, inr, Bool, true, false, ◌||◌, ◌&&◌, List, [], ◌∷◌,
  ◌++◌, Option, none, some, any, All, All-append, is_some, Bool-cases, nat_eq, nat_eq_iff, arith,
}
use alertmind.Text.{Text, text, text_eq, is_in}
use alertmind.Text.Laws.{is_in_of_starts_with, starts_with_append}
use alertmind.Platform.{Platform}
use alertmind.Regex.{
  Cursor, ends, each_from, lit, opt, match_at, start_from, find_start, head?, cursor, step_one,
}
use alertmind.Assistant.Injection.Rules.{Marker, markers, delimiter_break}
use alertmind.Assistant.Injection.{
  Hit, delim_open, delim_close, add_hit, scan_with, scan_text, is_break,
}

module _ ⦃p : Platform⦄ where
  -- The ends of a literal stand behind that literal.
  each_from-All :
      (Q : Cursor → Type 0) (f : Cursor → List Cursor) (cs : List Cursor)
      → All (λ e. All Q (f e)) cs
      → All Q (each_from f cs)
  unfolding each_from
  each_from-All Q f [] h = tt
  each_from-All Q f (c ∷ cs) (h, hs) = All-append Q (f c) _ h (each_from-All Q f cs hs)

  All-map :
      {P Q : Cursor → Type 0} (f : (e : Cursor) → P e → Q e) (cs : List Cursor)
      → All P cs
      → All Q cs
  All-map f [] h = tt
  All-map f (c ∷ cs) (h, hs) = (f c h, All-map f cs hs)

  one-reads : (x : ℕ) (c : Cursor) (s : Text) → All (λ e. s ≡ x ∷ e.rest) (step_one (nat_eq x) c s)
  one-reads x c [] = tt
  one-reads x c (y ∷ s) = elim (Bool-cases (nat_eq x y)) [
    | inl same ↦ rw same (ap (λ z. z ∷ s) (sym ((nat_eq_iff x y).0 same)), tt)
    | inr differ ↦ rw differ tt
  ]

  lit-reads : (t : Text) (c : Cursor) → All (λ e. c.rest ≡ t ++ e.rest) (ends (lit t) c)
  unfolding ends lit
  lit-reads [] c = (refl, tt)
  lit-reads (x ∷ []) c = one-reads x c c.rest
  lit-reads (x ∷ y ∷ t) c = each_from-All _ (ends (lit (y ∷ t))) (step_one (nat_eq x) c c.rest) (
      All-map (λ d h. All-map (λ e k. h ∙ ap (λ r. x ∷ r) k) _ (lit-reads (y ∷ t) d)) _
        (one-reads x c c.rest))

  -- Behind the pattern of a delimiter stands what followed one of the two.
  delimiter_break-reads :
      (c : Cursor)
      → All
          (λ e. (c.rest ≡ delim_open ++ e.rest) ⊎ (c.rest ≡ delim_close ++ e.rest))
          (ends delimiter_break c)
  unfolding delimiter_break delim_open delim_close ends text
  delimiter_break-reads c = each_from-All _ _ (ends (lit (text "<")) c) (
      All-map
        (λ d h. each_from-All _ (ends (lit (text "ALERT_DATA>"))) (ends (opt (lit (text "/"))) d) (
          All-append _ (step_one (nat_eq b'/') d d.rest) (d ∷ [])
            (All-map
              (λ e k.
                All-map (λ g l. inr (h ∙ ap (λ r. b'<' ∷ r) (k ∙ ap (λ r. b'/' ∷ r) l))) _
                  (lit-reads (text "ALERT_DATA>") e))
              _ (one-reads b'/' d d.rest))
            (
              All-map (λ g l. inl (h ∙ ap (λ r. b'<' ∷ r) l)) _ (lit-reads (text "ALERT_DATA>") d),
              tt,
            )))
        _ (lit-reads (text "<") c))

  unfoldable pub holds_delimiter : Text → Bool
  holds_delimiter s = is_in delim_open s || is_in delim_close s

  starts_of_read : (t s r : Text) → s ≡ t ++ r → is_in t s ≡ true
  starts_of_read t s r h = is_in_of_starts_with t s (rw h (starts_with_append t r))

  match_at-holds :
      (before : Option ℕ) (s : Text)
      → is_some (match_at delimiter_break before s) ≡ true
      → holds_delimiter s ≡ true
  unfolding match_at holds_delimiter
  match_at-holds before s h = first_one _ (delimiter_break-reads (cursor before s)) h
    where
      first_one :
          (cs : List Cursor)
          → All (λ e. (s ≡ delim_open ++ e.rest) ⊎ (s ≡ delim_close ++ e.rest)) cs
          → is_some (head? cs) ≡ true
          → (is_in delim_open s || is_in delim_close s) ≡ true
      first_one [] a k = cc
      first_one (e ∷ cs) (inl x, a) k = ground (arith, starts_of_read delim_open s e.rest x)
      first_one (e ∷ cs) (inr x, a) k = ground (arith, starts_of_read delim_close s e.rest x)

  holds-cons : (c : ℕ) (s : Text) → holds_delimiter s ≡ true → holds_delimiter (c ∷ s) ≡ true
  unfolding holds_delimiter is_in
  holds-cons c s h = ground arith

  start_from-holds :
      (at : ℕ) (before : Option ℕ) (s : Text)
      → is_some (start_from delimiter_break at before s) ≡ true
      → holds_delimiter s ≡ true
  unfolding start_from
  start_from-holds at before [] h = match_at-holds before [] (ground arith)
  start_from-holds at before (c ∷ s) h =
      elim (Bool-cases (is_some (match_at delimiter_break before (c ∷ s)))) [
        | inl here ↦ match_at-holds before (c ∷ s) here
        | inr later ↦ holds-cons c s (start_from-holds (suc at) (some c) s (ground arith))
      ]

  add_hit-breaks :
      (value path : Text) (m : Marker) (o : Option ℕ) (rest : List Hit)
      → any is_break (add_hit value path m o rest)
        ≡ (text_eq m.name (text "delimiter_break") && is_some o || any is_break rest)
  add_hit-breaks value path m none rest = ground arith
  add_hit-breaks value path m (some at) rest = ground arith

  -- Only the last rule reports a delimiter.
  scan_with-breaks :
      (ms : List Marker) (value path : Text)
      → any is_break (scan_with ms value path)
        ≡ any
            (λ m. text_eq m.name (text "delimiter_break") && is_some (find_start m.pattern value))
            ms
  unfolding scan_with
  scan_with-breaks [] value path = refl
  scan_with-breaks (m ∷ ms) value path =
      add_hit-breaks value path m (find_start m.pattern value) (scan_with ms value path)
      ∙ ap
          (λ x.
            text_eq m.name (text "delimiter_break") && is_some (find_start m.pattern value) || x)
          (scan_with-breaks ms value path)

  scan_text-breaks :
      (value path : Text)
      → any is_break (scan_text value path) ≡ is_some (find_start delimiter_break value)
  unfolding scan_text markers text_eq text
  scan_text-breaks value path = scan_with-breaks markers value path ∙ ground arith

  pub any-append : (a b : List Hit) → any is_break (a ++ b) ≡ (any is_break a || any is_break b)
  any-append [] b = refl
  any-append (h ∷ a) b = ground (arith, any-append a b)

  pub or_both :
      (x y m n m' n' : Bool)
      → (x ≡ true → (m || n) ≡ true)
      → (y ≡ true → (m' || n') ≡ true)
      → (x || y) ≡ true
      → ((m || m') || (n || n')) ≡ true
  or_both true y m n m' n' here later h = ground (arith, here refl)
  or_both false y m n m' n' here later h = ground (arith, later h)

  pub scan_text-holds :
      (value path : Text)
      → any is_break (scan_text value path) ≡ true
      → holds_delimiter value ≡ true
  unfolding find_start
  scan_text-holds value path h =
      start_from-holds 0 none value (sym (scan_text-breaks value path) ∙ h)
