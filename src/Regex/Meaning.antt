-- ===== src/Regex/Meaning.antt =====
-- What a pattern means, a relation between the places of a text, and which places the lists of the
-- matcher hold.
use alertmind.Prelude.{
  ℕ, ◌<◌, ◌≡◌, refl, subst, ◌⊎◌, inl, inr, ◌↔◌, Bool, true, List, [], ◌∷◌, ◌++◌, none, some, length,
  ltb, ltb→lt, lt→ltb, Bool-cases,
}
use alertmind.Platform.{Platform}
use alertmind.Regex.{
  Re, empty, edge, start, finish, one, seq, alt, star, lazy, group, Cursor, consumed, each_from,
  longer, at_edge, at_finish,
}

module _ {A : Type 0} where
  abbrev pub In : A → List A → Type 0
  In a [] = ⊥
  In a (x ∷ xs) = (a ≡ x) ⊎ In a xs

  pub In-append : (a : A) (xs ys : List A) → In a (xs ++ ys) ↔ (In a xs ⊎ In a ys)
  In-append a [] ys = (inr, λ h. elim h [ inl e ↦ absurd e | inr k ↦ k ])
  In-append a (x ∷ xs) ys = (
    λ h. elim h [
      | inl e ↦ inl (inl e)
      | inr k ↦ elim ((In-append a xs ys).0 k) [ inl l ↦ inl (inr l) | inr r ↦ inr r ]
    ],
    λ h. elim h [
      | inl (inl e) ↦ inl e
      | inl (inr l) ↦ inr ((In-append a xs ys).1 (inl l))
      | inr r ↦ inr ((In-append a xs ys).1 (inr r))
    ],
  )

pub swap {ℓ κ} : {A : Type ℓ} {B : Type κ} → A ⊎ B → B ⊎ A
swap (inl a) = inr a
swap (inr b) = inl b

pub In-concat : {A : Type 0} (a b : A) (xs : List A) → In a (xs ++ b ∷ []) ↔ (In a xs ⊎ (a ≡ b))
In-concat a b xs = (
  λ h. elim ((In-append a xs (b ∷ [])).0 h) [
    | inl l ↦ inl l
    | inr (inl e) ↦ inr e
    | inr (inr k) ↦ absurd k
  ],
  λ h. elim h [
    | inl l ↦ (In-append a xs (b ∷ [])).1 (inl l)
    | inr e ↦ (In-append a xs (b ∷ [])).1 (inr (inl e))
  ],
)

module _ ⦃p : Platform⦄ where
  -- What a pattern reads from one place to another.
  pub data Matches : Re → Cursor → Cursor → Type 0 where
    m_empty : {c d : Cursor} → d ≡ c → Matches empty c d
    m_edge : {c d : Cursor} → at_edge c ≡ true → d ≡ c → Matches edge c d
    m_start : {c d : Cursor} → c.before ≡ none → d ≡ c → Matches start c d
    m_finish : {c d : Cursor} → at_finish c.rest ≡ true → d ≡ c → Matches finish c d
    m_one :
        {test : ℕ → Bool} {c d : Cursor} (x : ℕ)
        → c.rest ≡ x ∷ d.rest
        → test x ≡ true
        → d.before ≡ some x
        → d.captured ≡ c.captured
        → Matches (one test) c d
    m_seq : {r s : Re} {c d e : Cursor} → Matches r c d → Matches s d e → Matches (seq r s) c e
    m_left : {r s : Re} {c d : Cursor} → Matches r c d → Matches (alt r s) c d
    m_right : {r s : Re} {c d : Cursor} → Matches s c d → Matches (alt r s) c d
    star_end : {r : Re} {c d : Cursor} → d ≡ c → Matches (star r) c d
    star_more :
        {r : Re} {c d e : Cursor}
        → Matches r c d
        → length d.rest < length c.rest
        → Matches (star r) d e
        → Matches (star r) c e
    lazy_end : {r : Re} {c d : Cursor} → d ≡ c → Matches (lazy r) c d
    lazy_more :
        {r : Re} {c d e : Cursor}
        → Matches r c d
        → length d.rest < length c.rest
        → Matches (lazy r) d e
        → Matches (lazy r) c e
    m_group :
        {r : Re} {c d e : Cursor}
        → Matches r c d
        → e ≡ record d { captured = consumed c d }
        → Matches (group r) c e

pub each_from-In :
    (f : Cursor → List Cursor) (cs : List Cursor) (e : Cursor)
    → In e (each_from f cs)
    → (d : Cursor) × In d cs × In e (f d)
unfolding each_from
each_from-In f [] e h = absurd h
each_from-In f (c ∷ cs) e h = elim ((In-append e (f c) _).0 h) [
  | inl here ↦ (c, inl refl, here)
  | inr later ↦ let (d, k, l) = each_from-In f cs e later in (d, inr k, l)
]

pub In-each_from :
    (f : Cursor → List Cursor) (cs : List Cursor) (d e : Cursor)
    → In d cs
    → In e (f d)
    → In e (each_from f cs)
unfolding each_from
In-each_from f [] d e h k = absurd h
In-each_from f (c ∷ cs) d e (inl same) k =
    (In-append e (f c) _).1 (inl (subst (λ x. In e (f x)) same k))
In-each_from f (c ∷ cs) d e (inr later) k =
    (In-append e (f c) _).1 (inr (In-each_from f cs d e later k))

pub longer-In :
    (c : Cursor) (ds : List Cursor) (d : Cursor)
    → In d (longer c ds)
    → In d ds × (length d.rest < length c.rest)
longer-In c [] d h = absurd h
longer-In c (x ∷ ds) d h = elim (Bool-cases (ltb (length x.rest) (length c.rest))) [
  | inr t ↦ let (k, l) = longer-In c ds d (rw t at h) in (inr k, l)
  | inl t ↦ from (longer-In c ds d) (rw t at h) (ltb→lt _ _ t)
]
  where
    from :
        (In d (longer c ds) → In d ds × (length d.rest < length c.rest))
        → In d (x ∷ longer c ds)
        → length x.rest < length c.rest
        → In d (x ∷ ds) × (length d.rest < length c.rest)
    from ih (inl e) l = (inl e, rw e l)
    from ih (inr k) l = let (m, n) = ih k in (inr m, n)

pub In-longer :
    (c : Cursor) (ds : List Cursor) (d : Cursor)
    → In d ds
    → length d.rest < length c.rest
    → In d (longer c ds)
In-longer c [] d h l = absurd h
In-longer c (x ∷ ds) d (inl e) l =
    let t : ltb (length x.rest) (length c.rest) ≡ true = lt→ltb _ _ (rw (← e) l) in rw t (inl e)
In-longer c (x ∷ ds) d (inr k) l = elim (Bool-cases (ltb (length x.rest) (length c.rest))) [
  | inl t ↦ rw t (inr (In-longer c ds d k l))
  | inr t ↦ rw t (In-longer c ds d k l)
]
