-- ===== src/Broker/Files/Bounds.antt =====
-- How much a bounded read of operator_fs.py reads, and that its loop runs to its end.
use alertmind.Prelude.{
  ℕ, zero, suc, ◌+◌, ◌-◌, ◌≤◌, ◌≡◌, refl, Bool, true, false, ◌&&◌, ◌||◌, List, [], ◌∷◌, ◌++◌,
  length, length-append, all, leb, ltb, leb→le, subst, min, Bool-cases, inl, inr, arith,
}
use alertmind.Text.{Text}
use alertmind.Platform.{Bytes}
use alertmind.Broker.Os.{
  Os, Call, Stat, Ran, value, threw, Io, continue, do_fstat, do_stat, do_read, with_root, with_open,
}
use alertmind.Broker.Os.After.{after_value, after_demand, after_lift, after_opened, value-injective}
use alertmind.Broker.Files.Trust.{
  Owner, chunk_size, max_read, is_component, check_components, check_bound, check_trusted,
}
use alertmind.Broker.Files.Frame.{third}
use alertmind.Broker.Files.{
  Record, after_chunk, read_loop, read_all, recheck, read_file, open_part, walk_parts, read_at,
  read_root,
}

module _ (os : Os) (fd limit : ℕ) where
  Agree : (Bytes → Io Bytes) → (Bytes → Io Bytes) → Bytes → Type 0
  Agree f g raw =
      (c : ℕ) (more : Bytes) (log : List Call) → f (raw ++ c ∷ more) log ≡ g (raw ++ c ∷ more) log

  chunks :
      (f g : Bytes → Io Bytes) (raw : Bytes) (out : Ran Bytes × List Call)
      → Agree f g raw
      → continue (after_chunk f raw) out ≡ continue (after_chunk g raw) out
  unfolding Agree
  chunks f g raw (value [], log) h = refl
  chunks f g raw (value (c ∷ more), log) h = h c more log
  chunks f g raw (threw e, log) h = refl

  more_rounds :
      (rounds m : ℕ) (raw : Bytes) (log : List Call)
      → limit + 1 ≤ length raw + rounds
      → rounds ≤ m
      → read_loop os fd limit m raw log ≡ read_loop os fd limit rounds raw log
  unfolding read_loop Agree
  more_rounds zero zero raw log h le = refl
  more_rounds zero (suc m) raw log h le = let full = exhausted (length raw) h in rw full refl
    where
      exhausted : (n : ℕ) → limit + 1 ≤ n + 0 → leb n limit ≡ false
      exhausted n h = ground arith
  more_rounds (suc rounds) zero raw log h le = absurd (none_below rounds le)
    where
      none_below : (n : ℕ) → suc n ≤ 0 → ⊥
      none_below n h = omega arith
  more_rounds (suc rounds) (suc m) raw log h le = elim (Bool-cases (leb (length raw) limit)) [
    | inl room ↦ rw room (
        chunks (λ more. read_loop os fd limit m more) (λ more. read_loop os fd limit rounds more)
          raw (do_read os fd (min chunk_size (limit + 1 - length raw)) log)
          (λ c more log'.
            let longer = length-append raw (c ∷ more) in
            more_rounds rounds m (raw ++ c ∷ more) log' (omega arith) (omega arith)))
    | inr full ↦ rw full refl
  ]

  -- The rounds that a bounded read is given are enough: with more of them it does the same calls
  -- and comes to the same end.
  pub read_loop-read_all :
      (m : ℕ) (log : List Call)
      → suc limit ≤ m
      → read_loop os fd limit m [] log ≡ read_all os fd limit log
  unfolding read_all
  read_loop-read_all m log h = more_rounds (suc limit) m [] log (omega arith) h

module _ (os : Os) (limit : ℕ) (owners_for : List Text → Io (List Owner)) (root : ℕ)
    (root_before : Stat) where
  Fits : Bytes → Type 0
  Fits raw = length raw ≤ limit

  read_file-Fits :
      (fd : ℕ) (before : Stat) (records : List Record) (raw : Bytes) (log : List Call)
      → (read_file os limit owners_for root root_before fd before records log).0 ≡ value raw
      → Fits raw
  unfolding read_file Fits
  read_file-Fits fd before records raw log h =
      after_value (read_all os fd limit) _ log h (λ whole l1 h1.
        after_demand _ _ _ l1 h1 (λ fits h2. after_value (recheck os records) _ l1 h2 (λ _ l2 h3.
          after_value (do_fstat os root) _ l2 h3 (λ root_now l3 h4.
            after_demand _ _ _ l3 h4 (λ _ h5.
              subst Fits (value-injective h5)
                (leb→le _ _ (left (leb (length whole) limit) _ fits)))))))
    where
      left : (a b : Bool) → a && b ≡ true → a ≡ true
      left true b h = refl
      left false b h = absurd (cc)

  open_part-Fits :
      (parent : ℕ) (above : List Text) (name : Text) (directory : Bool) (next : ℕ → Stat → Io Bytes)
      (raw : Bytes) (log : List Call)
      → ((fd : ℕ) (before : Stat) (l : List Call) → (next fd before l).0 ≡ value raw → Fits raw)
      → (open_part os limit owners_for root root_before parent above name directory next log).0
        ≡ value raw
      → Fits raw
  unfolding open_part check_trusted with_open
  open_part-Fits parent above name directory next raw log k h =
      after_value (owners_for _) _ log h (λ allowed l1 h1.
        after_value (do_stat os parent name) _ l1 h1 (λ before l2 h2.
          after_demand _ _ _ l2 h2 (λ _ h3. after_demand _ _ _ l2 h3 (λ _ h4.
            after_opened _ _ (os.open_at l2 parent name directory) _ l2 h4 (λ fd l3 h5.
              after_value (do_fstat os fd) _ l3 h5 (λ opened l4 h6.
                after_demand _ _ _ l4 h6
                  (λ _ h7. after_demand _ _ _ l4 h7 (λ _ h8. k fd before l4 h8))))))))

  walk_parts-Fits :
      (parent : ℕ) (above parts : List Text) (records : List Record) (raw : Bytes) (log : List Call)
      → (walk_parts os limit owners_for root root_before parent above parts records log).0
        ≡ value raw
      → Fits raw
  unfolding walk_parts
  walk_parts-Fits parent above [] records raw log h = absurd (cc)
  walk_parts-Fits parent above (name ∷ []) records raw log h =
      open_part-Fits parent above name false _ raw log
        (λ fd before l. read_file-Fits fd before _ raw l) h
  walk_parts-Fits parent above (name ∷ child ∷ below) records raw log h =
      open_part-Fits parent above name true _ raw log
        (λ fd before l. walk_parts-Fits fd _ (child ∷ below) _ raw l) h

module _ (os : Os) where
  -- A read of a file that succeeds returns at most the bytes it was allowed, which are never more
  -- than the limit of the adapter, and every component of the path had a safe name.
  pub read_root-bounds :
      (parts : List Text) (limit : ℕ) (owners_for : List Text → Io (List Owner)) (raw : Bytes)
      (log : List Call)
      → (read_root os parts limit owners_for log).0 ≡ value raw
      → (length raw ≤ limit) × (limit ≤ max_read) × (all is_component parts ≡ true)
  unfolding read_root read_at check_components check_bound with_root check_trusted Fits
  read_root-bounds parts limit owners_for raw log h = after_lift _ _ _ log h (λ safe h1.
      after_lift _ _ _ log h1 (λ bounded h2.
        after_opened _ _ (os.open_root log) _ log h2 (λ root l1 h3. after_lift _ _ _ l1 h3 (λ _ h4.
          after_lift _ _ _ l1 h4 (λ _ h5.
            after_value (do_fstat os root) _ l1 h5 (λ root_before l2 h6.
              after_value (owners_for []) _ l2 h6 (λ allowed l3 h7.
                after_demand _ _ _ l3 h7 (λ _ h8. (
                  walk_parts-Fits os limit owners_for root root_before root [] parts [] raw l3 h8,
                  leb→le _ _ bounded,
                  third (false || ltb 0 (length parts)) (leb (length parts) 128) _ safe,
                )))))))))
