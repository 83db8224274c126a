-- ===== src/Broker/Os/Balance.antt =====
-- The descriptors that a run opens and closes.
use alertmind.Prelude.{
  ℕ, ◌≡◌, refl, ◌∙◌, ap, Bool, true, false, List, [], ◌∷◌, String, nat_eq, nat_eq_iff,
  if◌then◌else◌,
}
use alertmind.Text.{Text}
use alertmind.Result.{Result, ok, err}
use alertmind.Broker.Os.{
  Os, Call, opened_root, opened, followed, refused, close, spawned, unspawned, Ran, value, threw,
  Io, continue, ◌>>=◌, pure, demand, lift, do_fstat, do_stat, do_stat_followed, do_read,
  do_readlink, do_select, do_wait, do_poll, do_kill, with_child, closing, with_opened, with_root,
  with_open, with_followed,
}

-- The descriptors that are open, the last one first: closing the last one takes it away.
unfoldable pub close_last : ℕ → List ℕ → List ℕ
close_last fd [] = []
close_last fd (held ∷ rest) = if nat_eq held fd then rest else held ∷ rest

unfoldable pub held : List Call → List ℕ
held [] = []
held (opened_root fd ∷ log) = fd ∷ held log
held (opened _ _ _ fd ∷ log) = fd ∷ held log
held (followed _ _ fd ∷ log) = fd ∷ held log
held (spawned _ fd ∷ log) = fd ∷ held log
held (close fd ∷ log) = close_last fd (held log)
held (_ ∷ log) = held log

close_last_same : (fd : ℕ) (rest : List ℕ) → close_last fd (fd ∷ rest) ≡ rest
unfolding close_last
close_last_same fd rest = let e = (nat_eq_iff fd fd).1 refl in rw e refl

-- A run that closes what it opens, in the reverse order, on every path.
unfoldable pub Balanced {ℓ} : {A : Type ℓ} → Io A → Type 0
Balanced m = (log : List Call) → held (m log).1 ≡ held log

module _ {ℓ} {A : Type ℓ} where
  pub pure-Balanced : (a : A) → Balanced (pure a)
  unfolding Balanced
  pure-Balanced a log = refl

  pub lift-Balanced : (r : Result A) → Balanced (lift r)
  unfolding Balanced lift
  lift-Balanced (ok a) log = refl
  lift-Balanced (err code) log = refl

  pub bind-Balanced {κ} :
      {B : Type κ} (m : Io A) (f : A → Io B)
      → Balanced m
      → ((a : A) → Balanced (f a))
      → Balanced (m >>= f)
  unfolding Balanced
  bind-Balanced m f h k log = after (m log) ∙ h log
    where
      after : (out : Ran A × List Call) → held (continue f out).1 ≡ held out.1
      after (value a, log') = k a log'
      after (threw e, log') = refl

  opened_Balanced :
      (event : ℕ → Call) (failed : Call) (o : Ran ℕ) (block : ℕ → Io A)
      → ((fd : ℕ) (log : List Call) → held (event fd ∷ log) ≡ fd ∷ held log)
      → ((log : List Call) → held (failed ∷ log) ≡ held log)
      → ((fd : ℕ) → Balanced (block fd))
      → Balanced (with_opened event failed o block)
  unfolding Balanced closing held
  opened_Balanced event failed (value fd) block e f h log =
      ap (close_last fd) (h fd (event fd ∷ log) ∙ e fd log) ∙ close_last_same fd (held log)
  opened_Balanced event failed (threw x) block e f h log = f log

  module _ (os : Os) where
    pub with_root-Balanced :
        (block : ℕ → Io A) → ((fd : ℕ) → Balanced (block fd)) → Balanced (with_root os block)
    unfolding Balanced with_root held
    with_root-Balanced block h log =
        opened_Balanced opened_root (refused 0 []) (os.open_root log) block (λ fd l. refl)
          (λ l. refl) h log

    pub with_open-Balanced :
        (parent : ℕ) (name : Text) (directory : Bool) (block : ℕ → Io A)
        → ((fd : ℕ) → Balanced (block fd))
        → Balanced (with_open os parent name directory block)
    unfolding Balanced with_open held
    with_open-Balanced parent name directory block h log =
        opened_Balanced (opened parent name directory) (refused parent name)
          (os.open_at log parent name directory) block (λ fd l. refl) (λ l. refl) h log

    pub with_followed-Balanced :
        (parent : ℕ) (name : Text) (block : ℕ → Io A)
        → ((fd : ℕ) → Balanced (block fd))
        → Balanced (with_followed os parent name block)
    unfolding Balanced with_followed held
    with_followed-Balanced parent name block h log =
        opened_Balanced (followed parent name) (refused parent name)
          (os.open_followed log parent name) block (λ fd l. refl) (λ l. refl) h log

    pub with_child-Balanced :
        (group : Text) (block : ℕ → Io A)
        → ((fd : ℕ) → Balanced (block fd))
        → Balanced (with_child os group block)
    unfolding Balanced with_child held
    with_child-Balanced group block h log =
        opened_Balanced (spawned group) (unspawned group) (os.spawn log group) block (λ fd l. refl)
          (λ l. refl) h log

pub demand-Balanced : (b : Bool) (code : String) → Balanced (demand b code)
unfolding Balanced demand
demand-Balanced true code log = refl
demand-Balanced false code log = refl

module _ (os : Os) where
  pub do_fstat-Balanced : (fd : ℕ) → Balanced (do_fstat os fd)
  unfolding Balanced do_fstat held
  do_fstat-Balanced fd log = refl

  pub do_stat-Balanced : (fd : ℕ) (name : Text) → Balanced (do_stat os fd name)
  unfolding Balanced do_stat held
  do_stat-Balanced fd name log = refl

  pub do_stat_followed-Balanced : (fd : ℕ) (name : Text) → Balanced (do_stat_followed os fd name)
  unfolding Balanced do_stat_followed held
  do_stat_followed-Balanced fd name log = refl

  pub do_read-Balanced : (fd n : ℕ) → Balanced (do_read os fd n)
  unfolding Balanced do_read held
  do_read-Balanced fd n log = refl

  pub do_readlink-Balanced : (fd : ℕ) (name : Text) → Balanced (do_readlink os fd name)
  unfolding Balanced do_readlink held
  do_readlink-Balanced fd name log = refl

  pub do_select-Balanced : (fd : ℕ) → Balanced (do_select os fd)
  unfolding Balanced do_select held
  do_select-Balanced fd log = refl

  pub do_wait-Balanced : (fd : ℕ) → Balanced (do_wait os fd)
  unfolding Balanced do_wait held
  do_wait-Balanced fd log = refl

  pub do_poll-Balanced : (fd : ℕ) → Balanced (do_poll os fd)
  unfolding Balanced do_poll held
  do_poll-Balanced fd log = refl

  pub do_kill-Balanced : (fd : ℕ) → Balanced (do_kill os fd)
  unfolding Balanced do_kill held
  do_kill-Balanced fd log = refl
