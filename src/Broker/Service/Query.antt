-- ===== src/Broker/Service/Query.antt =====
-- operator_service.py: `_query`, the bounded read of what a child process prints.
use alertmind.Prelude.{
  ℕ, zero, suc, ◌+◌, ◌-◌, min, [], ◌∷◌, ◌++◌, length, leb, nat_eq, if◌then◌else◌,
}
use alertmind.Text.{Text}
use alertmind.Platform.{Bytes}
use alertmind.Broker.Os.{
  Os, operator, os_error, expired, Ran, value, threw, Io, ◌>>=◌, ◌>>◌, pure, raise, demand, lift,
  do_read, do_select, do_wait, do_poll, do_kill, with_child,
}
use alertmind.Broker.Files.Trust.{chunk_size}
use alertmind.Broker.Service.Properties.{max_reply, properties_of}

-- Behind a read: the end at an empty chunk, and otherwise the rounds that are left, if the reply is
-- not too long.
abbrev pub after_part : (Bytes → Io Bytes) → Bytes → Bytes → Io Bytes
after_part next raw [] = pure raw
after_part next raw (c ∷ more) = do
  demand (leb (length (raw ++ c ∷ more)) max_reply) "SERVICE_SIZE"
  next (raw ++ c ∷ more)

abbrev recoded {ℓ} : {A : Type ℓ} → Ran A → Ran A
recoded (threw expired) = threw (operator "SERVICE_TIMEOUT")
recoded (threw (os_error _)) = threw (operator "SERVICE_QUERY")
recoded r = r

-- The two `except` clauses.
unfoldable pub with_query_codes {ℓ} : {A : Type ℓ} → Io A → Io A
with_query_codes m = λ log. let (r, log') = m log in (recoded r, log')

-- What a `finally` block leaves of the result: its own exception, or what there was.
abbrev pub behind_cleanup {ℓ} : {A : Type ℓ} → Ran A → Ran (Unit {0}) → Ran A
behind_cleanup r (value _) = r
behind_cleanup r (threw (operator code)) = threw (operator code)
behind_cleanup r (threw _) = threw (operator "SERVICE_CLEANUP")

module _ (os : Os) where
  -- `while True`: a round reads at least a byte or is the last one.
  unfoldable pub pipe_loop : ℕ → ℕ → Bytes → Io Bytes
  pipe_loop fd zero raw = raise (operator "SERVICE_SIZE")
  pipe_loop fd (suc rounds) raw = do
    ready ← do_select os fd
    demand ready "SERVICE_TIMEOUT"
    chunk ← do_read os fd (min chunk_size (max_reply + 1 - length raw))
    after_part (λ more. pipe_loop fd rounds more) raw chunk

  -- The child is killed if it still runs, and waited for.
  unfoldable pub clean_up : ℕ → Io (Unit {0})
  clean_up fd = do
    running ← do_poll os fd
    if running then do_kill os fd else pure tt
    _ ← do_wait os fd
    pure tt

  unfoldable pub with_cleanup : ℕ → Io Bytes → Io Bytes
  with_cleanup fd m = λ log.
      let (r, log') = m log in let (c, log'') = clean_up fd log' in (behind_cleanup r c, log'')

  unfoldable pub child_output : ℕ → Io Bytes
  child_output fd = do
    raw ← pipe_loop fd (max_reply + 2) []
    status ← do_wait os fd
    demand (nat_eq status 0) "SERVICE_QUERY"
    pure raw

  -- `_query`
  unfoldable pub query : Text → Io Bytes
  query group = do
    _ ← lift (properties_of group)
    with_query_codes
        (with_child os group (λ fd. with_cleanup fd (with_query_codes (child_output fd))))
