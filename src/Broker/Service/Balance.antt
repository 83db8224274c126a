-- ===== src/Broker/Service/Balance.antt =====
-- What the readings of the service's configuration leave open.
use alertmind.Prelude.{ℕ, zero, suc, Bool, true, false, [], ◌∷◌, refl, ◌∙◌, if◌then◌else◌}
use alertmind.Text.{Text}
use alertmind.Platform.{Platform, Bytes}
use alertmind.Broker.Os.{Os, Io, pure, demand, lift, do_select, do_read, do_wait, do_poll, do_kill}
use alertmind.Broker.Os.Balance.{
  Balanced, pure-Balanced, lift-Balanced, demand-Balanced, bind-Balanced, with_child-Balanced,
  do_select-Balanced, do_read-Balanced, do_wait-Balanced, do_poll-Balanced, do_kill-Balanced,
}
use alertmind.Broker.Files.{read_root_owned, with_codes}
use alertmind.Broker.Files.Frame.{Keeps, read_root-Keeps, check_platform-Keeps}
use alertmind.Broker.Files.Balance.{Orderly, orderly}
use alertmind.Broker.Files.Trust.{Host, check_platform}
use alertmind.Broker.Service.Properties.{properties_of}
use alertmind.Broker.Service.Query.{
  after_part, pipe_loop, clean_up, with_cleanup, child_output, with_query_codes, query,
}
use alertmind.Broker.Service.{check_tool, read_configuration}

-- An orderly run is balanced.
pub Orderly-Balanced : {A : Type 0} (m : Io A) → Keeps Orderly m → Balanced m
unfolding Orderly Balanced
Orderly-Balanced m h log = (h log).0

module _ (os : Os) where
  part_Balanced :
      (next : Bytes → Io Bytes) (raw chunk : Bytes)
      → ((more : Bytes) → Balanced (next more))
      → Balanced (after_part next raw chunk)
  part_Balanced next raw [] h = pure-Balanced raw
  part_Balanced next raw (c ∷ more) h =
      bind-Balanced (demand _ _) _ (demand-Balanced _ _) (λ _. h _)

  pipe_loop-Balanced : (fd rounds : ℕ) (raw : Bytes) → Balanced (pipe_loop os fd rounds raw)
  unfolding pipe_loop Balanced
  pipe_loop-Balanced fd zero raw log = refl
  pipe_loop-Balanced fd (suc rounds) raw log =
      bind-Balanced (do_select os fd) _ (do_select-Balanced os fd)
        (λ ready. bind-Balanced (demand ready _) _ (demand-Balanced ready _) (λ _.
          bind-Balanced (do_read os fd _) _ (do_read-Balanced os fd _) (λ chunk.
            part_Balanced (λ more. pipe_loop os fd rounds more) raw chunk
              (λ more. pipe_loop-Balanced fd rounds more))))
        log

  kill_Balanced : (fd : ℕ) (running : Bool) → Balanced (if running then do_kill os fd else pure tt)
  kill_Balanced fd true = do_kill-Balanced os fd
  kill_Balanced fd false = pure-Balanced tt

  clean_up-Balanced : (fd : ℕ) → Balanced (clean_up os fd)
  unfolding clean_up
  clean_up-Balanced fd = bind-Balanced (do_poll os fd) _ (do_poll-Balanced os fd) (λ running.
      bind-Balanced _ _ (kill_Balanced fd running)
        (λ _. bind-Balanced (do_wait os fd) _ (do_wait-Balanced os fd) (λ _. pure-Balanced tt)))

  with_cleanup-Balanced : (fd : ℕ) (m : Io Bytes) → Balanced m → Balanced (with_cleanup os fd m)
  unfolding with_cleanup Balanced
  with_cleanup-Balanced fd m h log = clean_up-Balanced fd (m log).1 ∙ h log

  with_query_codes-Balanced : (m : Io Bytes) → Balanced m → Balanced (with_query_codes m)
  unfolding with_query_codes Balanced
  with_query_codes-Balanced m h log = h log

  child_output-Balanced : (fd : ℕ) → Balanced (child_output os fd)
  unfolding child_output
  child_output-Balanced fd =
      bind-Balanced (pipe_loop os fd _ []) _ (pipe_loop-Balanced fd _ []) (λ raw.
        bind-Balanced (do_wait os fd) _ (do_wait-Balanced os fd)
          (λ status. bind-Balanced (demand _ _) _ (demand-Balanced _ _) (λ _. pure-Balanced raw)))

  pub query-Balanced : (group : Text) → Balanced (query os group)
  unfolding query
  query-Balanced group = bind-Balanced (lift (properties_of group)) _ (lift-Balanced _) (λ _.
      with_query_codes-Balanced _ (
        with_child-Balanced os group _ (λ fd.
          with_cleanup-Balanced fd _ (with_query_codes-Balanced _ (child_output-Balanced fd)))))

  pub check_tool-Balanced : (host : Host) → Balanced (check_tool os host)
  unfolding check_tool with_codes read_root_owned
  check_tool-Balanced host =
      bind-Balanced (check_platform host) _ (Orderly-Balanced _ (check_platform-Keeps orderly host))
        (λ _.
          bind-Balanced (with_codes (read_root_owned os _ _)) _
            (Orderly-Balanced _
              (read_root-Keeps orderly os _ _ (λ _. pure ((0, 0) ∷ [])) (λ above. orderly.same)))
            (λ _. pure-Balanced tt))

module _ ⦃p : Platform⦄ (os : Os) where
  pub read_configuration-Balanced : Balanced (read_configuration os)
  unfolding read_configuration
  read_configuration-Balanced = bind-Balanced (query os _) _ (query-Balanced os _) (λ unit.
      bind-Balanced (lift _) _ (lift-Balanced _) (λ unit_values.
        bind-Balanced (query os _) _ (query-Balanced os _) (λ service.
          bind-Balanced (lift _) _ (lift-Balanced _)
            (λ service_values. bind-Balanced (lift _) _ (lift-Balanced _) (λ _. pure-Balanced _)))))
