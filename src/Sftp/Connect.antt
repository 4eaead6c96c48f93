-- ===== src/Sftp/Connect.antt =====
-- An SFTP connection from its login on (sftp/server.go, oauth2/ssh.go).
use pufferd.Common.{String, List, true, false, Option, ◌≡◌, ◌⊎◌, inl, inr}
use pufferd.Types.{Err, Result, ok, err}
use pufferd.FilePath.{join}
use pufferd.World.{Call, World, Outside, Outcome, ret, panic, Go, pure, ◌>>=◌, final}
use pufferd.World.Keeps.{Follows-self, Keeps, Keeps-pure, Keeps-bind}
use pufferd.World.Runs.{bind-eq, then_run}
use pufferd.Auth.{Authority}
use pufferd.Auth.Login.{Session, validate_ssh}
use pufferd.Sftp.Confined.{Confined, changed_paths, step-Confined, nothing_added}
use pufferd.Sftp.Sessions.{Within, handle_channels-Keeps, All-weaken}
use pufferd.Sftp.Server.{Channel, handle_conn}
use pufferd.Auth.Posts.{validate_ssh-Keeps}
use pufferd.Auth.Named.{IsNamed, IsNamed-later, Named, validate_ssh-Named}

-- A connection whose client gives a user's name and a password: the callback of `runServer`, then `handleConn`.
unfoldable pub handle_login :
    Outside → Authority → String → String → Session → List Channel → Go (Option Err × Session)
handle_login o a username password s channels =
    validate_ssh o a username password s >>= λ (login, later).
    handle_conn o login channels >>= λ failed. pure (failed, later)

-- No path may be changed.
abbrev pub NoPath : String → Type 0
NoPath path = true ≡ false

Confined-weaken :
    (P : String → Type 0) (before after : List Call)
    → Confined NoPath before after
    → Confined P before after
Confined-weaken P before after h = record {
  added = h.added;
  grows = h.grows;
  within = All-weaken h.added (λ c. All-weaken (changed_paths c) (λ path none. cc)) h.within;
}

-- Whatever a client of the SFTP server does, from its login on, one of two things holds. Either no path is changed
-- at all; or a login with the client's user and password was sent in this connection, the authorization server
-- has answered it with 200 and scopes that name a server, and the connection only changes paths that the
-- access check admitted, while it lasted, below that server's folder, the folders that such paths lie in, and the
-- empty name.
pub handle_login-Confined :
    (o : Outside) (a : Authority) (username password : String) (s : Session)
    (channels : List Channel) (w : World)
    → Confined NoPath w.trace (final (handle_login o a username password s channels w)).trace
      ⊎ ((id : String) × IsNamed o a username password w.trace
            (final (handle_login o a username password s channels w)).trace
            id
          × Confined
              (Within o
                (join o.server_folder id)
                w.trace
                (final (handle_login o a username password s channels w)).trace)
              w.trace
              (final (handle_login o a username password s channels w)).trace)
unfolding handle_login handle_conn pure ◌>>=◌
handle_login-Confined o a username password s channels w =
    rw (bind-eq (validate_ssh o a username password s) connected w) (
      go (validate_ssh o a username password s w)
        ((validate_ssh-Keeps o a (λ form token v h. step-Confined o NoPath w.trace _ v tt h)
            username password s).at
          w (nothing_added w.trace))
        (validate_ssh-Named o a username password w.trace s w (Follows-self w.trace)))
  where
    connected : Result String × Session → Go (Option Err × Session)
    connected (login, later) = handle_conn o login channels >>= λ failed. pure (failed, later)

    served :
        (id : String) (later : Session) (start : List Call)
        → Keeps
            (λ v. Confined (Within o (join o.server_folder id) start v.trace) start v.trace)
            (connected (ok id, later))
    served id later start =
        Keeps-bind (handle_channels-Keeps o (join o.server_folder id) start channels)
          (λ failed. Keeps-pure _)

    go :
        (r : Outcome (Result String × Session))
        → Confined NoPath w.trace (final r).trace
        → Named o a username password w.trace r
        → Confined NoPath w.trace (final (then_run connected r)).trace
          ⊎ ((id : String) × IsNamed o a username password w.trace
                (final (then_run connected r)).trace
                id
              × Confined
                  (Within o (join o.server_folder id) w.trace (final (then_run connected r)).trace)
                  w.trace
                  (final (then_run connected r)).trace)
    go (ret (err e, later) v) h n = inl h
    go (ret (ok id, later) v) h n =
        let k = (served id later v.trace).at v (nothing_added v.trace) in
        inr (
          id,
          IsNamed-later (k.added, k.grows) n,
          (served id later w.trace).at v (Confined-weaken _ w.trace v.trace h),
        )
    go (panic v) h n = inl h
