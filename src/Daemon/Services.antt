-- ===== src/Daemon/Services.antt =====
-- The loop over the services in entry/entry.go, with the signals that end it, and the whole of `entry`. The
-- web server is a library: how it ends is given.
use pufferd.Common.{
  ℕ, suc, Bool, List, [], ◌∷◌, true, false, Option, none, some, is_some, if◌then◌else◌, not, ◌&&◌,
}
use pufferd.Types.{Err, is_not_exist}
use pufferd.World.{Outside, Go, pure, crash, ◌>>=◌, ◌>>◌}
use pufferd.Sftp.Server.{Host, Effect, run_server}
use pufferd.Daemon.{boot, shutdown}

-- How a run of the services ends: the web server returns, or something panics, with an error or with
-- another value.
pub data Served : Type 0 where
  returned : Option Err → Served
  panicked_error panicked_other : Served

-- A round of the loop: what the two key files are found to be, the system as the SFTP server meets it, how
-- the services end, and what `runService` is then.
pub record Round : Type 0 where
  pub pem : Option Err
  pub key : Option Err
  pub host : Host
  pub served : Served
  pub run_service : Bool

unfoldable pub use_https : Option Err → Option Err → Bool
unfolding is_not_exist
use_https pem key = not (is_not_exist pem) && not (is_not_exist key)

-- `recoverPanic`: a panic with an error is none, the assertion on any other value panics again.
unfoldable pub recover_panic : Served → Option (Option Err)
recover_panic (returned e) = some e
recover_panic panicked_error = some none
recover_panic panicked_other = none

-- What a round did: the steps of the SFTP server, whose error is only logged, and whether the web server used
-- TLS.
abbrev pub DidRound : Type 0
DidRound = List Effect × Bool

-- `runServices`; `none` is a panic.
unfoldable pub run_services : Round → Option (Option Err) × DidRound
unfolding use_https recover_panic run_server
run_services r = (recover_panic r.served, ((run_server r.host).1, use_https r.pem r.key))

-- Where the loop is behind the rounds that are given.
pub data Loop : Type 0 where
  ended : Option Err → Loop
  serving died : Loop

-- How the loop goes on behind a round.
unfoldable pub behind_round :
    (Option Err → Loop × List DidRound) → Option (Option Err) → DidRound → Loop × List DidRound
behind_round rest none did = (died, did ∷ [])
behind_round rest (some e) did = let more = rest e in (more.0, did ∷ more.1)

unfoldable pub run_rounds : Bool → List Round → Option Err → Loop × List DidRound
unfolding run_services behind_round
run_rounds run_service [] e =
    if run_service && not (is_some e) then (serving, []) else (ended e, [])
run_rounds run_service (r ∷ rs) e =
    let next = behind_round (run_rounds r.run_service rs) (run_services r).0 (run_services r).1 in
    if run_service && not (is_some e) then next else (ended e, [])

-- What comes of the daemon: what it sends to its caller, or that it serves.
pub data Ending : Type 0 where
  sent : Option Err → Ending
  serves : Ending

-- The end of `entry`; the panic of a service that is not recovered ends the daemon.
unfoldable pub finish_entry : Outside → Loop → Go Ending
unfolding shutdown
finish_entry o serving = pure serves
finish_entry o died = crash
finish_entry o (ended e) = shutdown o >> pure (sent e)

-- `entry`, with `runService` as it is when the loop begins.
unfoldable pub entry : Outside → Bool → List Round → Go Ending
unfolding boot run_rounds finish_entry
entry o run_service rounds = do
  (failed, goes_on) ← boot o
  if not goes_on
      then pure (sent failed)
      else finish_entry o (run_rounds run_service rounds failed).0

pub data Signal : Type 0 where
  sighup sigpipe sigterm : Signal

-- The goroutine of `createHook`: how often the configuration is read again, and whether it ends the daemon.
unfoldable pub create_hook : Outside → List Signal → Go (ℕ × Bool)
unfolding shutdown
create_hook o [] = pure (0, false)
create_hook o (sigterm ∷ rest) = shutdown o >> pure (0, true)
create_hook o (sighup ∷ rest) = create_hook o rest >>= λ r. pure (suc r.0, r.1)
create_hook o (sigpipe ∷ rest) = create_hook o rest
