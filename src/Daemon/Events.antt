-- ===== src/Daemon/Events.antt =====
-- Everything that happens to the servers while the daemon runs: requests behind their guard, what handlers leave
-- to goroutines, the ticks of the start queue, the exits of processes and the shutdown of the queue.
use pufferd.Common.{
  ℕ, String, Bool, List, [], ◌∷◌, true, false, Option, none, some, is_some, ◌≡◌, Bool-cases, inl,
  inr,
}
use pufferd.Types.{Err, Result, ok, err, Program, Response, Scope}
use pufferd.World.{World, Outside, pure, final}
use pufferd.World.Keeps.{
  Keeps, Keeps-deref, Keeps-pure, Keeps-bind, Keeps-if, Keeps-need, Keeps-read, Keeps-ask_reply,
}
use pufferd.Auth.{
  Authority, Credentials, Verdict, refused, granted, token_of, admit, with_server, with_loaded,
  with_claims, with_key, with_token, guard, load_public_key, read_opened,
}
use pufferd.Programs.Exit.{after_exit, process_queue, shutdown_service}
use pufferd.Programs.Names.{Closed, ask-Closed, get-Closed}
use pufferd.Programs.Whole.{IsWhole, Keeps-steady, created-Keeps, delete-Keeps}
use pufferd.Programs.Whole.Queueing.{after_exit-Keeps, process_queue-Keeps}
use pufferd.Routing.Socket.{Incoming}
use pufferd.Routing.Handlers.{
  Request, Task, run_task, create_handler, create_decoded, created, delete_server,
}
use pufferd.Routing.Routes.{Handler, on_create, on_delete, Route, run_handler, decide, serve}
use pufferd.Routing.Steady.{is_steady, run_handler-Closed}
use pufferd.Routing.Listened.{run_task-Closed}

module _ {I : World → Type 0} (c : Closed I) (o : Outside) (a : Authority) where
  read_opened-Closed : (path : String) (failed : Option Err) → Keeps I (read_opened o path failed)
  read_opened-Closed path (some e) = Keeps-pure _
  read_opened-Closed path none = Keeps-ask_reply I o (λ _. Unit {0}) (λ x w _. c.calls x w) _ tt

  load_public_key-Closed : (kept : Option ℕ) → Keeps I (load_public_key o a kept)
  unfolding load_public_key
  load_public_key-Closed (some key) = Keeps-pure _
  load_public_key-Closed none =
      Keeps-bind (ask-Closed c o _)
        λ failed. Keeps-bind (read_opened-Closed _ failed) λ read. Keeps-pure _

  with_server-Closed :
      (server : String) (require_server : Bool) (scopes : List Scope)
      → Keeps I (with_server o server require_server scopes)
  unfolding with_server admit pure
  with_server-Closed server false scopes = Keeps-pure _
  with_server-Closed server true scopes = Keeps-bind (get-Closed c o server) admitted
    where
      admitted : (found : Option ℕ × Option Err) → Keeps I (admit scopes found)
      admitted (some p, failed) = Keeps-pure _
      admitted (none, failed) = Keeps-pure _

  with_claims-Closed :
      (s : Scope) (b : Bool) (server : String) (claims : Result (List (String × List Scope)))
      → Keeps I (with_claims o s b server claims)
  unfolding with_claims
  with_claims-Closed s b server (err e) = Keeps-pure _
  with_claims-Closed s b server (ok claims) =
      Keeps-if _ (Keeps-pure _) (with_server-Closed server b _)

  with_key-Closed :
      (s : Scope) (b : Bool) (server token : String) (key : Result ℕ)
      → Keeps I (with_key o a s b server token key)
  unfolding with_key
  with_key-Closed s b server token (err e) = Keeps-pure _
  with_key-Closed s b server token (ok key) = with_claims-Closed s b server _

  with_token-Closed :
      (s : Scope) (b : Bool) (server : String) (kept : Option ℕ) (token : Result String)
      → Keeps I (with_token o a s b server kept token)
  unfolding with_token with_loaded
  with_token-Closed s b server kept (err e) = Keeps-pure _
  with_token-Closed s b server kept (ok token) =
      Keeps-bind (load_public_key-Closed kept)
        λ (key, later). Keeps-bind (with_key-Closed s b server token key) λ verdict. Keeps-pure _

  guard-Closed :
      (s : Scope) (b : Bool) (x : Credentials) (kept : Option ℕ) → Keeps I (guard o a s b x kept)
  unfolding guard
  guard-Closed s b x kept = with_token-Closed s b x.server kept (token_of x)

module _ (o : Outside) where
  create_decoded-Keeps :
      (id : String) (decoded : Result Program) → Keeps IsWhole (create_decoded o id decoded)
  unfolding create_decoded
  create_decoded-Keeps id (err e) = Keeps-pure _
  create_decoded-Keeps id (ok program) = created-Keeps o _ (created id)

  create_handler-Keeps : (r : Request) → Keeps IsWhole (create_handler o r)
  unfolding create_handler
  create_handler-Keeps r = Keeps-bind (Keeps-read _) λ id.
      Keeps-bind (Keeps-steady (λ I c. get-Closed c o id))
        λ (found, failed). Keeps-if (is_some found) (Keeps-pure _) (create_decoded-Keeps id _)

  delete_server-Keeps : (p : ℕ) (r : Request) → Keeps IsWhole (delete_server o p r)
  unfolding delete_server
  delete_server-Keeps p r =
      Keeps-bind (Keeps-deref p)
        λ program. Keeps-bind (delete-Keeps o program.identifier) λ failed. Keeps-pure _

  run_unsteady-Keeps :
      (missing : Response) (h : Handler) (scopes : List Scope) (server : Option ℕ) (r : Request)
      → is_steady h ≡ false
      → Keeps IsWhole (run_handler o missing h scopes server r)
  unfolding run_handler
  run_unsteady-Keeps missing on_create scopes server r s =
      Keeps-bind (create_handler-Keeps r) λ x. Keeps-pure _
  run_unsteady-Keeps missing on_delete scopes server r s =
      Keeps-bind (Keeps-need server) λ p. Keeps-bind (delete_server-Keeps p r) λ x. Keeps-pure _
  run_unsteady-Keeps missing h scopes server r s = cc

  run_handler-Keeps :
      (missing : Response) (h : Handler) (scopes : List Scope) (server : Option ℕ) (r : Request)
      → Keeps IsWhole (run_handler o missing h scopes server r)
  run_handler-Keeps missing h scopes server r = elim (Bool-cases (is_steady h)) [
    | inl steady ↦ Keeps-steady (λ I c. run_handler-Closed c o missing h scopes server r steady)
    | inr other ↦ run_unsteady-Keeps missing h scopes server r other
  ]

  serve-Keeps :
      (a : Authority) (missing : Response) (t : Route) (c : Credentials) (kept : Option ℕ)
      (r : Request)
      → Keeps IsWhole (serve o a missing t c kept r)
  unfolding serve
  serve-Keeps a missing t c kept r =
      Keeps-bind
        (Keeps-steady (λ I closed. guard-Closed closed o a t.scope t.require_server c kept)) decided
    where
      decided : (verdict : Verdict × Option ℕ) → Keeps IsWhole (decide o missing t r verdict)
      decided (refused code e, kept) = Keeps-pure _
      decided (granted scopes server, kept) =
          Keeps-bind (run_handler-Keeps missing t.handler scopes server r) λ x. Keeps-pure _

-- What happens to the servers of a daemon that runs. The key that the guard keeps is given with a request.
pub data Event : Type 0 where
  request : Response → Route → Credentials → Option ℕ → Request → Event
  goroutine : List Incoming → Task → Event
  tick : Event
  exits : ℕ → Bool → Event
  queue_closed : Event

-- The state behind an event, also where it panics.
abbrev pub happen : Outside → Authority → Event → World → World
happen o a (request missing t c kept r) w = final (serve o a missing t c kept r w)
happen o a (goroutine incoming task) w = final (run_task o incoming task w)
happen o a tick w = final (process_queue o w)
happen o a (exits p graceful) w = final (after_exit o p graceful w)
happen o a queue_closed w = shutdown_service w

abbrev pub happen_all : Outside → Authority → List Event → World → World
happen_all o a [] w = w
happen_all o a (e ∷ es) w = happen_all o a es (happen o a e w)

happen-IsWhole :
    (o : Outside) (a : Authority) (e : Event) (w : World) → IsWhole w → IsWhole (happen o a e w)
unfolding shutdown_service
happen-IsWhole o a (request missing t c kept r) w h = (serve-Keeps o a missing t c kept r).at w h
happen-IsWhole o a (goroutine incoming task) w h =
    (Keeps-steady (λ I c. run_task-Closed c o incoming task)).at w h
happen-IsWhole o a tick w h = (process_queue-Keeps o).at w h
happen-IsWhole o a (exits p graceful) w h = (after_exit-Keeps o p graceful).at w h
happen-IsWhole o a queue_closed w h = record {
  sound = record { inside = h.sound.inside; unique = h.sound.unique };
  queued = h.queued;
}

-- Whatever happens to a daemon that runs, in any order - web requests of any client, granted, refused or
-- panicking, the goroutines and web sockets that they leave, ticks of the start queue, exits of processes and
-- the end of the queue -, its servers stay well formed: every pointer of the list of servers and of the start
-- queue is to an object, and no two listed servers have the same identifier.
pub happen_all-IsWhole :
    (o : Outside) (a : Authority) (es : List Event) (w : World)
    → IsWhole w
    → IsWhole (happen_all o a es w)
happen_all-IsWhole o a [] w h = h
happen_all-IsWhole o a (e ∷ es) w h =
    happen_all-IsWhole o a es (happen o a e w) (happen-IsWhole o a e w h)
