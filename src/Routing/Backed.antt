-- ===== src/Routing/Backed.antt =====
-- What the scopes of a web socket's client let its messages do (routing/server/websocket.go).
use pufferd.Common.{
  ℕ, String, Bool, List, [], ◌∷◌, true, Option, none, some, is_some, ◌≡◌, refl, inr,
}
use pufferd.Types.{
  Value, Scope, servers_stat, servers_start, servers_stop, servers_install, servers_edit_admin,
}
use pufferd.Text.{lower_is}
use pufferd.World.{Call, World, Outside, Outcome, ret, panic, Go, final}
use pufferd.World.Keeps.{
  Keeps, Keeps-pure, Keeps-bind, Keeps-then, Keeps-if, Keeps-option, Keeps-need, Keeps-read,
  Keeps-ask, Keeps-ask_flag, Keeps-deref,
}
use pufferd.Program.Lifecycle.{is_running}
use pufferd.Program.Calls.{start-starts, stop-stops, kill-stops, install-installs}
use pufferd.Routing.Socket.{
  Incoming, broken, not_text, undecodable, fields, on_type, on_message, on_console, on_stat, listen,
  recovered, listen_on_socket, string_field,
}
use pufferd.Routing.Backing.{
  IsBacked, free, by, Backed, step, say, send_line, within, guarded-Backed, doing,
}
use pufferd.Routing.Backing.Files.{on_file-Backed, reload-Backed}

module _ (o : Outside) (scopes : List Scope) (before : World) where
  abbrev held : Scope → Bool
  held s = o.contains_scope scopes s

  abbrev I : World → Type 0
  I w = Backed held before w

  on_stat-Backed : (p : ℕ) → held Scope.servers_stat ≡ true → Keeps I (on_stat o p)
  unfolding on_stat
  on_stat-Backed p holds = Keeps-bind (Keeps-deref p) λ program.
      Keeps-bind (Keeps-need program.environment) λ e. Keeps-bind (Keeps-read _) λ results.
        Keeps-bind
          (Keeps-ask I o (IsBacked held) (step o scopes before) _
            (by Scope.servers_stat holds refl))
          λ failed.
            Keeps-if (is_some failed) (say o scopes before _ refl) (say o scopes before _ refl)

  on_console-Backed : (p : ℕ) (cmd : Option String) → Keeps I (on_console o p cmd)
  unfolding on_console is_running
  on_console-Backed p none = Keeps-pure tt
  on_console-Backed p (some cmd) = Keeps-bind (Keeps-deref p) λ program.
      Keeps-bind
        (Keeps-bind (Keeps-need program.environment) λ e.
          Keeps-ask_flag I o (IsBacked held) (step o scopes before) (Call.is_running e) (free refl))
        λ run.
          Keeps-if run.0
            (Keeps-bind (Keeps-need program.environment) λ e. send_line o scopes before e cmd)
            (Keeps-pure tt)

  on_type-Backed :
      (p : ℕ) (message : String) (mapping : List (String × Value))
      → Keeps I (on_type o p scopes message mapping)
  unfolding on_type
  on_type-Backed p message mapping =
      Keeps-if (lower_is message "stat")
        (guarded-Backed o scopes before servers_stat (on_stat-Backed p))
        (Keeps-if (lower_is message "start")
          (guarded-Backed o scopes before servers_start (λ h.
            doing o scopes before p
              (start-starts o (within o scopes before Scope.servers_start h))))
          (Keeps-if (lower_is message "stop")
            (guarded-Backed o scopes before servers_stop (λ h.
              doing o scopes before p (stop-stops o (within o scopes before Scope.servers_stop h))))
            (Keeps-if (lower_is message "install")
              (guarded-Backed o scopes before servers_install (λ h.
                doing o scopes before p
                  (install-installs o (within o scopes before Scope.servers_install h))))
              (Keeps-if (lower_is message "kill")
                (guarded-Backed o scopes before servers_stop (λ h.
                  doing o scopes before p
                    (kill-stops o (within o scopes before Scope.servers_stop h))))
                (Keeps-if (lower_is message "reload")
                  (guarded-Backed o scopes before servers_edit_admin (λ h.
                    doing o scopes before p
                      (λ program. reload-Backed o scopes before program.identifier h)))
                  (Keeps-if (lower_is message "ping") (say o scopes before _ refl) (
                    Keeps-if (lower_is message "console") (on_console-Backed p _) (
                      Keeps-if (lower_is message "file") (on_file-Backed o scopes before p mapping)
                        (say o scopes before _ refl)))))))))

  listen-Backed : (p : ℕ) (incoming : List Incoming) → Keeps I (listen o p scopes incoming)
  unfolding listen on_message
  listen-Backed p [] = Keeps-pure tt
  listen-Backed p (broken ∷ incoming) = Keeps-pure tt
  listen-Backed p (not_text ∷ incoming) = listen-Backed p incoming
  listen-Backed p (undecodable ∷ incoming) = listen-Backed p incoming
  listen-Backed p (fields mapping ∷ incoming) =
      Keeps-then
        (Keeps-option (string_field "type" mapping) (Keeps-pure tt)
          (λ message. on_type-Backed p message mapping))
        (listen-Backed p incoming)

pub recovered-final : (m : Go (Unit {0})) (w : World) → recovered m w ≡ ret tt (final (m w))
unfolding recovered
recovered-final m w = go (m w)
  where
    go :
        (r : Outcome (Unit {0}))
        → (elim r as (λ _. Outcome (Unit {0})) [ ret _ v ↦ ret tt v | panic v ↦ ret tt v ])
          ≡ ret tt (final r)
    go (ret x v) = refl
    go (panic v) = refl

-- Whatever the messages of a client, the loop of its web socket ends without a panic. Every call that it
-- makes is an answer on the socket, or asks whether the server runs, or is one that a scope of the client is
-- for, with one exception: a line for the server's console, for which the routes ask for a scope, is sent
-- whatever the scopes of the client. The loop changes a server only where the client has the scope for
-- administration, and never the list of servers or the start queue.
pub listen_on_socket-Backed :
    (o : Outside) (p : ℕ) (scopes : List Scope) (incoming : List Incoming) (w : World)
    → (v : World) × (listen_on_socket o p scopes incoming w ≡ ret tt v)
      × Backed (λ s. o.contains_scope scopes s) w v
unfolding listen_on_socket
listen_on_socket-Backed o p scopes incoming w = (
  final (listen o p scopes incoming w),
  recovered-final (listen o p scopes incoming) w,
  (listen-Backed o scopes w p incoming).at w (record {
    added = [];
    grows = refl;
    all_backed = tt;
    changes = inr refl;
    same_programs = refl;
    same_queue = refl;
  }),
)
