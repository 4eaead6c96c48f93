-- ===== src/Routing/Backing.antt =====
-- Which calls a scope is for, and runs that make no others (routing/server/websocket.go).
pub mod Files
use pufferd.Common.{
  ℕ, String, Bool, List, [], ◌∷◌, ◌++◌, true, false, Option, none, some, is_some, ◌≡◌, refl, ap,
  All, ◌&&◌, ◌⊎◌, inl, inr, Bool-cases, ltb, Option-cases,
}
use pufferd.Types.{
  Err, Value, Scope, Program, FileData, listing, contents, servers_stat, servers_start,
  servers_stop, servers_install, servers_edit_admin, servers_files_get, servers_files_put,
  servers_console_send,
}
use pufferd.FilePath.{dir}
use pufferd.Text.{lower_is}
use pufferd.World.{
  Call, World, Outside, Outcome, ret, panic, Go, pure, final, record_call, tell, deref, store,
  ◌>>=◌, ◌>>◌,
}
use pufferd.World.Keeps.{
  Keeps, Keeps-pure, Keeps-crash, Keeps-bind, Keeps-then, Keeps-if, Keeps-option, Keeps-need,
  Keeps-read, Keeps-ask, Keeps-ask_flag, Keeps-ask_reply, Keeps-tell, Keeps-deref,
}
use pufferd.Program.Lifecycle.{is_running}
use pufferd.Program.Calls.{
  starts, stops, installs, looks, start-starts, stop-stops, kill-stops, install-installs,
  get_item-looks, on_allowed-Keeps,
}
use pufferd.Program.Files.{delete_item, create_folder, get_item}
use pufferd.Programs.{reload, get_from_cache}
use pufferd.Programs.Names.{load-Keeps}
use pufferd.Routing.Socket.{
  Incoming, broken, not_text, undecodable, fields, guarded, on_type, on_message, on_console,
  on_stat, on_action, answer_with, send_item, send_contents, handle_get_file, on_file, listen,
  recovered, listen_on_socket, string_field,
}

-- The calls that need no scope: an answer on the socket, and asking whether the server runs.
abbrev pub unscoped : Call → Bool
unscoped (Call.send m) = true
unscoped (Call.is_running e) = true
unscoped _ = false

-- The calls that a scope is for.
abbrev pub covers : Scope → Call → Bool
covers Scope.servers_stat (Call.get_stats e) = true
covers Scope.servers_start c = starts c
covers Scope.servers_stop c = stops c
covers Scope.servers_install c = installs c
covers Scope.servers_edit_admin (Call.read_file path) = true
covers Scope.servers_files_get c = looks c
covers Scope.servers_files_put (Call.mkdir path) = true
covers Scope.servers_files_put (Call.remove_all path) = true
covers Scope.servers_console_send (Call.execute_in_main_process e cmd) = true
covers _ _ = false

-- A line for the console of a server. The route for it asks for a scope, and the web socket does not.
pub data IsLine (c : Call) : Type 0 where
  line : (e : ℕ) (cmd : String) → c ≡ Call.execute_in_main_process e cmd → IsLine c

-- A call that needs no scope, or that a scope that is held is for, or a line for the console, which is sent
-- unchecked.
pub data IsBacked (held : Scope → Bool) (c : Call) : Type 0 where
  free : unscoped c ≡ true → IsBacked held c
  unchecked : IsLine c → IsBacked held c
  by : (s : Scope) → held s ≡ true → covers s c ≡ true → IsBacked held c

-- A run whose calls are all backed; only the scope for administration lets it change a server.
pub record Backed (held : Scope → Bool) (before after : World) : Type 0 where
  pub added : List Call
  pub grows : after.trace ≡ added ++ before.trace
  pub all_backed : All (IsBacked held) added
  pub changes : (held Scope.servers_edit_admin ≡ true) ⊎ (after.heap ≡ before.heap)
  pub same_programs : after.all_programs ≡ before.all_programs
  pub same_queue : after.queue ≡ before.queue

module _ (o : Outside) (scopes : List Scope) (before : World) where
  abbrev pub held : Scope → Bool
  held s = o.contains_scope scopes s

  abbrev pub I : World → Type 0
  I w = Backed held before w

  pub step : (c : Call) (w : World) → IsBacked held c → I w → I (record_call c w)
  step c w a h = record {
    added = c ∷ h.added;
    grows = ap (λ t. c ∷ t) h.grows;
    all_backed = (a, h.all_backed);
    changes = h.changes;
    same_programs = h.same_programs;
    same_queue = h.same_queue;
  }

  pub say : (c : Call) → unscoped c ≡ true → Keeps I (tell o c)
  say c u = Keeps-tell I o (IsBacked held) step c (free u)

  pub send_line : (e : ℕ) (cmd : String) → Keeps I (tell o (Call.execute_in_main_process e cmd))
  send_line e cmd = Keeps-tell I o (IsBacked held) step _ (unchecked (line e cmd refl))

  -- The calls of a scope that is held.
  pub within :
      (s : Scope)
      → held s ≡ true
      → (c : Call) (w : World) → covers s c ≡ true
      → I w
      → I (record_call c w)
  within s h c w covered i = step c w (by s h covered) i

  -- An action that is backed where its scope is held.
  pub guarded-Backed :
      (s : Scope) {action : Go (Unit {0})}
      → (held s ≡ true → Keeps I action)
      → Keeps I (guarded o scopes s action)
  unfolding guarded
  guarded-Backed s acts = elim (Bool-cases (held s)) [
    | inl holds ↦ rw holds (acts holds)
    | inr lacks ↦ rw lacks (Keeps-pure tt)
  ]

  pub doing :
      (p : ℕ) {act : Program → Go (Option Err)}
      → ((program : Program) → Keeps I (act program))
      → Keeps I (deref p >>= λ program. act program >> pure tt)
  doing p acts = Keeps-bind (Keeps-deref p) λ program. Keeps-then (acts program) (Keeps-pure tt)
