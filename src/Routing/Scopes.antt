-- ===== src/Routing/Scopes.antt =====
-- What a web socket's client without a scope can do.
use pufferd.Common.{
  ◌⊎◌, inl, inr, ℕ, String, Bool, List, [], ◌∷◌, ◌++◌, true, false, some, ◌≡◌, arith, All,
  get_elem?, lookup,
}
use pufferd.Types.{text, Scope, Program}
use pufferd.Text.{lower_is}
use pufferd.World.{Call, World, Outside, ret, record_call, stepping}
use pufferd.Program.Lifecycle.{is_running}
use pufferd.Routing.Backing.{unscoped, IsLine, IsBacked, free, unchecked, by}
use pufferd.Routing.Backed.{listen_on_socket-Backed}
use pufferd.Routing.Socket.{
  Incoming, fields, on_type, on_message, on_console, listen, recovered, listen_on_socket,
  string_field,
}

-- A run that changes no server and whose calls all need no scope, or are lines for the console.
pub record Harmless (before after : World) : Type 0 where
  pub added : List Call
  pub grows : after.trace ≡ added ++ before.trace
  pub all_unscoped : All (λ c. (unscoped c ≡ true) ⊎ IsLine c) added
  pub same_servers : after.heap ≡ before.heap
  pub same_programs : after.all_programs ≡ before.all_programs
  pub same_queue : after.queue ≡ before.queue

-- Without a scope, only what needs none is backed, and the lines for the console.
All-unscoped :
    (held : Scope → Bool)
    → ((s : Scope) → held s ≡ false)
    → (calls : List Call) → All (IsBacked held) calls
    → All (λ c. (unscoped c ≡ true) ⊎ IsLine c) calls
All-unscoped held powerless [] h = tt
All-unscoped held powerless (c ∷ calls) (free u, hs) = (inl u, All-unscoped held powerless calls hs)
All-unscoped held powerless (c ∷ calls) (unchecked l, hs) =
    (inr l, All-unscoped held powerless calls hs)
All-unscoped held powerless (c ∷ calls) (by s holds covered, hs) = absurd (cc (powerless s))

same_heap :
    (held : Scope → Bool) (w v : World)
    → ((s : Scope) → held s ≡ false)
    → (held Scope.servers_edit_admin ≡ true) ⊎ (v.heap ≡ w.heap)
    → v.heap ≡ w.heap
same_heap held w v powerless (inl holds) = absurd (cc (powerless Scope.servers_edit_admin))
same_heap held w v powerless (inr same) = same

-- Whatever the messages of a client whose scopes grant nothing, the loop of its web socket ends without
-- a panic, and it has changed no server, and called nothing but answers on the socket, the question
-- whether the server runs, and its console.
pub listen_on_socket-Harmless :
    (o : Outside) (p : ℕ) (scopes : List Scope) (incoming : List Incoming) (w : World)
    → ((s : Scope) → o.contains_scope scopes s ≡ false)
    → (v : World) × (listen_on_socket o p scopes incoming w ≡ ret tt v) × Harmless w v
listen_on_socket-Harmless o p scopes incoming w powerless =
    let (v, ends, backed) = listen_on_socket-Backed o p scopes incoming w in
    (
      v,
      ends,
      record {
        added = backed.added;
        grows = backed.grows;
        all_unscoped =
            All-unscoped (λ s. o.contains_scope scopes s) powerless backed.added backed.all_backed;
        same_servers = same_heap (λ s. o.contains_scope scopes s) w v powerless backed.changes;
        same_programs = backed.same_programs;
        same_queue = backed.same_queue;
      },
    )

-- A message "console" of any client, whatever its scopes, sends its command to the console of a server
-- that runs.
pub console_unchecked :
    (o : Outside) (p e : ℕ) (scopes : List Scope) (cmd : String) (w : World) (program : Program)
    → get_elem? w.heap p ≡ some program
    → program.environment ≡ some e
    → o.flag w.trace (Call.is_running e) ≡ true
    → listen_on_socket o p scopes
        (fields (("type", text "console") ∷ ("command", text cmd) ∷ []) ∷ [])
        w
      ≡ ret tt
          (record_call (Call.execute_in_main_process e cmd) (record_call (Call.is_running e) w))
unfolding listen_on_socket listen recovered on_message on_type on_console is_running string_field
    lower_is stepping lookup
console_unchecked o p e scopes cmd w program found has running = ground arith
