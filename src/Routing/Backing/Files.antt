-- ===== src/Routing/Backing/Files.antt =====
-- The messages of a web socket on files, and reloading a server (routing/server/websocket.go).
use pufferd.Common.{
  ℕ, String, Bool, List, true, false, Option, none, some, ◌≡◌, refl, ◌&&◌, inl, inr, ltb,
  Option-cases,
}
use pufferd.Types.{
  Err, Value, Scope, Program, FileData, listing, contents, servers_files_get, servers_files_put,
}
use pufferd.FilePath.{dir}
use pufferd.Text.{lower_is}
use pufferd.World.{Call, World, Outside, final, deref, store, ◌>>=◌}
use pufferd.World.Keeps.{
  Keeps, Keeps-pure, Keeps-crash, Keeps-bind, Keeps-then, Keeps-if, Keeps-option, Keeps-need,
  Keeps-ask_reply, Keeps-tell, Keeps-deref,
}
use pufferd.Program.Calls.{get_item-looks, on_allowed-Keeps}
use pufferd.Program.Files.{delete_item, create_folder, get_item}
use pufferd.Programs.{reload, get_from_cache}
use pufferd.Programs.Names.{load-Keeps}
use pufferd.Routing.Socket.{
  on_action, answer_with, send_item, send_contents, handle_get_file, on_file, string_field,
}
use pufferd.Routing.Backing.{covers, IsBacked, by, Backed, step, say, within, guarded-Backed}

module _ (o : Outside) (scopes : List Scope) (before : World) where
  abbrev held : Scope → Bool
  held s = o.contains_scope scopes s

  abbrev I : World → Type 0
  I w = Backed held before w

  module _ (may_look : held Scope.servers_files_get ≡ true) where
    send_item-Backed :
        (path : String) (edit_mode : Bool) (found : Option FileData × Option Err)
        → Keeps I (send_item o path edit_mode found)
    unfolding send_item send_contents
    send_item-Backed path edit_mode (found, some failed) = say o scopes before _ refl
    send_item-Backed path edit_mode (none, none) = Keeps-crash
    send_item-Backed path edit_mode (some (listing files), none) = say o scopes before _ refl
    send_item-Backed path edit_mode (some (contents name target size), none) =
        Keeps-then (sent (edit_mode && ltb size o.max_ws_download_size)) (
          Keeps-tell I o (IsBacked held) (step o scopes before) _
            (by Scope.servers_files_get may_look refl))
      where
        sent : (small : Bool) → Keeps I (send_contents o path name target small)
        sent true =
            Keeps-bind
              (Keeps-ask_reply I o (IsBacked held) (step o scopes before) _
                (by Scope.servers_files_get may_look refl))
              λ copied. say o scopes before _ refl
        sent false = say o scopes before _ refl

    handle_get_file-Backed :
        (p : ℕ) (path : String) (edit_mode : Bool) → Keeps I (handle_get_file o p path edit_mode)
    unfolding handle_get_file
    handle_get_file-Backed p path edit_mode = Keeps-bind (Keeps-deref p) λ program.
        Keeps-bind
          (get_item-looks o (within o scopes before Scope.servers_files_get may_look) program path)
          λ found. send_item-Backed path edit_mode found

    answer_with-Backed :
        (p : ℕ) (path : String) (failed : Option Err) → Keeps I (answer_with o p path failed)
    unfolding answer_with
    answer_with-Backed p path (some failed) = say o scopes before _ refl
    answer_with-Backed p path none = handle_get_file-Backed p path false

    changed :
        (p : ℕ) (name path : String) (act : String → Call)
        → ((target : String) → covers Scope.servers_files_put (act target) ≡ true)
        → held Scope.servers_files_put ≡ true
        → Keeps I (
            deref p >>= λ program.
            pufferd.Program.Files.on_allowed o program name act >>= answer_with o p path)
    changed p name path act covered holds = Keeps-bind (Keeps-deref p) λ program.
        Keeps-bind
          (on_allowed-Keeps o program name act
            (λ target w. within o scopes before Scope.servers_files_put holds _ w (covered target)))
          (answer_with-Backed p path)

    on_action-Backed :
        (p : ℕ) (action path : String) (edit_mode : Bool)
        → Keeps I (on_action o p scopes action path edit_mode)
    unfolding on_action delete_item create_folder
    on_action-Backed p action path edit_mode =
        Keeps-if (lower_is action "get") (handle_get_file-Backed p path edit_mode) (
          Keeps-if (lower_is action "delete")
            (guarded-Backed o scopes before servers_files_put
              (changed p path (dir path) Call.remove_all (λ _. refl)))
            (Keeps-if (lower_is action "create")
              (guarded-Backed o scopes before servers_files_put
                (changed p path path Call.mkdir (λ _. refl)))
              (Keeps-pure tt)))

  pub on_file-Backed :
      (p : ℕ) (mapping : List (String × Value)) → Keeps I (on_file o p scopes mapping)
  unfolding on_file
  on_file-Backed p mapping = guarded-Backed o scopes before servers_files_get λ may_look.
      Keeps-option (string_field "action" mapping) (Keeps-pure tt) λ action.
        Keeps-option (string_field "path" mapping) (Keeps-pure tt)
          λ path. on_action-Backed may_look p action path _

  pub reload-Backed : (id : String) → held Scope.servers_edit_admin ≡ true → Keeps I (reload o id)
  unfolding reload store
  reload-Backed id holds = record {
    at = λ w h. elim (Option-cases (get_from_cache id w)) [
      | inl unknown ↦ rw (unknown, final) h
      | inr (p, cached) ↦
          rw (cached, final)
            ((Keeps-bind
                (load-Keeps o
                  (λ path w. within o scopes before Scope.servers_edit_admin holds _ w refl)
                  (λ program w. rewritten w) id)
                λ (loaded, failed). Keeps-if _ (Keeps-pure _) (
                  Keeps-bind (Keeps-need loaded) λ q. Keeps-bind (Keeps-deref q) λ new.
                    Keeps-bind (Keeps-deref p)
                      λ old. Keeps-then (record { at = λ w. rewritten w }) (Keeps-pure _))).at
              w h)
    ];
  }
    where
      rewritten : (w : World) {heap : List Program} → I w → I (record w { heap = heap })
      rewritten w h = record {
        added = h.added;
        grows = h.grows;
        all_backed = h.all_backed;
        changes = inl holds;
        same_programs = h.same_programs;
        same_queue = h.same_queue;
      }
