-- ===== src/Sftp/Server.antt =====
-- sftp/server.go: the server of the SFTP sessions. The protocol is of the libraries `ssh` and `sftp`: the
-- channels of a connection, and what a client asks on each, are given. Logging and the closing of
-- connections are left out.
use pufferd.Common.{
  ℕ, String, Bool, List, [], ◌∷◌, true, false, Option, none, some, is_some, if◌then◌else◌, not,
  ◌==◌, ◌&&◌, nat_beq, drop, length, ltb,
}
use pufferd.Types.{Err, Result, ok, err, is_not_exist}
use pufferd.FilePath.{join}
use pufferd.World.{Outside, Go, pure, ◌>>=◌, ◌>>◌}
use pufferd.Sftp.{Request, file_read, file_write, file_cmd, file_list}

-- What `runServer` does, oldest first.
pub data Effect : Type 0 where
  generate_key : Effect
  write_key : String → String → Effect
  read_key : String → Effect
  listen : String → Effect

-- What the system and the libraries answer to `runServer`: `key_text` is the new key's PEM text.
pub record Host : Type 0 where
  pub key_file : String
  pub bind : String
  pub stat : Option Err
  pub generated : Option Err
  pub key_text : String
  pub unwritten : Option Err
  pub read : Result String
  pub parse_private_key : String → Option Err
  pub no_listener : Option Err

-- The end of `runServer`, from the reading of the key on, behind what was done before.
unfoldable pub listen_with : Host → Result String → Option Err × List Effect
listen_with h (err e) = (some e, read_key h.key_file ∷ [])
listen_with h (ok data_read) = elim (h.parse_private_key data_read) [
  | some e ↦ (some e, read_key h.key_file ∷ [])
  | none ↦ (h.no_listener, read_key h.key_file ∷ listen h.bind ∷ [])
]

abbrev pub behind : List Effect → Option Err × List Effect → Option Err × List Effect
behind before (e, after) = (e, mathlib.Core.List.◌++◌ before after)

-- A new key, and its error.
unfoldable pub make_key : Host → Option Err × List Effect
make_key h = elim h.generated [
  | some e ↦ (some e, generate_key ∷ [])
  | none ↦ (h.unwritten, generate_key ∷ write_key h.key_file h.key_text ∷ [])
]

-- What a key that could not be made stops.
unfoldable pub with_key : Host → Option Err × List Effect → Option Err × List Effect
unfolding listen_with
with_key h (some e, before) = (some e, before)
with_key h (none, before) = behind before (listen_with h h.read)

unfoldable pub run_server : Host → Option Err × List Effect
unfolding listen_with make_key with_key is_not_exist
run_server h =
    if is_some h.stat && is_not_exist h.stat
    then with_key h (make_key h)
    else if is_some h.stat
    then (h.stat, [])
    else listen_with h h.read

-- A request on a channel: its type and its payload, in bytes.
pub record ChannelRequest : Type 0 where
  pub kind : String
  pub payload : List ℕ

abbrev pub same_bytes : List ℕ → List ℕ → Bool
same_bytes [] [] = true
same_bytes (a ∷ as') (b ∷ bs) = nat_beq a b && same_bytes as' bs
same_bytes _ _ = false

abbrev pub sftp_bytes : List ℕ
sftp_bytes = b's' ∷ b'f' ∷ b't' ∷ b'p' ∷ []

-- The answer to a request; slicing a payload that is too short panics.
unfoldable pub answer_request : ChannelRequest → Option Bool
answer_request r =
    if r.kind == "subsystem"
    then if ltb (length r.payload) 4 then none else some (same_bytes (drop 4 r.payload) sftp_bytes)
    else some false

-- The goroutine of a channel: its answers, and whether it panicked.
unfoldable pub answer_requests : List ChannelRequest → List Bool × Bool
unfolding answer_request
answer_requests [] = ([], false)
answer_requests (r ∷ rs) =
    let rest = answer_requests rs in
    elim (answer_request r) [ none ↦ ([], true) | some accepted ↦ (accepted ∷ rest.0, rest.1) ]

-- `PrintDiscardRequests`: the answers, to those requests that want one.
unfoldable pub print_discard_requests : List Bool → List Bool
print_discard_requests [] = []
print_discard_requests (want_reply ∷ reqs) =
    let rest = print_discard_requests reqs in if want_reply then false ∷ rest else rest

-- What a client asks on a session, as the library hands it to the handlers.
pub data Asked : Type 0 where
  read write command list : Request → Asked

unfoldable pub handle : Outside → String → Asked → Go (Unit {0})
unfolding pure ◌>>=◌ ◌>>◌
handle o prefix (read r) = file_read o prefix r >> pure tt
handle o prefix (write r) = file_write o prefix r >> pure tt
handle o prefix (command r) = file_cmd o prefix r >> pure tt
handle o prefix (list r) = file_list o prefix r >> pure tt

-- `server.Serve()`.
unfoldable pub serve : Outside → String → List Asked → Option Err → Go (Option Err)
unfolding handle pure ◌>>=◌ ◌>>◌
serve o prefix [] end = pure end
serve o prefix (a ∷ rest) end = handle o prefix a >> serve o prefix rest end

-- A channel that a client opens, with its type.
pub record Channel : Type 0 where
  pub channel_type : String
  pub reject : Option Err
  pub accept : Option Err
  pub asked : List Asked
  pub end : Option Err

-- The loop of `handleConn` over the channels, with the folder of the connection's server.
unfoldable pub handle_channels : Outside → String → List Channel → Go (Option Err)
unfolding serve pure ◌>>=◌
handle_channels o prefix [] = pure none
handle_channels o prefix (c ∷ rest) =
    let more = handle_channels o prefix rest in
    if not (c.channel_type == "session")
    then if is_some c.reject then pure c.reject else more
    else if is_some c.accept
    then pure c.accept
    else serve o prefix c.asked c.end >>= λ failed. if is_some failed then pure failed else more

-- `handleConn`, with the identifier that the login has given the connection.
unfoldable pub handle_conn : Outside → Result String → List Channel → Go (Option Err)
unfolding handle_channels pure
handle_conn o (err e) channels = pure (some e)
handle_conn o (ok server_id) channels = handle_channels o (join o.server_folder server_id) channels
