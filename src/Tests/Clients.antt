-- ===== src/Tests/Clients.antt =====
-- The theorems on SFTP sessions, web sockets, requests and logins.
use pufferd.Common.{
  ℕ, ◌+◌, ◌≤◌, String, List, [], ◌∷◌, true, false, some, ◌≡◌, ◌⊎◌, refl, arith, ◌==◌, drop, lookup,
}
use pufferd.Types.{is_not_exist, other, text, servers_start, ok}
use pufferd.Text.{join_with, split}
use pufferd.World.{World, ret, final, stepping}
use pufferd.Programs.{get_from_cache, find, get}
use pufferd.Sftp.{Request, file_cmd}
use pufferd.Sftp.Confined.{Confined, MayTouch, file_cmd-Confined}
use pufferd.Sftp.Listing.{read_pages, read_pages-all}
use pufferd.Sockets.{write}
use pufferd.Sockets.Broadcast.{send_each, write-send_each}
use pufferd.Routing.Socket.{Incoming, fields, listen_on_socket}
use pufferd.Routing.Backing.{Backed}
use pufferd.Routing.Backed.{listen_on_socket-Backed}
use pufferd.Auth.{
  Credentials, granted, guard, token_of, bearer, with_token, with_loaded, with_key, with_claims,
  with_server, admit, load_public_key, scopes_for,
}
use pufferd.Auth.Guard.{Authorised, Served, guard-Authorised}
use pufferd.Auth.Login.{validate_ssh, server_of, first_server}
use pufferd.Auth.Tokens.{is_grant, posts, validate_ssh-posts, server_of-server}
use pufferd.Tests.Sample.{sample, quiet, open_house, authority, session}

abbrev rename_request : Request
rename_request = record { method = "Rename"; file_path = "/a.txt"; target = "/b.txt" }

file_cmd-Confined_example :
    Confined
      (MayTouch quiet [] "/srv/game")
      []
      (final (file_cmd quiet "/srv/game" rename_request sample)).trace
file_cmd-Confined_example = file_cmd-Confined quiet "/srv/game" rename_request sample

broken_exists : is_not_exist (some (other "broken")) ≡ false
unfolding is_not_exist
broken_exists = refl

abbrev numbers : List ℕ
numbers = 1 ∷ 2 ∷ 3 ∷ 4 ∷ 5 ∷ []

read_pages-all_example : read_pages 6 numbers 2 1 ≡ drop 1 numbers
read_pages-all_example = read_pages-all 6 numbers 2 1 (omega arith) (omega arith)

write-send_each_example :
    write quiet "hello" (4 ∷ 5 ∷ 6 ∷ []) sample
    ≡ ret
        (send_each quiet "hello" (4 ∷ 5 ∷ 6 ∷ []) sample).0
        (send_each quiet "hello" (4 ∷ 5 ∷ 6 ∷ []) sample).1
write-send_each_example = write-send_each quiet "hello" (4 ∷ 5 ∷ 6 ∷ []) sample

abbrev messages : List Incoming
messages = fields (("type", text "start") ∷ []) ∷ fields (("type", text "ping") ∷ []) ∷ []

listen_on_socket-Backed_example :
    (v : World) × (listen_on_socket quiet 0 [] messages sample ≡ ret tt v)
    × Backed (λ s. false) sample v
listen_on_socket-Backed_example = listen_on_socket-Backed quiet 0 [] messages sample

game_cached : get_from_cache "game" sample ≡ some 0
unfolding get_from_cache find
game_cached = refl

abbrev credentials : Credentials
credentials = record { authorization = "Bearer abc"; access_token = ""; server = "game" }

game_granted :
    guard open_house authority servers_start true credentials (some 5) sample
    ≡ ret (granted (servers_start ∷ []) (some 0), some 5) sample
unfolding guard token_of bearer split join_with with_token with_loaded with_key with_claims
    with_server admit load_public_key scopes_for get get_from_cache find lookup stepping
game_granted = refl

guard-Authorised_example :
    Authorised open_house authority (some 5) sample servers_start credentials (servers_start ∷ [])
    × Served true (some 0)
guard-Authorised_example =
    guard-Authorised open_house authority servers_start true credentials (some 5) (some 5) sample
      sample (servers_start ∷ []) (some 0) game_granted

validate_ssh-posts_example :
    (posts
        (is_grant "password")
        (final (validate_ssh quiet authority "ann|game" "pass" session sample)).trace
      ≤ posts (is_grant "password") sample.trace + 2)
    × (posts
          (is_grant "client_credentials")
          (final (validate_ssh quiet authority "ann|game" "pass" session sample)).trace
        ≤ posts (is_grant "client_credentials") sample.trace + 3)
    × (posts
          (λ f. true)
          (final (validate_ssh quiet authority "ann|game" "pass" session sample)).trace
        ≤ posts (λ f. true) sample.trace + 5)
validate_ssh-posts_example = validate_ssh-posts quiet authority "ann|game" "pass" session sample

two_scopes : server_of ("sftp" ∷ "game" ∷ []) ≡ ok "game"
unfolding server_of first_server
two_scopes = refl

server_of-server_example :
    (("game" == "sftp") ≡ false)
    × (((other : String) × ("sftp" ∷ "game" ∷ [] ≡ "game" ∷ other ∷ []))
        ⊎ ((first : String) × ("sftp" ∷ "game" ∷ [] ≡ first ∷ "game" ∷ []) × (first ≡ "sftp")))
server_of-server_example = server_of-server ("sftp" ∷ "game" ∷ []) "game" two_scopes
