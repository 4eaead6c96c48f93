-- ===== src/Tests/Connections.antt =====
-- The theorems on the SFTP server and on the routes.
use pufferd.Common.{
  ℕ, ◌<◌, String, List, [], ◌∷◌, true, false, none, some, ◌≡◌, ◌⊎◌, inl, inr, refl, arith, length,
}
use pufferd.Types.{text, other, file_not_exist, is_not_exist, is_exist, ok, Scope, status}
use pufferd.FilePath.{join}
use pufferd.World.{World, final, ret, stepping}
use pufferd.Sftp.Confined.{Confined}
use pufferd.Sftp
use pufferd.Sftp.Server.{write, Channel, Host, ChannelRequest, answer_requests}
use pufferd.Sftp.Sessions.{Within}
use pufferd.Sftp.Key.{answer_requests-panic}
use pufferd.Auth.{Authority, Credentials}
use pufferd.Auth.Guard.{Authorised}
use pufferd.Routing.Handlers.{Request}
use pufferd.Routing.Routes.{Route, on_kill, serve}
use pufferd.Routing.Guarded.{Untouched, serve-Guarded}
use pufferd.Program.{is_auto_start}
use pufferd.Program.Lifecycle.{is_running}
use pufferd.Daemon.{boot, prepare_folder, greet, greet_all, shutdown, shut_all, shielded, shut}
use pufferd.Daemon.Services.{
  Served, Round, returned, ended, serving, sent, run_rounds, entry, finish_entry, recover_panic,
}
use pufferd.Daemon.Ends.{GoesOn, Stops, run_rounds-ends, entry-closed}
use pufferd.Environments.Base.{Console, Formats, Line, display_all}
use pufferd.Environments.Listening.{Heard, display_all-Heard}
use pufferd.Programs.{load_from_folder, load_all, load}
use pufferd.Programs.Exit.{init_service, start_via_service, shutdown_service}
use pufferd.Auth.Named.{IsNamed}
use pufferd.Sftp.Connect.{handle_login, NoPath, handle_login-Confined}
use pufferd.Tests.Sample.{session, authority, sample, quiet, broken, authority}

abbrev upload : Sftp.Request
upload = record { method = "Put"; file_path = "/a.txt"; target = "" }

abbrev session_channel : Channel
session_channel = record {
  channel_type = "session";
  reject = none;
  accept = none;
  asked = write upload ∷ [];
  end = none;
}

-- An authorization server that knows the user.
abbrev knowing : Authority
knowing = record authority {
  status_of = λ t c. 200;
  reply_map = λ s. ok (("scope", text "sftp game") ∷ []);
}

abbrev visited : World
visited = final (handle_login quiet knowing "ann|game" "pass" session (session_channel ∷ []) sample)

handle_login-Confined_example :
    Confined NoPath [] visited.trace
    ⊎ ((id : String) × IsNamed quiet knowing "ann|game" "pass" [] visited.trace id
        × Confined (Within quiet (join "/srv" id) [] visited.trace) [] visited.trace)
handle_login-Confined_example =
    handle_login-Confined quiet knowing "ann|game" "pass" session (session_channel ∷ []) sample

-- A host without a key.
abbrev new_host : Host
new_host = record {
  key_file = "sftp.key";
  bind = "0.0.0.0:5657";
  stat = some file_not_exist;
  generated = none;
  key_text = "RSA";
  unwritten = none;
  read = ok "RSA";
  parse_private_key = λ s. none;
  no_listener = none;
}

abbrev sftp_request : ChannelRequest
sftp_request = record { kind = "subsystem"; payload = 0 ∷ 0 ∷ 0 ∷ 4 ∷ 115 ∷ 102 ∷ 116 ∷ 112 ∷ [] }

abbrev empty_request : ChannelRequest
empty_request = record { kind = "subsystem"; payload = [] }

answer_requests-panic_example :
    (answer_requests (sftp_request ∷ []) ≡ (true ∷ [], false))
    × (true ≡ true
        → 0 < 4
        → answer_requests (sftp_request ∷ empty_request ∷ []) ≡ (true ∷ [], true))
answer_requests-panic_example =
    answer_requests-panic (sftp_request ∷ []) [] empty_request (inr (omega arith), tt)

abbrev kill_route : Route
kill_route = record {
  method = "POST";
  path = "/server/:id/kill";
  scope = Scope.servers_stop;
  require_server = true;
  handler = on_kill;
}

abbrev stranger : Credentials
stranger = record { authorization = "Bearer abc"; access_token = ""; server = "game" }

abbrev kill_request : Request
kill_request = record {
  id = "game";
  wait = true;
  filename = "";
  folder = false;
  content_type = "";
  form_error = none;
  body = "";
  time = "";
  upgrade = none;
}

serve-Guarded_example :
    ((scopes : List Scope) × Authorised quiet authority none sample Scope.servers_stop stranger
        scopes)
    ⊎ Untouched authority sample
        (final (serve quiet authority (status 501) kill_route stranger none kill_request sample))
serve-Guarded_example =
    serve-Guarded quiet authority (status 501) kill_route stranger none kill_request sample

-- A listener among others.
abbrev heard_by_two : Console
heard_by_two = record { console_buffer = []; sockets = 4 ∷ 5 ∷ [] }

abbrev formats : Formats
formats = record { sprintf = λ format values. format; transmission = λ line. line }

abbrev greeting : Line
greeting = record { daemon = true; msg = "Starting server\n"; values = [] }

display_all-Heard_example :
    (d : Console) × (v : World) × (display_all quiet formats (greeting ∷ []) heard_by_two sample
      ≡ ret d v)
    × Heard quiet 5 (λ calls packet. refl) formats (greeting ∷ []) heard_by_two d sample v
display_all-Heard_example =
    display_all-Heard quiet 5 (λ calls packet. refl) formats (greeting ∷ []) heard_by_two sample
      refl

-- A round that panicked, and one that the web server ended with an error.
abbrev panicked_round : Round
panicked_round = record {
  pem = some file_not_exist;
  key = none;
  host = new_host;
  served = Served.panicked_error;
  run_service = true;
}

abbrev failed_round : Round
failed_round = record panicked_round { served = returned (some (other "address in use")) }

round-GoesOn : GoesOn panicked_round
unfolding recover_panic
round-GoesOn = (refl, refl)

round-Stops : Stops failed_round (some (other "address in use"))
unfolding recover_panic
round-Stops = (refl, inl refl)

run_rounds-ends_example :
    ((run_rounds true (panicked_round ∷ failed_round ∷ []) none).0
      ≡ ended (some (other "address in use")))
    × (length (run_rounds true (panicked_round ∷ failed_round ∷ []) none).1 ≡ 2)
    × ((run_rounds true (panicked_round ∷ []) none).0 ≡ serving)
run_rounds-ends_example =
    run_rounds-ends (panicked_round ∷ []) [] failed_round (some (other "address in use"))
      (round-GoesOn, tt) round-Stops

-- A daemon whose every call fails.
abbrev gone : World
gone = final (entry broken true (panicked_round ∷ []) sample)

broken-ends :
    entry broken true (panicked_round ∷ []) sample ≡ ret (sent (some (other "broken"))) gone
unfolding entry boot run_rounds prepare_folder is_not_exist is_exist load_from_folder load_all load
    init_service greet_all greet is_auto_start start_via_service finish_entry shutdown
    shutdown_service shut_all shielded shut is_running stepping
broken-ends = refl

entry-closed_example :
    (boot broken sample ≡ ret (some (other "broken"), false) gone)
    ⊎ ((p : ℕ) → start_via_service p gone ≡ gone)
entry-closed_example =
    entry-closed broken true (panicked_round ∷ []) (some (other "broken")) sample gone broken-ends
