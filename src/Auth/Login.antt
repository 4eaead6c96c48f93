-- ===== src/Auth/Login.antt =====
-- The daemon's own token and the logins of SFTP users (oauth2/shared.go, oauth2/ssh.go).
use pufferd.Common.{
  ℕ, ◌+◌, ◌*◌, String, Bool, List, [], ◌∷◌, true, false, Option, none, some, is_some, if◌then◌else◌,
  not, ◌==◌, ◌||◌, ltb, length, lookup, nat_beq,
}
use pufferd.Types.{other, Result, ok, err, Value}
use pufferd.Text.{◌<>◌, split}
use pufferd.World.{Call, Outside, ret, Go, pure, crash, ◌>>=◌, ask_reply}
use pufferd.Routing.Socket.{as_text}
use pufferd.Auth.{Authority, TokenReply}

-- The token of the daemon, when it was refreshed, and how long it holds, in nanoseconds.
pub record Session : Type 0 where
  pub daemon_token : String
  pub last_refresh : ℕ
  pub expires_in : ℕ

unfoldable pub minute : ℕ
minute = 60 * 1000000000

-- `createRequest` with the header that both callers set.
abbrev pub request : Authority → List (String × String) → String → Call
request a form token = Call.post_form (a.url <> "/oauth2/token") form token

abbrev pub refresh_form : Authority → List (String × String)
refresh_form a =
    ("grant_type", "client_credentials")
    ∷ ("client_id", a.client_id)
    ∷ ("client_secret", a.client_secret)
    ∷ []

-- The last part of `RefreshToken`.
unfoldable pub accept_reply : Authority → Session → TokenReply → Go (Bool × Session)
accept_reply a s reply w =
    if not (reply.error == "")
    then ret (false, s) w
    else ret
        (
          true,
          record {
            daemon_token = reply.access_token;
            last_refresh = a.clock w.trace;
            expires_in = reply.expires_in;
          },
        )
        w

unfoldable pub request_token : Outside → Authority → Session → Go (Bool × Session)
unfolding accept_reply
request_token o a s = do
  (body, failed) ← ask_reply o (request a (refresh_form a) s.daemon_token)
  if is_some failed then pure (false, s) else accept_reply a s (a.token_reply body)

-- `RefreshToken`: whether the token was refreshed.
unfoldable pub refresh_token : Outside → Authority → Session → Go (Bool × Session)
refresh_token o a s w =
    let asked = request_token o a s w in
    if ltb (a.clock w.trace) (s.last_refresh + minute)
    then ret (false, s) w
    else if a.client_id == "" || a.client_secret == ""
    then ret (false, s) w
    else asked

-- `RefreshIfStale`.
unfoldable pub refresh_if_stale : Outside → Authority → Session → Go Session
refresh_if_stale o a s w =
    let refreshed = (refresh_token o a s >>= λ result. pure result.1) w in
    if ltb (s.last_refresh + s.expires_in) (a.clock w.trace) then refreshed else ret s w

abbrev pub login_form : String → String → List (String × String)
login_form username password =
    ("grant_type", "password")
    ∷ ("username", username)
    ∷ ("password", password)
    ∷ ("scope", "sftp")
    ∷ []

abbrev pub no_valid_answer : Result String
no_valid_answer = err (other "invalid response from authorization server")

-- The loop over the scopes of the answer: the first that is not "sftp" is the server.
unfoldable pub first_server : List String → Result String
first_server [] = err (other "incorrect username or password")
first_server (v ∷ vs) = if not (v == "sftp") then ok v else first_server vs

unfoldable pub server_of : List String → Result String
unfolding first_server
server_of scopes = if not (nat_beq (length scopes) 2) then no_valid_answer else first_server scopes

-- The part of `validateSSH` behind a status of 200; a scope that is no text is a panic.
unfoldable pub read_scope : Option String → Go (Result String)
unfolding server_of
read_scope none = crash
read_scope (some scopes) = pure (server_of (split scopes b' '))

unfoldable pub read_login : Result (List (String × Value)) → Go (Result String)
unfolding read_scope
read_login (err e) = pure (err e)
read_login (ok fields) =
    if is_some (lookup "error" fields)
    then pure (err (other "incorrect username or password"))
    else read_scope (as_text (lookup "scope" fields))

-- A login: what follows an answer of 401 is an argument.
unfoldable pub attempt_login :
    Outside
    → Authority
    → String
    → String
    → (Session → Go (Result String × Session))
    → Session
    → Go (Result String × Session)
attempt_login o a username password unauthorized s = do
  fresh ← refresh_if_stale o a s
  let call = request a (login_form username password) fresh.daemon_token
  code ← λ w. ret (a.status_of w.trace call) w
  (body, failed) ← ask_reply o call
  if is_some failed
      then pure (no_valid_answer, fresh)
      else if nat_beq code 200
      then (read_login (a.reply_map body) >>= λ server. pure (server, fresh))
      else if nat_beq code 401
      then unauthorized fresh
      else pure (no_valid_answer, fresh)

-- `validateSSH`, by its `recurse`: the second login has no other behind it.
unfoldable pub login_again :
    Outside → Authority → String → String → Session → Go (Result String × Session)
login_again o a username password =
    attempt_login o a username password (λ fresh. pure (no_valid_answer, fresh))

unfoldable pub validate_ssh :
    Outside → Authority → String → String → Session → Go (Result String × Session)
validate_ssh o a username password = attempt_login o a username password λ fresh.
    refresh_token o a fresh >>= λ refreshed.
    if refreshed.0
    then login_again o a username password refreshed.1
    else pure (no_valid_answer, refreshed.1)
