-- ===== src/Auth/Posts.antt =====
-- A login makes requests to the authorization server, and nothing else (oauth2/shared.go, oauth2/ssh.go).
use pufferd.Common.{
  String, Bool, List, true, false, Option, none, some, if◌then◌else◌, lookup, ltb, ◌==◌, ◌||◌, inl,
  inr, Bool-cases, ◌+◌,
}
use pufferd.Types.{Result, ok, err, Value}
use pufferd.World.{World, Outside, ret, Go, pure, ◌>>=◌, final, record_call, ask_reply}
use pufferd.World.Keeps.{Keeps, Keeps-pure, Keeps-crash, Keeps-bind, Keeps-if, Keeps-read}
use pufferd.Auth.{Authority, TokenReply}
use pufferd.Auth.Login.{
  Session, minute, request, accept_reply, request_token, refresh_token, refresh_if_stale,
  read_scope, read_login, attempt_login, login_again, validate_ssh,
}
use pufferd.Routing.Socket.{as_text}

-- Requests to the authorization server, which every login only makes.
module _ {I : World → Type 0} (o : Outside) (a : Authority)
    (posts : (form : List (String × String)) (token : String) (w : World)
      → I w
      → I (record_call (request a form token) w)) where
  post :
      (form : List (String × String)) (token : String)
      → Keeps I (ask_reply o (request a form token))
  unfolding ask_reply
  post form token = record { at = posts form token }

  request_token-Keeps : (s : Session) → Keeps I (request_token o a s)
  unfolding request_token
  request_token-Keeps s =
      Keeps-bind (post _ _)
        λ (body, failed). Keeps-if _ (Keeps-pure _) (accepted (a.token_reply body))
    where
      accepted : (reply : TokenReply) → Keeps I (accept_reply a s reply)
      accepted reply = record {
        at = λ w h. elim (Bool-cases (reply.error == "")) [
          | inl good ↦ rw (good, accept_reply, final) h
          | inr bad ↦ rw (bad, accept_reply, final) h
        ];
      }

  pub refresh_token-Keeps : (s : Session) → Keeps I (refresh_token o a s)
  unfolding refresh_token
  refresh_token-Keeps s = record {
    at = λ w h.
        chosen w h (ltb (a.clock w.trace) (s.last_refresh + minute))
          (a.client_id == "" || a.client_secret == "");
  }
    where
      chosen :
          (w : World)
          → I w
          → (early unset : Bool)
          → I (
              final (
                if early
                then ret (false, s) w
                else if unset
                then ret (false, s) w
                else request_token o a s w))
      chosen w h true unset = h
      chosen w h false true = h
      chosen w h false false = (request_token-Keeps s).at w h

  pub refresh_if_stale-Keeps : (s : Session) → Keeps I (refresh_if_stale o a s)
  unfolding refresh_if_stale
  refresh_if_stale-Keeps s = record {
    at = λ w h. chosen w h (ltb (s.last_refresh + s.expires_in) (a.clock w.trace));
  }
    where
      chosen :
          (w : World)
          → I w
          → (stale : Bool)
          → I (
              final
                (if stale then (refresh_token o a s >>= λ result. pure result.1) w else ret s w))
      chosen w h true = (Keeps-bind (refresh_token-Keeps s) λ result. Keeps-pure _).at w h
      chosen w h false = h

  read_login-Keeps : (reply : Result (List (String × Value))) → Keeps I (read_login reply)
  unfolding read_login read_scope
  read_login-Keeps (err e) = Keeps-pure _
  read_login-Keeps (ok fields) =
      Keeps-if _ (Keeps-pure _) (scoped (as_text (lookup "scope" fields)))
    where
      scoped : (scopes : Option String) → Keeps I (read_scope scopes)
      scoped none = Keeps-crash
      scoped (some scopes) = Keeps-pure _

  attempt_login-Keeps :
      (username password : String) (unauthorized : Session → Go (Result String × Session))
      → ((s : Session) → Keeps I (unauthorized s))
      → (s : Session) → Keeps I (attempt_login o a username password unauthorized s)
  unfolding attempt_login
  attempt_login-Keeps username password unauthorized h s =
      Keeps-bind (refresh_if_stale-Keeps s) λ fresh. Keeps-bind (Keeps-read _) λ code.
        Keeps-bind (post _ _) λ (body, failed). Keeps-if _ (Keeps-pure _) (
          Keeps-if _ (Keeps-bind (read_login-Keeps _) λ server. Keeps-pure _)
            (Keeps-if _ (h fresh) (Keeps-pure _)))

  pub validate_ssh-Keeps :
      (username password : String) (s : Session) → Keeps I (validate_ssh o a username password s)
  unfolding validate_ssh login_again
  validate_ssh-Keeps username password = attempt_login-Keeps username password _ λ fresh.
      Keeps-bind (refresh_token-Keeps fresh) λ refreshed.
        Keeps-if _ (attempt_login-Keeps username password _ (λ s. Keeps-pure _) refreshed.1)
          (Keeps-pure _)
