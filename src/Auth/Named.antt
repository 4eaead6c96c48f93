-- ===== src/Auth/Named.antt =====
-- Which server a login is for (oauth2/ssh.go).
use pufferd.Common.{
  String, Bool, List, [], ◌∷◌, true, false, Option, none, some, is_some, if◌then◌else◌, ◌≡◌, refl,
  lookup, nat_beq, inl, inr, Option-cases,
}
use pufferd.Types.{Err, Result, Result-cases, ok, err, Value}
use pufferd.Text.{split}
use pufferd.World.{
  Call, World, Outside, Outcome, ret, panic, Go, pure, ◌>>=◌, record_call, ask_reply, stepping,
}
use pufferd.World.Keeps.{Follows, Follows-trans, bind_outcome}
use pufferd.Auth.{Authority}
use pufferd.Auth.Posts.{refresh_token-Keeps, refresh_if_stale-Keeps}
use pufferd.Auth.Login.{
  Session, request, login_form, no_valid_answer, server_of, read_scope, read_login, attempt_login,
  login_again, validate_ssh,
}
use pufferd.Routing.Socket.{as_text}

-- Between two histories a login of this user was sent, and the authorization server has answered it with 200
-- and scopes that name the server.
pub record IsNamed (o : Outside) (a : Authority) (username password : String)
    (start end : List Call) (id : String) : Type 0 where
  pub before : List Call
  pub begun : Follows before start
  pub token : String
  pub sent : Follows end (request a (login_form username password) token ∷ before)
  pub accepted :
      nat_beq (a.status_of before (request a (login_form username password) token)) 200 ≡ true
  pub unbroken : o.answer before (request a (login_form username password) token) ≡ none
  pub fields : List (String × Value)
  pub answered :
      a.reply_map (o.reply before (request a (login_form username password) token)) ≡ ok fields
  pub no_error : lookup "error" fields ≡ none
  pub scopes : String
  pub has_scopes : as_text (lookup "scope" fields) ≡ some scopes
  pub names : server_of (split scopes b' ') ≡ ok id

module _ (o : Outside) (a : Authority) (username password : String) (start : List Call) where
  -- A login that succeeds is named by an answer.
  abbrev pub Named : Outcome (Result String × Session) → Type 0
  Named (ret (ok id, s) v) = IsNamed o a username password start v.trace id
  Named (ret (err e, s) v) = Unit
  Named (panic v) = Unit

  -- A login only goes on with the history.
  abbrev Grown : World → Type 0
  Grown w = Follows w.trace start

  grow :
      (form : List (String × String)) (token : String) (w : World)
      → Grown w
      → Grown (record_call (request a form token) w)
  grow form token w h = Follows-trans (request a form token ∷ [], refl) h

  -- An answer of status 200.
  read-Named :
      (t : List Call) (token : String) (fresh : Session) (reply : Result (List (String × Value)))
      (w : World)
      → Follows t start
      → w.trace ≡ request a (login_form username password) token ∷ t
      → nat_beq (a.status_of t (request a (login_form username password) token)) 200 ≡ true
      → o.answer t (request a (login_form username password) token) ≡ none
      → a.reply_map (o.reply t (request a (login_form username password) token)) ≡ reply
      → Named ((read_login reply >>= λ server. pure (server, fresh)) w)
  unfolding read_login read_scope stepping
  read-Named t token fresh (err e) w begun sent is_ok unbroken answered = tt
  read-Named t token fresh (ok fields) w begun sent is_ok unbroken answered =
      elim (Option-cases (lookup "error" fields)) [
        | inl no_error ↦ elim (Option-cases (as_text (lookup "scope" fields))) [
          | inl no_text ↦ rw (no_error, no_text) tt
          | inr (scopes, has_scopes) ↦ elim (Result-cases (server_of (split scopes b' '))) [
            | inl (e, bad) ↦ rw (no_error, has_scopes, bad) tt
            | inr (id, names) ↦
                rw (no_error, has_scopes, names)
                  (record {
                    before = t;
                    begun = begun;
                    token = token;
                    sent = ([], sent);
                    accepted = is_ok;
                    unbroken = unbroken;
                    fields = fields;
                    answered = answered;
                    no_error = no_error;
                    scopes = scopes;
                    has_scopes = has_scopes;
                    names = names;
                  })
          ]
        ]
        | inr (e, is_error) ↦ rw is_error tt
      ]

  attempt_login-Named :
      (unauthorized : Session → Go (Result String × Session))
      → ((s : Session) (w : World) → Grown w → Named (unauthorized s w))
      → (s : Session) (w : World) → Grown w
      → Named (attempt_login o a username password unauthorized s w)
  unfolding attempt_login ask_reply ◌>>=◌ pure
  attempt_login-Named unauthorized h s =
      bind_outcome Grown Named _ _ (refresh_if_stale-Keeps o a grow s)
        (λ fresh v grown. answered fresh v grown _ _ _ refl refl) (λ v _. tt)
    where
      answered :
          (fresh : Session) (v : World)
          → Grown v
          → (failed : Option Err) (is_ok denied : Bool)
          → o.answer v.trace (request a (login_form username password) fresh.daemon_token) ≡ failed
          → nat_beq
              (a.status_of v.trace (request a (login_form username password) fresh.daemon_token))
              200
            ≡ is_ok
          → Named (
              (if is_some failed
                  then pure (no_valid_answer, fresh)
                  else if is_ok
                  then (read_login (
                        a.reply_map (
                          o.reply v.trace
                            (request a (login_form username password) fresh.daemon_token)))
                      >>= λ server. pure (server, fresh))
                  else if denied
                  then unauthorized fresh
                  else pure (no_valid_answer, fresh))
                (record_call (request a (login_form username password) fresh.daemon_token) v))
      answered fresh v grown (some failed) is_ok denied d e = tt
      answered fresh v grown none true denied d e =
          read-Named v.trace fresh.daemon_token fresh _ _ grown refl e d refl
      answered fresh v grown none false true d e = h fresh _ (grow _ _ v grown)
      answered fresh v grown none false false d e = tt

  pub validate_ssh-Named :
      (s : Session) (w : World)
      → Follows w.trace start
      → Named (validate_ssh o a username password s w)
  unfolding validate_ssh login_again pure
  validate_ssh-Named = attempt_login-Named _ λ fresh.
      bind_outcome Grown Named _ _ (refresh_token-Keeps o a grow fresh)
        (λ refreshed v grown. again refreshed v grown) (λ v _. tt)
    where
      again :
          (refreshed : Bool × Session) (v : World)
          → Grown v
          → Named (
              (if refreshed.0
                  then login_again o a username password refreshed.1
                  else pure (no_valid_answer, refreshed.1))
                v)
      again (true, later) v grown = attempt_login-Named _ (λ fresh u _. tt) later v grown
      again (false, later) v grown = tt

-- A login that was answered stays so.
pub IsNamed-later :
    {o : Outside} {a : Authority} {username password id : String} {start middle end : List Call}
    → Follows end middle
    → IsNamed o a username password start middle id
    → IsNamed o a username password start end id
IsNamed-later later n = record {
  before = n.before;
  begun = n.begun;
  token = n.token;
  sent = Follows-trans later n.sent;
  accepted = n.accepted;
  unbroken = n.unbroken;
  fields = n.fields;
  answered = n.answered;
  no_error = n.no_error;
  scopes = n.scopes;
  has_scopes = n.has_scopes;
  names = n.names;
}
