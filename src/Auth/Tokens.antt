-- ===== src/Auth/Tokens.antt =====
-- Refreshing the daemon's token, and the logins of SFTP users.
use pufferd.Common.{
  ℕ, suc, ◌+◌, ◌*◌, ◌≤◌, ◌<◌, String, Bool, List, [], ◌∷◌, true, false, Option, none, some, is_some,
  if◌then◌else◌, ◌==◌, ◌≡◌, arith, Bool-cases, inl, inr, ◌⊎◌, ltb, eq_iff, lookup,
}
use pufferd.Types.{Result, ok, err, other, Value}
use pufferd.World.{
  Call, World, Outside, Outcome, ret, panic, Go, pure, ◌>>=◌, final, ask_reply, stepping,
}
use pufferd.World.Runs.{bind-eq, then_run}
use pufferd.Auth.{Authority, TokenReply}
use pufferd.Auth.Login.{
  Session, minute, refresh_form, login_form, refresh_token, request_token, accept_reply, request,
  first_server, server_of, validate_ssh, attempt_login, login_again, refresh_if_stale, read_login,
  read_scope,
}

-- Whether a form asks for a token in this way.
pub is_grant : String → List (String × String) → Bool
is_grant grant form = grants (lookup "grant_type" form)
  where
    grants : Option String → Bool
    grants (some g) = g == grant
    grants none = false

-- The requests with such a form that were sent to the authorization server.
abbrev pub posts : (List (String × String) → Bool) → List Call → ℕ
posts k [] = 0
posts k (Call.post_form u f t ∷ trace) = if k f then suc (posts k trace) else posts k trace
posts k (c ∷ trace) = posts k trace

-- At most so many of the requests that count.
abbrev Costs : (List (String × String) → Bool) → List (String × String) → ℕ → Type 0
Costs k f n = (if k f then 1 else 0) ≤ n

module _ (k : List (String × String) → Bool) where
  -- A function that sends at most so many requests that count.
  record Spends {A : Type 0} (n : ℕ) (m : Go A) : Type 0 where
    spent : (w : World) → posts k (final (m w)).trace ≤ posts k w.trace + n

  Spends-pure : {A : Type 0} (n : ℕ) (x : A) → Spends n (pure x)
  unfolding pure
  Spends-pure n x = record { spent = λ w. omega arith }

  Spends-now : {A : Type 0} (n : ℕ) (x : A) → Spends n (ret x)
  Spends-now n x = record { spent = λ w. omega arith }

  Spends-read : {A : Type 0} (f : World → A) → Spends 0 (λ w. ret (f w) w)
  Spends-read f = record { spent = λ w. omega arith }

  Spends-more : {A : Type 0} (i n : ℕ) {m : Go A} → i ≤ n → Spends i m → Spends n m
  Spends-more i n le h = record { spent = λ w. let few = h.spent w in omega arith }

  Spends-run :
      {A B : Type 0} (i n t p : ℕ) (f : A → Go B) (r : Outcome A)
      → i + n ≤ t
      → ((x : A) → Spends n (f x))
      → posts k (final r).trace ≤ p + i
      → posts k (final (then_run f r)).trace ≤ p + t
  Spends-run i n t p f (ret x v) sum hf h = let later = (hf x).spent v in omega arith
  Spends-run i n t p f (panic v) sum hf h = omega arith

  Spends-bind :
      {A B : Type 0} (i n t : ℕ) {m : Go A} {f : A → Go B}
      → i + n ≤ t
      → Spends i m
      → ((x : A) → Spends n (f x))
      → Spends t (m >>= f)
  Spends-bind i n t {m} {f} sum hm hf = record {
    spent =
        λ w. rw (bind-eq m f w) (Spends-run i n t (posts k w.trace) f (m w) sum hf (hm.spent w));
  }

  Spends-or :
      {A : Type 0} (n : ℕ) (b : World → Bool) {m l : Go A}
      → Spends n m
      → Spends n l
      → Spends n (λ w. if b w then m w else l w)
  Spends-or n b {m} {l} hm hl = record { spent = λ w. chosen w (b w) }
    where
      chosen :
          (w : World) (c : Bool)
          → posts k (final (if c then m w else l w)).trace ≤ posts k w.trace + n
      chosen w true = hm.spent w
      chosen w false = hl.spent w

  Spends-if :
      {A : Type 0} (n : ℕ) (b : Bool) {m l : Go A}
      → Spends n m
      → Spends n l
      → Spends n (if b then m else l)
  Spends-if n true hm hl = hm
  Spends-if n false hm hl = hl

  counted : (b : Bool) (p n : ℕ) → (if b then 1 else 0) ≤ n → (if b then suc p else p) ≤ p + n
  counted true p n h = omega arith
  counted false p n h = omega arith

  request-Spends :
      (o : Outside) (a : Authority) (f : List (String × String)) (t : String) (n : ℕ)
      → Costs k f n
      → Spends n (ask_reply o (request a f t))
  unfolding ask_reply
  request-Spends o a f t n h = record { spent = λ w. counted (k f) (posts k w.trace) n h }

  read_login-Spends : (reply : Result (List (String × Value))) → Spends 0 (read_login reply)
  unfolding read_login read_scope stepping
  read_login-Spends reply = record { spent = λ w. ground arith }

  accept_reply-Spends :
      (a : Authority) (s : Session) (reply : TokenReply) → Spends 0 (accept_reply a s reply)
  unfolding accept_reply
  accept_reply-Spends a s reply = record { spent = λ w. ground arith }

  -- A refresh of the token sends at most `r` requests that count, and a login at most `l`.
  module _ (o : Outside) (a : Authority) (r l : ℕ) (refreshes : Costs k (refresh_form a) r) where
    request_token-Spends : (s : Session) → Spends r (request_token o a s)
    unfolding request_token
    request_token-Spends s =
        Spends-bind r 0 r (omega arith) (request-Spends o a _ _ r refreshes) λ got.
          Spends-if 0 (is_some got.1) (Spends-pure 0 (false, s))
            (accept_reply-Spends a s (a.token_reply got.0))

    refresh_token-Spends : (s : Session) → Spends r (refresh_token o a s)
    unfolding refresh_token
    refresh_token-Spends s =
        Spends-or r _ (Spends-now r (false, s))
          (Spends-or r _ (Spends-now r (false, s)) (request_token-Spends s))

    refresh_if_stale-Spends : (s : Session) → Spends r (refresh_if_stale o a s)
    unfolding refresh_if_stale
    refresh_if_stale-Spends s =
        Spends-or r (λ v. ltb (s.last_refresh + s.expires_in) (a.clock v.trace))
          (Spends-bind r 0 r (omega arith) (refresh_token-Spends s)
            (λ result. Spends-pure 0 result.1))
          (Spends-now r s)

    module _ (username password : String) (logins : Costs k (login_form username password) l) where
      attempt_login-Spends :
          (n : ℕ) (unauthorized : Session → Go (Result String × Session))
          → ((s : Session) → Spends n (unauthorized s))
          → (s : Session) → Spends (r + l + n) (attempt_login o a username password unauthorized s)
      unfolding attempt_login
      attempt_login-Spends n unauthorized h s =
          Spends-bind r (l + n) (r + l + n) (omega arith) (refresh_if_stale-Spends s) λ fresh.
            Spends-bind 0 (l + n) (l + n) (omega arith) (Spends-read _) λ code.
              Spends-bind l n (l + n) (omega arith) (request-Spends o a _ _ l logins) λ got.
                Spends-if n _ (Spends-pure n _) (
                  Spends-if n _
                    (Spends-bind 0 n n (omega arith) (read_login-Spends _)
                      (λ server. Spends-pure n _))
                    (Spends-if n _ (h fresh) (Spends-pure n _)))

      login_again-Spends : (s : Session) → Spends (r + l) (login_again o a username password s)
      unfolding login_again
      login_again-Spends s =
          Spends-more (r + l + 0) (r + l) (omega arith)
            (attempt_login-Spends 0 _ (λ t. Spends-pure 0 _) s)

      validate_ssh-Spends :
          (s : Session) → Spends (3 * r + 2 * l) (validate_ssh o a username password s)
      unfolding validate_ssh
      validate_ssh-Spends s =
          Spends-more (r + l + (r + (r + l))) (3 * r + 2 * l) (omega arith)
            (attempt_login-Spends (r + (r + l)) _ again s)
        where
          again :
              (fresh : Session)
              → Spends (r + (r + l)) (
                  refresh_token o a fresh >>= λ refreshed.
                  if refreshed.0
                  then login_again o a username password refreshed.1
                  else pure (err (other "invalid response from authorization server"), refreshed.1))
          again fresh =
              Spends-bind r (r + l) (r + (r + l)) (omega arith) (refresh_token-Spends fresh)
                λ refreshed.
                  Spends-if (r + l) _ (login_again-Spends refreshed.1) (Spends-pure (r + l) _)

-- A login of an SFTP user sends at most five requests to the authorization server, whatever that
-- server answers: at most two that log the user in, and at most three that refresh the daemon's token.
pub validate_ssh-posts :
    (o : Outside) (a : Authority) (username password : String) (s : Session) (w : World)
    → (posts (is_grant "password") (final (validate_ssh o a username password s w)).trace
        ≤ posts (is_grant "password") w.trace + 2)
      × (posts
            (is_grant "client_credentials")
            (final (validate_ssh o a username password s w)).trace
          ≤ posts (is_grant "client_credentials") w.trace + 3)
      × (posts (λ f. true) (final (validate_ssh o a username password s w)).trace
          ≤ posts (λ f. true) w.trace + 5)
unfolding is_grant lookup
validate_ssh-posts o a username password s w = (
  (validate_ssh-Spends (is_grant "password") o a 0 1 (omega arith) username password (omega arith)
        s).spent
      w,
  (validate_ssh-Spends (is_grant "client_credentials") o a 1 0 (omega arith) username password
        (omega arith) s).spent
      w,
  (validate_ssh-Spends (λ f. true) o a 1 1 (omega arith) username password (omega arith) s).spent w,
)

-- An answer's scopes log a user in to a server only if they are two, and the server is the first of
-- them, or the second behind "sftp"; and the server is never "sftp" itself.
pub server_of-server :
    (scopes : List String) (id : String)
    → server_of scopes ≡ ok id
    → ((id == "sftp") ≡ false)
      × (((other : String) × (scopes ≡ id ∷ other ∷ []))
          ⊎ ((first : String) × (scopes ≡ first ∷ id ∷ []) × (first ≡ "sftp")))
unfolding server_of first_server
server_of-server [] id h = ground arith
server_of-server (x ∷ []) id h = ground arith
server_of-server (x ∷ y ∷ []) id h = elim (Bool-cases (x == "sftp")) [
  | inl is_sftp ↦ (ground arith, inr (x, ground arith, ground (arith, eq_iff x "sftp")))
  | inr is_server ↦ (ground arith, inl (y, ground arith))
]
server_of-server (x ∷ y ∷ z ∷ rest) id h = ground arith

-- A refresh that succeeded is followed by none for a minute: a second one sends nothing, says that it
-- did nothing, and leaves the session as it is.
pub refresh_twice :
    (o : Outside) (a : Authority) (s t : Session) (w v later : World)
    → refresh_token o a s w ≡ ret (true, t) v
    → a.clock later.trace < a.clock v.trace + minute
    → refresh_token o a t later ≡ ret (false, t) later
unfolding refresh_token request_token accept_reply stepping
refresh_twice o a s t w v later h soon = ground (arith)
