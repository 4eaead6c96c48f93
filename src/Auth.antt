-- ===== src/Auth.antt =====
-- The authorisation of requests (authorization.go, httphandlers/oauth2.go),
-- and what the daemon knows of its authorization server.
pub mod Guard
pub mod Login
pub mod Tokens
pub mod Posts
pub mod Named
use pufferd.Common.{
  ℕ, ◌+◌, ◌*◌, String, Bool, List, [], ◌∷◌, ◌++◌, true, false, Option, none, some, is_some,
  if◌then◌else◌, not, ◌==◌, ◌||◌, ◌&&◌, ltb, length, lookup, nat_beq,
}
use pufferd.Types.{
  Err, missing_access_token, not_bearer_token, key_not_pem, key_not_ecdsa, missing_scope, other,
  Result, ok, err, Value, text, Scope,
}
use pufferd.Text.{◌<>◌, split, join_with}
use pufferd.World.{
  Call, Outside, World, Outcome, ret, panic, Go, pure, crash, ◌>>=◌, ◌>>◌, ask, ask_reply, tell,
  need,
}
use pufferd.Programs.{get}
use pufferd.Routing.Socket.{as_text}

-- The fields of `requestResponse` (oauth2/shared.go), zero where the decoding gave nothing.
pub record TokenReply : Type 0 where
  pub access_token : String
  pub expires_in : ℕ
  pub error : String

-- The settings, the clock, and what the libraries for keys, tokens and JSON compute. A field that JSON
-- sets to null is one that is not there.
pub record Authority : Type 0 where
  pub client_id : String
  pub client_secret : String
  pub url : String
  pub public_key_path : String
  pub clock : List Call → ℕ
  pub status_of : List Call → Call → ℕ
  pub token_reply : String → TokenReply
  pub reply_map : String → Result (List (String × Value))
  pub decode_pem : String → Option String
  pub parse_key : String → Result ℕ
  pub is_ecdsa : ℕ → Bool
  pub parse_token : ℕ → String → Result (List (String × List Scope))

-- `LoadPublicKey`, with the key that is kept: a result, and the key kept from now on.
unfoldable pub parse_public : Authority → String → Result ℕ
parse_public a source = elim (a.decode_pem source) [
  | none ↦ err key_not_pem
  | some block ↦ elim (a.parse_key block) [
    | err e ↦ err e
    | ok key ↦ if a.is_ecdsa key then ok key else err key_not_ecdsa
  ]
]

abbrev pub keep_key : Result ℕ → Option ℕ
keep_key (ok key) = some key
keep_key (err e) = none

abbrev pub read_opened : Outside → String → Option Err → Go (String × Option Err)
read_opened o path (some failed) = pure ("", some failed)
read_opened o path none = ask_reply o (Call.read_file path)

unfoldable pub load_public_key : Outside → Authority → Option ℕ → Go (Result ℕ × Option ℕ)
load_public_key o a (some key) = pure (ok key, some key)
load_public_key o a none = do
  failed ← ask o (Call.open_file a.public_key_path)
  (source, _) ← read_opened o a.public_key_path failed
  pure (parse_public a source, keep_key (parse_public a source))

-- What the guard of a route reads of a request.
pub record Credentials : Type 0 where
  pub authorization : String
  pub access_token : String
  pub server : String

-- The token of a request: of the header, or of the query without one.
unfoldable pub bearer : List String → Result String
bearer [] = err not_bearer_token
bearer (scheme ∷ rest) =
    if (ltb (length rest) 1) || not (scheme == "Bearer")
    then err not_bearer_token
    else ok (join_with " " rest)

unfoldable pub token_of : Credentials → Result String
unfolding bearer
token_of c =
    if not (c.authorization == "")
    then bearer (split c.authorization b' ')
    else if c.access_token == ""
    then err missing_access_token
    else ok c.access_token

-- The scopes of a server and the scopes of all servers.
abbrev pub scopes_at : String → List (String × List Scope) → List Scope
scopes_at k claims = elim (lookup k claims) [ none ↦ [] | some scopes ↦ scopes ]

unfoldable pub scopes_for : String → List (String × List Scope) → List Scope
scopes_for server claims = scopes_at server claims ++ scopes_at "" claims

-- What the guard decides: the error's status (404 has none), or the scopes and the server.
pub data Verdict : Type 0 where
  refused : ℕ → Option Err → Verdict
  granted : List Scope → Option ℕ → Verdict

-- The last part of `OAuth2Handler`: the server, where one is asked for.
unfoldable pub admit : List Scope → Option ℕ × Option Err → Go Verdict
admit scopes (some program, failed) = pure (granted scopes (some program))
admit scopes (none, failed) = pure (refused 404 none)

unfoldable pub with_server : Outside → String → Bool → List Scope → Go Verdict
with_server o server false scopes = pure (granted scopes none)
with_server o server true scopes = get o server >>= admit scopes

unfoldable pub with_claims :
    Outside → Scope → Bool → String → Result (List (String × List Scope)) → Go Verdict
with_claims o required require_server server (err e) = pure (refused 403 (some e))
with_claims o required require_server server (ok claims) =
    if not (o.contains_scope (scopes_for server claims) required)
    then pure (refused 403 (some missing_scope))
    else with_server o server require_server (scopes_for server claims)

unfoldable pub with_key :
    Outside → Authority → Scope → Bool → String → String → Result ℕ → Go Verdict
with_key o a required require_server server token (err e) = pure (refused 500 (some e))
with_key o a required require_server server token (ok key) =
    with_claims o required require_server server (a.parse_token key token)

-- `OAuth2Handler`, with the key that is kept.
unfoldable pub with_loaded :
    Outside
    → Authority
    → Scope
    → Bool
    → String
    → String
    → Result ℕ × Option ℕ
    → Go (Verdict × Option ℕ)
with_loaded o a required require_server server token (key, kept) =
    with_key o a required require_server server token key >>= λ verdict. pure (verdict, kept)

unfoldable pub with_token :
    Outside → Authority → Scope → Bool → String → Option ℕ → Result String → Go (Verdict × Option ℕ)
with_token o a required require_server server kept (err e) = pure (refused 400 (some e), kept)
with_token o a required require_server server kept (ok token) =
    load_public_key o a kept >>= with_loaded o a required require_server server token

unfoldable pub guard :
    Outside → Authority → Scope → Bool → Credentials → Option ℕ → Go (Verdict × Option ℕ)
guard o a required require_server c kept =
    with_token o a required require_server c.server kept (token_of c)
