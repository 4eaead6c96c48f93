-- ===== src/Auth/Guard.antt =====
-- What a request that passes the guard of a route has shown.
use pufferd.Common.{
  ℕ, String, Bool, List, ◌∷◌, Option-cases, true, false, Option, none, some, is_some, ◌≡◌, refl,
  Bool-cases, inl, inr, subst,
}
use pufferd.Types.{Err, Result, ok, err, Scope}
use pufferd.World.{Call, World, Outside, Outcome, ret, panic, pure, stepping}
use pufferd.World.Runs.{bind-eq, then_run}
use pufferd.Programs.{get}
use pufferd.Auth.{
  Authority, Credentials, Verdict, refused, granted, token_of, scopes_for, with_server, admit,
  with_loaded, with_claims, with_key, with_token, guard, load_public_key, parse_public,
}

-- The public key of the daemon: the one that is kept, or without one the one that is read of the key's file,
-- of which a file that cannot be opened leaves nothing to read.
pub data IsKey (o : Outside) (a : Authority) (kept : Option ℕ) (w : World) (key : ℕ) : Type 0 where
  had_key : kept ≡ some key → IsKey o a kept w key
  read_key :
      kept ≡ none
      → o.answer w.trace (Call.open_file a.public_key_path) ≡ none
      → parse_public a
          (o.reply (Call.open_file a.public_key_path ∷ w.trace) (Call.read_file a.public_key_path))
        ≡ ok key
      → IsKey o a kept w key
  read_nothing :
      (e : Err)
      → kept ≡ none
      → o.answer w.trace (Call.open_file a.public_key_path) ≡ some e
      → parse_public a "" ≡ ok key
      → IsKey o a kept w key

-- What `LoadPublicKey` may answer.
abbrev pub Loaded : Outside → Authority → Option ℕ → World → Outcome (Result ℕ × Option ℕ) → Type 0
Loaded o a kept w (ret (ok key, later) v) = IsKey o a kept w key
Loaded o a kept w (ret (err e, later) v) = Unit {0}
Loaded o a kept w (panic v) = Unit {0}

parsed-Loaded :
    (o : Outside) (a : Authority) (kept later : Option ℕ) (w v : World) (read : Result ℕ)
    → ((key : ℕ) → read ≡ ok key → IsKey o a kept w key)
    → Loaded o a kept w (ret (read, later) v)
parsed-Loaded o a kept later w v (ok key) h = h key refl
parsed-Loaded o a kept later w v (err e) h = tt

pub load_public_key-Loaded :
    (o : Outside) (a : Authority) (kept : Option ℕ) (w : World)
    → Loaded o a kept w (load_public_key o a kept w)
unfolding load_public_key stepping
load_public_key-Loaded o a (some key) w = had_key refl
load_public_key-Loaded o a none w =
    elim (Option-cases (o.answer w.trace (Call.open_file a.public_key_path))) [
      | inl opened ↦ rw opened (parsed-Loaded o a none _ w _ _ (λ key e. read_key refl opened e))
      | inr (failed, unopened) ↦
          rw unopened
            (parsed-Loaded o a none _ w _ _ (λ key e. read_nothing failed refl unopened e))
    ]

-- Why a request was let through: its token was accepted under the daemon's key, and the token's scopes for the
-- server and for all servers hold the scope that is asked for.
pub record Authorised (o : Outside) (a : Authority) (kept : Option ℕ) (w : World) (required : Scope)
    (c : Credentials) (scopes : List Scope) : Type 0 where
  pub token : String
  pub has_token : token_of c ≡ ok token
  pub key : ℕ
  pub is_key : IsKey o a kept w key
  pub claims : List (String × List Scope)
  pub accepted : a.parse_token key token ≡ ok claims
  pub of_claims : scopes ≡ scopes_for c.server claims
  pub holds : o.contains_scope scopes required ≡ true

-- Where a server is asked for, there is one.
abbrev pub Served : Bool → Option ℕ → Type 0
Served true p = is_some p ≡ true
Served false p = p ≡ none

-- An outcome of the guard that lets nobody through but by the rules.
abbrev Sound : (List Scope → Option ℕ → Type 0) → Outcome Verdict → Type 0
Sound P (ret (granted scopes p) v) = P scopes p
Sound P (ret (refused code e) v) = Unit {0}
Sound P (panic v) = Unit {0}

abbrev SoundKept : (List Scope → Option ℕ → Type 0) → Outcome (Verdict × Option ℕ) → Type 0
SoundKept P (ret (granted scopes p, kept) v) = P scopes p
SoundKept P (ret (refused code e, kept) v) = Unit {0}
SoundKept P (panic v) = Unit {0}

module _ (o : Outside) (a : Authority) (required : Scope) (require_server : Bool) (c : Credentials)
    (known : Option ℕ) (asked : World) where
  -- What the rules ask for.
  abbrev pub Passed : List Scope → Option ℕ → Type 0
  Passed scopes p = Authorised o a known asked required c scopes × Served require_server p

  admit-Sound :
      (scopes : List Scope)
      → Authorised o a known asked required c scopes
      → (r : Outcome (Option ℕ × Option Err))
      → Sound
          (λ given p. Authorised o a known asked required c given × Served true p)
          (then_run (admit scopes) r)
  unfolding admit pure
  admit-Sound scopes h (ret (some p, e) v) = (h, refl)
  admit-Sound scopes h (ret (none, e) v) = tt
  admit-Sound scopes h (panic v) = tt

  with_server-Sound :
      (require : Bool) (scopes : List Scope) (w : World)
      → Authorised o a known asked required c scopes
      → Sound
          (λ given p. Authorised o a known asked required c given × Served require p)
          (with_server o c.server require scopes w)
  unfolding with_server pure
  with_server-Sound false scopes w h = (h, refl)
  with_server-Sound true scopes w h =
      rw (bind-eq (get o c.server) (admit scopes) w) (admit-Sound scopes h (get o c.server w))

  with_claims-Sound :
      (token : String) (key : ℕ) (read : Result (List (String × List Scope))) (w : World)
      → IsKey o a known asked key
      → token_of c ≡ ok token
      → a.parse_token key token ≡ read
      → Sound Passed (with_claims o required require_server c.server read w)
  unfolding with_claims pure
  with_claims-Sound token key (err e) w is_key has accepted = tt
  with_claims-Sound token key (ok claims) w is_key has accepted =
      elim (Bool-cases (o.contains_scope (scopes_for c.server claims) required)) [
        | inl yes_scope ↦ rw yes_scope (
            with_server-Sound require_server (scopes_for c.server claims) w (record {
              token = token;
              has_token = has;
              key = key;
              is_key = is_key;
              claims = claims;
              accepted = accepted;
              of_claims = refl;
              holds = yes_scope;
            }))
        | inr no_scope ↦ rw no_scope tt
      ]

  with_key-Sound :
      (token : String) (read : Result ℕ) (later : Option ℕ) (w : World)
      → Loaded o a known asked (ret (read, later) w)
      → token_of c ≡ ok token
      → Sound Passed (with_key o a required require_server c.server token read w)
  unfolding with_key pure
  with_key-Sound token (err e) later w loaded has = tt
  with_key-Sound token (ok key) later w loaded has = with_claims-Sound token key _ w loaded has refl

  keep-Sound :
      (kept : Option ℕ) (r : Outcome Verdict)
      → Sound Passed r
      → SoundKept Passed (then_run (λ verdict. pure (verdict, kept)) r)
  unfolding pure
  keep-Sound kept (ret (granted scopes p) v) h = h
  keep-Sound kept (ret (refused code e) v) h = tt
  keep-Sound kept (panic v) h = tt

  loaded-Sound :
      (token : String)
      → token_of c ≡ ok token
      → (r : Outcome (Result ℕ × Option ℕ)) → Loaded o a known asked r
      → SoundKept Passed (then_run (with_loaded o a required require_server c.server token) r)
  unfolding with_loaded
  loaded-Sound token has (ret (key, kept) v) loaded =
      rw (bind-eq (with_key o a required require_server c.server token key) _ v)
        (keep-Sound kept _ (with_key-Sound token key kept v loaded has))
  loaded-Sound token has (panic v) loaded = tt

  with_token-Sound :
      (token : Result String)
      → token_of c ≡ token
      → SoundKept Passed (with_token o a required require_server c.server known token asked)
  unfolding with_token pure
  with_token-Sound (err e) has = tt
  with_token-Sound (ok token) has =
      rw
        (bind-eq (load_public_key o a known)
          (with_loaded o a required require_server c.server token) asked)
        (loaded-Sound token has (load_public_key o a known asked)
          (load_public_key-Loaded o a known asked))

  granted-Passed :
      (scopes : List Scope) (p kept : Option ℕ) (r : Outcome (Verdict × Option ℕ)) (v : World)
      → SoundKept Passed r
      → r ≡ ret (granted scopes p, kept) v
      → Passed scopes p
  granted-Passed scopes p kept r v h e = subst (SoundKept Passed) e h

-- The guard of a route lets a request through only with a token that the daemon's public key accepts, the key
-- that it has kept or else the one that it then reads, and whose scopes for the server and for all servers
-- hold the scope of the route; it passes on exactly those scopes, and a server where the route asks for one.
pub guard-Authorised :
    (o : Outside) (a : Authority) (required : Scope) (require_server : Bool) (c : Credentials)
    (kept now : Option ℕ) (w v : World) (scopes : List Scope) (p : Option ℕ)
    → guard o a required require_server c kept w ≡ ret (granted scopes p, now) v
    → Authorised o a kept w required c scopes × Served require_server p
unfolding guard
guard-Authorised o a required require_server c kept now w v scopes p h =
    granted-Passed o a required require_server c kept w scopes p now _ v
      (with_token-Sound o a required require_server c kept w (token_of c) refl) h
