-- ===== src/Routing/Guarded.antt =====
-- Requests that the guard of their route turns away.
use pufferd.Common.{ℕ, String, List, ◌∷◌, Option, none, some, ◌≡◌, ◌⊎◌, inl, inr, refl, Bool-cases}
use pufferd.Types.{Err, Result, ok, err, Response, Scope}
use pufferd.World.{Call, World, Outside, Outcome, ret, panic, Go, pure, final, ◌>>=◌}
use pufferd.World.Runs.{bind-eq, then_run}
use pufferd.World.Keeps.{Keeps, Keeps-pure, Keeps-bind, Keeps-ask, Keeps-ask_reply}
use pufferd.Auth.{
  Authority, Credentials, Verdict, refused, granted, token_of, scopes_for, with_loaded, with_claims,
  with_key, with_token, guard, load_public_key, read_opened,
}
use pufferd.Auth.Guard.{Authorised, IsKey, Loaded, load_public_key-Loaded}
use pufferd.Routing.Handlers.{Request}
use pufferd.Routing.Routes.{Route, decide, serve}

-- What the guard itself calls: the file of the public key.
pub data IsKeyCall (a : Authority) (c : Call) : Type 0 where
  opens : c ≡ Call.open_file a.public_key_path → IsKeyCall a c
  reads : c ≡ Call.read_file a.public_key_path → IsKeyCall a c

-- A trace that goes on another with such calls only.
pub data Adds (P : Call → Type 0) (before : List Call) : List Call → Type 0 where
  no_more : Adds P before before
  one_more : {c : Call} {after : List Call} → P c → Adds P before after → Adds P before (c ∷ after)

-- The state of the servers is the one before, and nothing is called but to read the public key.
pub record Untouched (a : Authority) (w v : World) : Type 0 where
  pub same_heap : v.heap ≡ w.heap
  pub same_programs : v.all_programs ≡ w.all_programs
  pub same_queue : v.queue ≡ w.queue
  pub same_running : v.running ≡ w.running
  pub only_key : Adds (IsKeyCall a) w.trace v.trace

module _ (o : Outside) (a : Authority) (t : Route) (c : Credentials) (known : Option ℕ)
    (w : World) where
  -- Somebody may ask for this.
  abbrev pub Allowed : Type 0
  Allowed = (scopes : List Scope) × Authorised o a known w t.scope c scopes

  -- Where the guard ends: nobody is let through, and nothing is touched, but for who may ask.
  abbrev Checked : {A : Type 0} → Outcome A → Type 0
  Checked r = Allowed ⊎ Untouched a w (final r)

  -- A verdict that lets nobody through, unless somebody may ask.
  abbrev Closed : Outcome (Verdict × Option ℕ) → Type 0
  Closed (ret (granted scopes p, kept) v) = Allowed
  Closed (ret (refused code e, kept) v) = Allowed ⊎ Untouched a w v
  Closed (panic v) = Allowed ⊎ Untouched a w v

  -- The same of a verdict alone.
  abbrev Shut : Outcome Verdict → Type 0
  Shut (ret (granted scopes p) v) = Allowed
  Shut (ret (refused code e) v) = Allowed ⊎ Untouched a w v
  Shut (panic v) = Allowed ⊎ Untouched a w v

  any-Shut : Allowed → (r : Outcome Verdict) → Shut r
  any-Shut h (ret (granted scopes p) v) = h
  any-Shut h (ret (refused code e) v) = inl h
  any-Shut h (panic v) = inl h

  with_claims-Shut :
      (token : String) (key : ℕ) (claims : Result (List (String × List Scope))) (v : World)
      → IsKey o a known w key
      → token_of c ≡ ok token
      → a.parse_token key token ≡ claims
      → Untouched a w v
      → Shut (with_claims o t.scope t.require_server c.server claims v)
  unfolding with_claims pure
  with_claims-Shut token key (err e) v is_key has accepted same = inr same
  with_claims-Shut token key (ok claims) v is_key has accepted same =
      elim (Bool-cases (o.contains_scope (scopes_for c.server claims) t.scope)) [
        | inl holds ↦
            any-Shut
              (
                scopes_for c.server claims,
                record {
                  token = token;
                  has_token = has;
                  key = key;
                  is_key = is_key;
                  claims = claims;
                  accepted = accepted;
                  of_claims = refl;
                  holds = holds;
                },
              )
              _
        | inr lacks ↦ rw lacks (inr same)
      ]

  with_key-Shut :
      (token : String) (key : Result ℕ) (later : Option ℕ) (v : World)
      → Loaded o a known w (ret (key, later) v)
      → token_of c ≡ ok token
      → Untouched a w v
      → Shut (with_key o a t.scope t.require_server c.server token key v)
  unfolding with_key pure
  with_key-Shut token (err e) later v loaded has same = inr same
  with_key-Shut token (ok key) later v loaded has same =
      with_claims-Shut token key _ v loaded has refl same

  keep-Closed :
      (kept : Option ℕ) (r : Outcome Verdict)
      → Shut r
      → Closed (then_run (λ verdict. pure (verdict, kept)) r)
  unfolding pure
  keep-Closed kept (ret (granted scopes p) v) h = h
  keep-Closed kept (ret (refused code e) v) h = h
  keep-Closed kept (panic v) h = h

  loaded-Closed :
      (token : String) (r : Outcome (Result ℕ × Option ℕ))
      → Loaded o a known w r
      → token_of c ≡ ok token
      → Untouched a w (final r)
      → Closed (then_run (with_loaded o a t.scope t.require_server c.server token) r)
  unfolding with_loaded
  loaded-Closed token (ret (key, kept) v) loaded has same =
      rw (bind-eq (with_key o a t.scope t.require_server c.server token key) _ v)
        (keep-Closed kept _ (with_key-Shut token key kept v loaded has same))
  loaded-Closed token (panic v) loaded has same = inr same

  call_keeps :
      (call : Call) (v : World)
      → IsKeyCall a call
      → Untouched a w v
      → Untouched a w (pufferd.World.record_call call v)
  call_keeps call v admitted h = record {
    same_heap = h.same_heap;
    same_programs = h.same_programs;
    same_queue = h.same_queue;
    same_running = h.same_running;
    only_key = one_more admitted h.only_key;
  }

  opened-Keeps :
      (failed : Option Err) → Keeps (Untouched a w) (read_opened o a.public_key_path failed)
  opened-Keeps (some e) = Keeps-pure _
  opened-Keeps none = Keeps-ask_reply _ o (IsKeyCall a) call_keeps _ (reads refl)

  load_public_key-Keeps : (kept : Option ℕ) → Keeps (Untouched a w) (load_public_key o a kept)
  unfolding load_public_key
  load_public_key-Keeps (some key) = Keeps-pure _
  load_public_key-Keeps none =
      Keeps-bind (Keeps-ask _ o (IsKeyCall a) call_keeps _ (opens refl))
        (λ failed. Keeps-bind (opened-Keeps failed) (λ read. Keeps-pure _))

  unchanged : Untouched a w w
  unchanged = record {
    same_heap = refl;
    same_programs = refl;
    same_queue = refl;
    same_running = refl;
    only_key = no_more;
  }

  with_token-Closed :
      (token : Result String)
      → token_of c ≡ token
      → Closed (with_token o a t.scope t.require_server c.server known token w)
  unfolding with_token pure
  with_token-Closed (err e) has = inr unchanged
  with_token-Closed (ok token) has =
      rw
        (bind-eq (load_public_key o a known)
          (with_loaded o a t.scope t.require_server c.server token) w)
        (loaded-Closed token (load_public_key o a known w) (load_public_key-Loaded o a known w) has
          ((load_public_key-Keeps known).at w unchanged))

  decide-Checked :
      (missing : Response) (r : Request) (g : Outcome (Verdict × Option ℕ))
      → Closed g
      → Checked (then_run (decide o missing t r) g)
  unfolding decide pure
  decide-Checked missing r (ret (granted scopes p, kept) v) h = inl h
  decide-Checked missing r (ret (refused code e, kept) v) h = h
  decide-Checked missing r (panic v) h = h

-- A request on a route of the table, or on any other route behind the guard, changes nothing of the servers,
-- their set and the start queue, and calls nothing but to open and read the file of the public key, unless it
-- has a token that the daemon's public key accepts, the one that is kept or else the one that is then read,
-- and whose scopes for the server and for all servers hold the scope of the route; also where a handler would
-- panic.
pub serve-Guarded :
    (o : Outside) (a : Authority) (missing : Response) (t : Route) (c : Credentials)
    (kept : Option ℕ) (r : Request) (w : World)
    → ((scopes : List Scope) × Authorised o a kept w t.scope c scopes)
      ⊎ Untouched a w (final (serve o a missing t c kept r w))
unfolding serve guard
serve-Guarded o a missing t c kept r w =
    rw
      (bind-eq (with_token o a t.scope t.require_server c.server kept (token_of c))
        (decide o missing t r) w)
      (decide-Checked o a t c kept w missing r _
        (with_token-Closed o a t c kept w (token_of c) refl))
