-- ===== src/Sftp/Key.antt =====
-- The key of the SFTP server, and the requests on its channels.
use pufferd.Common.{
  ◌≤◌, ◌<◌, String, Bool, List, [], ◌∷◌, ◌++◌, map, true, false, Option, none, some, ◌==◌, ◌&&◌,
  ◌≡◌, ◌⊎◌, inl, inr, arith, length, drop, All, Bool-cases, lt→ltb, refl, sym, ◌∙◌, is_some,
}
use pufferd.Types.{Err, Result, ok, err, is_not_exist}
use pufferd.Sftp.Server.{
  Effect, generate_key, write_key, read_key, listen, Host, listen_with, make_key, with_key,
  run_server, ChannelRequest, same_bytes, sftp_bytes, answer_request, answer_requests,
}

-- Whether a key was written, and whether the server listens.
abbrev pub writes_key : List Effect → Bool
writes_key [] = false
writes_key (write_key path key ∷ effects) = true
writes_key (_ ∷ effects) = writes_key effects

abbrev pub listens : List Effect → Bool
listens [] = false
listens (listen bind ∷ effects) = true
listens (_ ∷ effects) = listens effects

Reads : Host → List Effect → Type 0
Reads h effects =
    listens effects ≡ true → (key : String) × (h.read ≡ ok key) × (h.parse_private_key key ≡ none)

listen_with-Reads :
    (h : Host) (r : Result String)
    → h.read ≡ r
    → (writes_key (listen_with h r).1 ≡ false) × Reads h (listen_with h r).1
unfolding listen_with Reads
listen_with-Reads h (err e) same = (refl, λ l. cc)
listen_with-Reads h (ok key) same = parsed (h.parse_private_key key) refl
  where
    parsed :
        (x : Option Err)
        → h.parse_private_key key ≡ x
        → (writes_key
              (elim x as (λ _. Option Err × List Effect) [
                | some e ↦ (some e, read_key h.key_file ∷ [])
                | none ↦ (h.no_listener, read_key h.key_file ∷ listen h.bind ∷ [])
              ]).1
            ≡ false)
          × Reads h
              (elim x as (λ _. Option Err × List Effect) [
                | some e ↦ (some e, read_key h.key_file ∷ [])
                | none ↦ (h.no_listener, read_key h.key_file ∷ listen h.bind ∷ [])
              ]).1
    parsed none e = (refl, λ l. (key, same, e))
    parsed (some f) e = (refl, λ l. cc)

listens-append : (xs ys : List Effect) → listens xs ≡ false → listens (xs ++ ys) ≡ listens ys
listens-append [] ys h = refl
listens-append (listen b ∷ xs) ys h = cc
listens-append (write_key a b ∷ xs) ys h = listens-append xs ys h
listens-append (read_key a ∷ xs) ys h = listens-append xs ys h
listens-append (generate_key ∷ xs) ys h = listens-append xs ys h

make_key-quiet : (h : Host) → listens (make_key h).1 ≡ false
unfolding make_key
make_key-quiet h = ground arith

with_key-Reads :
    (h : Host) (r : Option Err × List Effect) → listens r.1 ≡ false → Reads h (with_key h r).1
unfolding with_key Reads
with_key-Reads h (some e, before) quiet = λ l. cc
with_key-Reads h (none, before) quiet = λ l.
    (listen_with-Reads h h.read refl).1
      (sym (listens-append before (listen_with h h.read).1 quiet) ∙ l)

-- The server overwrites no key: it writes one only where the file of the key is not there, and it listens
-- only behind the file's contents were read and taken for a key.
pub run_server-key :
    (h : Host)
    → (writes_key (run_server h).1 ≡ true → is_not_exist h.stat ≡ true)
      × (listens (run_server h).1 ≡ true
          → (key : String) × (h.read ≡ ok key) × (h.parse_private_key key ≡ none))
unfolding run_server Reads
run_server-key h = elim (Bool-cases (is_some h.stat && is_not_exist h.stat)) [
  | inl absent ↦ ground (arith, with_key-Reads h (make_key h) (make_key-quiet h))
  | inr there ↦ ground (arith, listen_with-Reads h h.read refl)
]

-- A request whose payload may be cut.
abbrev pub Long : ChannelRequest → Type 0
Long r = (r.kind == "subsystem" ≡ false) ⊎ (4 ≤ length r.payload)

-- The answer that is meant.
abbrev pub accepts : ChannelRequest → Bool
accepts r = r.kind == "subsystem" && same_bytes (drop 4 r.payload) sftp_bytes

answer_request-Long : (r : ChannelRequest) → Long r → answer_request r ≡ some (accepts r)
unfolding answer_request
answer_request-Long r (inl other_kind) = ground arith
answer_request-Long r (inr long) = ground arith

answer_request-short :
    (r : ChannelRequest)
    → r.kind == "subsystem" ≡ true
    → length r.payload < 4
    → answer_request r ≡ none
unfolding answer_request
answer_request-short r h short = ground (arith, lt→ltb (length r.payload) 4 short)

answer_requests-Long :
    (rs : List ChannelRequest) → All Long rs → answer_requests rs ≡ (map accepts rs, false)
unfolding answer_requests
answer_requests-Long [] h = refl
answer_requests-Long (r ∷ rs) (h, more) =
    ground (arith, answer_request-Long r h, answer_requests-Long rs more)

-- A channel's requests are all answered, with yes exactly for the subsystem sftp, if the payload of each
-- request for a subsystem has four bytes or more; at the first one that is shorter, the goroutine panics
-- behind the answers to the ones before.
pub answer_requests-panic :
    (before after : List ChannelRequest) (r : ChannelRequest)
    → All Long before
    → (answer_requests before ≡ (map accepts before, false))
      × (r.kind == "subsystem" ≡ true
          → length r.payload < 4
          → answer_requests (before ++ r ∷ after) ≡ (map accepts before, true))
unfolding answer_requests
answer_requests-panic [] after r h =
    (refl, λ sub short. ground (arith, answer_request-short r sub short))
answer_requests-panic (b ∷ before) after r (h, more) = (
  answer_requests-Long (b ∷ before) (h, more),
  λ sub short.
      ground
        (arith, answer_request-Long b h, (answer_requests-panic before after r more).1 sub short),
)
