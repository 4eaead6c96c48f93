-- ===== src/Sockets.antt =====
-- utils/websockettracker.go: the listeners of a server's console.
pub mod Broadcast
use pufferd.Common.{
  ℕ, zero, suc, ◌+◌, String, List, [], ◌∷◌, ◌++◌, Bool, true, false, Option, none, some, is_some,
  if◌then◌else◌, nat_beq, length, take, drop, get_elem?,
}
use pufferd.Types.{Err}
use pufferd.World.{Call, Outside, World, Outcome, ret, panic, Go, pure, crash, ◌>>=◌, ask}

-- `Register`, on the sockets of a manager.
unfoldable pub register : ℕ → List ℕ → List ℕ
register socket sockets = sockets ++ socket ∷ []

-- The two ways in which a socket is cut out of the slice.
unfoldable pub cut : ℕ → List ℕ → List ℕ
cut i sockets =
    if nat_beq (i + 1) (length sockets)
    then take i sockets
    else take i sockets ++ drop (i + 1) sockets

-- One round at the socket that the index names, with the two ways to go on.
unfoldable pub write_at :
    Outside → String → Option ℕ → Go (List ℕ) → Go (List ℕ) → List ℕ → Go (List ℕ)
write_at o packet none dropped sent sockets = pure sockets
write_at o packet (some socket) dropped sent sockets =
    ask o (Call.write_socket socket packet) >>= λ failed. if is_some failed then dropped else sent

-- The loop of `Write` from an index on: a socket that fails is cut out, and the index stays. `fuel`
-- bounds the rounds.
unfoldable pub write_from : Outside → String → ℕ → ℕ → List ℕ → Go (List ℕ)
write_from o packet zero i sockets = pure sockets
write_from o packet (suc fuel) i sockets =
    let dropped = write_from o packet fuel i (cut i sockets) in
    let sent = write_from o packet fuel (i + 1) sockets in
    write_at o packet (get_elem? sockets i) dropped sent sockets

-- `Write`: the sockets that are left.
unfoldable pub write : Outside → String → List ℕ → Go (List ℕ)
unfolding write_from
write o packet sockets = write_from o packet (length sockets + 1) 0 sockets
