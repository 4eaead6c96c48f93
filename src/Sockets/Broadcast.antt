-- ===== src/Sockets/Broadcast.antt =====
-- The loop over the listeners against a plain pass over them.
use pufferd.Common.{
  ℕ, zero, suc, ◌+◌, ◌<◌, String, List, [], ◌∷◌, ◌++◌, Option, none, some, is_some, if◌then◌else◌,
  length, take, drop, get_elem?, ◌≡◌, refl, arith, append_assoc, append-nil, ap, ap₂, ◌∙◌, sym,
  length-append,
}
use pufferd.Types.{Err}
use pufferd.World.{Call, Outside, World, Outcome, ret, Go, pure, ◌>>=◌, ask, record_call}
use pufferd.Sockets.{cut, write_at, write_from, write}

-- Each socket is written to once, in order, and stays if the write succeeds.
unfoldable pub send_each : Outside → String → List ℕ → World → List ℕ × World
send_each o packet [] w = ([], w)
send_each o packet (s ∷ ss) w =
    let (rest, v) = send_each o packet ss (record_call (Call.write_socket s packet) w) in
    (if is_some (o.answer w.trace (Call.write_socket s packet)) then rest else s ∷ rest, v)

get_elem?-front : (front ss : List ℕ) (s : ℕ) → get_elem? (front ++ s ∷ ss) (length front) ≡ some s
get_elem?-front [] ss s = refl
get_elem?-front (x ∷ front) ss s = get_elem?-front front ss s

take-front : (front ss : List ℕ) → take (length front) (front ++ ss) ≡ front
take-front [] ss = refl
take-front (x ∷ front) ss = ap (λ r. x ∷ r) (take-front front ss)

one_step : 0 + 1 ≡ 1
one_step = omega arith

suc_step : (n : ℕ) → suc n + 1 ≡ suc (n + 1)
suc_step n = omega arith

drop-front : (front ss : List ℕ) (s : ℕ) → drop (length front + 1) (front ++ s ∷ ss) ≡ ss
drop-front [] ss s = ap (λ k. drop k (s ∷ ss)) one_step
drop-front (x ∷ front) ss s =
    ap (λ k. drop k (x ∷ (front ++ s ∷ ss))) (suc_step (length front)) ∙ drop-front front ss s

cut-front : (front ss : List ℕ) (s : ℕ) → cut (length front) (front ++ s ∷ ss) ≡ front ++ ss
unfolding cut
cut-front front [] s =
    ground (arith, take-front front (s ∷ []), append-nil front, drop-front front [] s)
cut-front front (t ∷ ss) s = ground (
  arith,
  take-front front (s ∷ t ∷ ss),
  drop-front front (t ∷ ss) s,
  length-append {0} front (s ∷ t ∷ ss),
)

get_elem?-end : (front : List ℕ) → get_elem? front (length front) ≡ none
get_elem?-end [] = refl
get_elem?-end (x ∷ front) = get_elem?-end front

-- The loop at an index with the sockets kept so far in front.
abbrev kept_with : List ℕ → List ℕ × World → Outcome (List ℕ)
kept_with front r = ret (front ++ r.0) r.1

module _ (o : Outside) (packet : String) where
  -- The two ways on, given what the rest of the loop does.
  dropped-front :
      (fuel : ℕ) (front ss : List ℕ) (s : ℕ) (v : World)
      → write_from o packet fuel (length front) (front ++ ss) v
        ≡ kept_with front (send_each o packet ss v)
      → write_from o packet fuel (length front) (cut (length front) (front ++ s ∷ ss)) v
        ≡ kept_with front (send_each o packet ss v)
  dropped-front fuel front ss s v ih = rw (cut-front front ss s) ih

  sent-front :
      (fuel : ℕ) (front ss : List ℕ) (s : ℕ) (v : World)
      → write_from o packet fuel (length (front ++ s ∷ [])) ((front ++ s ∷ []) ++ ss) v
        ≡ kept_with (front ++ s ∷ []) (send_each o packet ss v)
      → write_from o packet fuel (length front + 1) (front ++ s ∷ ss) v
        ≡ kept_with front (s ∷ (send_each o packet ss v).0, (send_each o packet ss v).1)
  sent-front fuel front ss s v ih =
      ap₂ (λ i l. write_from o packet fuel i l v) (sym (length-append {0} front (s ∷ [])))
        (sym (append_assoc front (s ∷ []) ss))
      ∙ ih
      ∙ ap (λ l. ret l (send_each o packet ss v).1)
          (append_assoc front (s ∷ []) (send_each o packet ss v).0)

  round :
      (failed : Option Err) (front ss : List ℕ) (s : ℕ) (v : World) (dropped sent : Go (List ℕ))
      → dropped v ≡ kept_with front (send_each o packet ss v)
      → sent v ≡ kept_with front (s ∷ (send_each o packet ss v).0, (send_each o packet ss v).1)
      → (if is_some failed then dropped else sent) v
        ≡ kept_with front (
          (if is_some failed then (send_each o packet ss v).0 else s ∷ (send_each o packet ss v).0),
          (send_each o packet ss v).1,
        )
  round none front ss s v dropped sent hd hs = hs
  round (some e) front ss s v dropped sent hd hs = hd

  write_from-send_each :
      (fuel : ℕ) (front ss : List ℕ) (w : World)
      → length ss < fuel
      → write_from o packet fuel (length front) (front ++ ss) w
        ≡ kept_with front (send_each o packet ss w)
  unfolding write_from write_at send_each pure ask ◌>>=◌
  write_from-send_each zero front ss w h = elim h [ ]
  write_from-send_each (suc fuel) front [] w h =
      rw (append-nil front) (rw (get_elem?-end front) refl)
  write_from-send_each (suc fuel) front (s ∷ ss) w h = rw (get_elem?-front front ss s) (
      round (o.answer w.trace (Call.write_socket s packet)) front ss s
        (record_call (Call.write_socket s packet) w) _ _
        (dropped-front fuel front ss s _ (write_from-send_each fuel front ss _ (omega arith)))
        (sent-front fuel front ss s _
          (write_from-send_each fuel (front ++ s ∷ []) ss _ (omega arith))))

-- A write to a server's listeners sends the packet to each of them exactly once, in order, though
-- the slice shrinks under the loop, and keeps exactly those, in order, whose write gave no error.
pub write-send_each :
    (o : Outside) (packet : String) (sockets : List ℕ) (w : World)
    → write o packet sockets w
      ≡ ret (send_each o packet sockets w).0 (send_each o packet sockets w).1
unfolding write
write-send_each o packet sockets w =
    write_from-send_each o packet (length sockets + 1) [] sockets w (omega arith)
