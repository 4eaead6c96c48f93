-- ===== src/Environments/Listening.antt =====
-- What a listener of a console sees.
use pufferd.Common.{
  ℕ, suc, String, Bool, List, [], ◌∷◌, ◌++◌, true, false, none, if◌then◌else◌, is_some, map,
  nat_beq, replicate, ◌≡◌, refl, arith, append_assoc, append-nil, ap, ◌∙◌, sym, ◌⊎◌, inl, inr,
  Option-cases, Bool-cases,
}
use pufferd.World.{Call, Outside, World, ret, pure, record_call}
use pufferd.World.Runs.{bind-ret}
use pufferd.Sockets.{write}
use pufferd.Sockets.Broadcast.{send_each, write-send_each}
use pufferd.Environments.Base.{
  Console, Formats, Line, formatted, write_console, display_to_console, display_all,
}

-- The packets that a trace has written to a socket, oldest first.
abbrev pub packets_of : ℕ → List Call → List String
packets_of s [] = []
packets_of s (Call.write_socket t packet ∷ calls) =
    let earlier = packets_of s calls in if nat_beq t s then earlier ++ packet ∷ [] else earlier
packets_of s (_ ∷ calls) = packets_of s calls

-- How often a socket listens.
abbrev pub times : ℕ → List ℕ → ℕ
times s [] = 0
times s (t ∷ ts) = let rest = times s ts in if nat_beq t s then suc rest else rest

-- A socket that takes every write.
abbrev pub IsReliable : Outside → ℕ → Type 0
IsReliable o s =
    (calls : List Call) (packet : String) → o.answer calls (Call.write_socket s packet) ≡ none

ℕ_cases : (a b : ℕ) → (a ≡ b) ⊎ (nat_beq a b ≡ false)
ℕ_cases a b = elim (Bool-cases (nat_beq a b)) [
  | inl same ↦ inl (ground arith)
  | inr other ↦ inr other
]

module _ (o : Outside) (s : ℕ) (reliable : IsReliable o s) where
  takes_it :
      (t : ℕ) (calls : List Call) (packet : String)
      → t ≡ s
      → o.answer calls (Call.write_socket t packet) ≡ none
  takes_it t calls packet e =
      ap (λ x. o.answer calls (Call.write_socket x packet)) e ∙ reliable calls packet

  stays :
      (t : ℕ) (ts : List ℕ) (packet : String) (calls : List Call)
      → times s (if is_some (o.answer calls (Call.write_socket t packet)) then ts else t ∷ ts)
        ≡ times s (t ∷ ts)
  stays t ts packet calls = elim (Option-cases (o.answer calls (Call.write_socket t packet))) [
    | inl sent ↦ ground arith
    | inr (e, failed) ↦ elim (ℕ_cases t s) [
      | inl same ↦ absurd (ground (arith, takes_it t calls packet same))
      | inr other ↦ ground arith
    ]
  ]

  send_each-times :
      (packet : String) (ss : List ℕ) (w : World) → times s (send_each o packet ss w).0 ≡ times s ss
  unfolding send_each
  send_each-times packet [] w = refl
  send_each-times packet (t ∷ ss) w =
      stays t (send_each o packet ss (record_call (Call.write_socket t packet) w)).0 packet w.trace
      ∙ ap (λ n. if nat_beq t s then suc n else n)
          (send_each-times packet ss (record_call (Call.write_socket t packet) w))

  -- One more packet behind those before.
  step-packets :
      (b : Bool) (earlier : List String) (packet : String) (n : ℕ)
      → (if b then earlier ++ packet ∷ [] else earlier) ++ replicate n packet
        ≡ earlier ++ replicate (if b then suc n else n) packet
  step-packets true earlier packet n = append_assoc earlier (packet ∷ []) (replicate n packet)
  step-packets false earlier packet n = refl

  send_each-packets :
      (packet : String) (ss : List ℕ) (w : World)
      → packets_of s (send_each o packet ss w).1.trace
        ≡ packets_of s w.trace ++ replicate (times s ss) packet
  unfolding send_each
  send_each-packets packet [] w = sym (append-nil (packets_of s w.trace))
  send_each-packets packet (t ∷ ss) w =
      send_each-packets packet ss (record_call (Call.write_socket t packet) w)
      ∙ step-packets (nat_beq t s) (packets_of s w.trace) packet (times s ss)

  -- What a console has behind some lines.
  pub record Heard (f : Formats) (lines : List Line) (c d : Console) (w v : World) : Type 0 where
    pub in_buffer : d.console_buffer ≡ c.console_buffer ++ map (formatted f) lines
    pub to_listener :
        packets_of s v.trace
        ≡ packets_of s w.trace ++ map (λ line. f.transmission (formatted f line)) lines
    pub still_listens : times s d.sockets ≡ 1

  display_to_console-Heard :
      (f : Formats) (line : Line) (c : Console) (w : World)
      → times s c.sockets ≡ 1
      → (d : Console) × (v : World) × (display_to_console o f line c w ≡ ret d v)
        × Heard f (line ∷ []) c d w v
  unfolding display_to_console write_console pure
  display_to_console-Heard f line c w once =
      let packet = f.transmission (formatted f line) in
      (
        _,
        _,
        bind-ret (write o packet c.sockets) _ w (write-send_each o packet c.sockets w),
        record {
          in_buffer = refl;
          to_listener =
              send_each-packets packet c.sockets w
              ∙ ap (λ n. packets_of s w.trace ++ replicate n packet) once;
          still_listens = send_each-times packet c.sockets w ∙ once;
        },
      )

  Heard-trans :
      (f : Formats) (line : Line) (lines : List Line) (c d e : Console) (w v u : World)
      → Heard f (line ∷ []) c d w v
      → Heard f lines d e v u
      → Heard f (line ∷ lines) c e w u
  Heard-trans f line lines c d e w v u g h = record {
    in_buffer =
        h.in_buffer
        ∙ ap (λ b. b ++ map (formatted f) lines) g.in_buffer
        ∙ append_assoc c.console_buffer (formatted f line ∷ []) (map (formatted f) lines);
    to_listener =
        h.to_listener
        ∙ ap (λ b. b ++ map (λ l. f.transmission (formatted f l)) lines) g.to_listener
        ∙ append_assoc (packets_of s w.trace) (f.transmission (formatted f line) ∷ [])
            (map (λ l. f.transmission (formatted f l)) lines);
    still_listens = h.still_listens;
  }

  -- A listener of a console whose socket takes every write gets every line that is displayed, exactly once, in
  -- the order in which the lines stand in the console's buffer, and it goes on listening, whichever other
  -- listeners fail and are dropped.
  pub display_all-Heard :
      (f : Formats) (lines : List Line) (c : Console) (w : World)
      → times s c.sockets ≡ 1
      → (d : Console) × (v : World) × (display_all o f lines c w ≡ ret d v) × Heard f lines c d w v
  unfolding display_all pure
  display_all-Heard f [] c w once = (
    c,
    w,
    refl,
    record {
      in_buffer = sym (append-nil c.console_buffer);
      to_listener = sym (append-nil (packets_of s w.trace));
      still_listens = once;
    },
  )
  display_all-Heard f (line ∷ lines) c w once =
      let (d, v, one, g) = display_to_console-Heard f line c w once in
      let (e, u, more, h) = display_all-Heard f lines d v g.still_listens in
      (
        e,
        u,
        bind-ret (display_to_console o f line c) (display_all o f lines) w one ∙ more,
        Heard-trans f line lines c d e w v u g h,
      )
