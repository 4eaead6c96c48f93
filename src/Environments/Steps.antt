-- ===== src/Environments/Steps.antt =====
-- How an environment moves: the calls of its functions by other goroutines, each between two waits in one
-- step, and the ends of its processes.
use pufferd.Common.{ℕ, Bool, List, [], ◌∷◌, true, false, Option, none, some, ◌≡◌}
use pufferd.Types.{Err}
use pufferd.Environments.{System, Callback, Launch, start, has, drop_all, nothing}
use pufferd.Environments.Standard
use pufferd.Environments.Tty

pub data Kind : Type 0 where
  standard tty : Kind

abbrev pub launch : Kind → Launch → Callback → List Callback → System → Option Err × System
launch standard l c rest s = Standard.launch l c rest s
launch tty l c rest s = Tty.launch l c rest s

abbrev pub check : Kind → Callback → System → Option Err × System
check standard c s = Standard.check c s
check tty c s = Tty.check c s

-- The processes of the system stay apart: a new one has a number of its own.
abbrev pub IsFresh : Launch → List ℕ → Type 0
IsFresh (start pid) alive = has pid alive ≡ false
IsFresh _ alive = Unit

-- A step from a state. Calls are taken one at a time: a call is checked only when no other is under way.
pub data Step (k : Kind) (s : System) (t : System) : Type 0 where
  call :
      (c : Callback)
      → s.checked ≡ []
      → s.passed ≡ []
      → (check k c s).0 ≡ none
      → t ≡ (check k c s).1
      → Step k s t
  pass :
      (c : Callback) (rest : List Callback)
      → s.checked ≡ c ∷ rest
      → s.wait ≡ 0
      → t ≡ record s { checked = rest; passed = c ∷ s.passed }
      → Step k s t
  go :
      (l : Launch) (c : Callback) (rest : List Callback)
      → s.passed ≡ c ∷ rest
      → IsFresh l s.alive
      → t ≡ (launch k l c rest s).1
      → Step k s t
  exit :
      (pid : ℕ)
      → has pid s.alive ≡ true
      → t ≡ record s { alive = drop_all pid s.alive }
      → Step k s t
  reaped :
      (pid : ℕ) (c : Callback) (rest : List (ℕ × Callback))
      → k ≡ standard
      → s.attending ≡ (pid, c) ∷ rest
      → has pid s.alive ≡ false
      → t ≡ Standard.reap pid c rest s
      → Step k s t
  finished :
      (ok success : Bool) (pid : ℕ) (c : Callback) (rest : List (ℕ × Callback))
      → k ≡ standard
      → s.ending ≡ (pid, c) ∷ rest
      → Standard.finish ok success c rest s ≡ some t
      → Step k s t
  closed :
      (ok success : Bool) (pid : ℕ) (c : Callback) (rest : List (ℕ × Callback))
      → k ≡ tty
      → s.attending ≡ (pid, c) ∷ rest
      → has pid s.alive ≡ false
      → t ≡ Tty.handle_close ok success c rest s
      → Step k s t

pub data Reach (k : Kind) (s : System) : System → Type 0 where
  here : Reach k s s
  next : {t u : System} → Reach k s t → Step k t u → Reach k s u

-- An environment as it is made.
abbrev pub fresh : System
fresh = record {
  main = nothing;
  std_in = false;
  wait = 0;
  checked = [];
  passed = [];
  attending = [];
  ending = [];
  alive = [];
  calls = [];
}
