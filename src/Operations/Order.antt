-- ===== src/Operations/Order.antt =====
-- The order and the end of a process's operations, and what a move of several files does.
use pufferd.Common.{
  ℕ, ◌<◌, String, List, [], ◌∷◌, ◌++◌, true, Option, none, some, is_some, if◌then◌else◌, ◌≡◌, refl,
  arith, length, lt→ltb, sym, subst, ap,
}
use pufferd.Types.{Err}
use pufferd.World.{Call, World, Outside, Outcome, ret, panic, pure, record_call, stepping}
use pufferd.World.Runs.{bind-eq, then_run}
use pufferd.Operations.{Operation}
use pufferd.Operations.Run.{run_operation, run_process, run_move, validate_move}

module _ (o : Outside) (e : ℕ) where
  -- Operations that each end without an error, every one in the world that the one before has left.
  pub data Chain : List Operation → World → World → Type 0 where
    none_left : {w : World} → Chain [] w w
    one_more :
        {op : Operation} {ops : List Operation} {w u v : World}
        → run_operation o e op w ≡ ret none u
        → Chain ops u v
        → Chain (op ∷ ops) w v

  -- How a process ends: behind all its operations, or at the first that fails or panics, and then
  -- with what that operation has answered and in the world that it has left.
  pub data Ends (ops : List Operation) (w : World) (r : Outcome (Option Err)) : Type 0 where
    all_run : (v : World) → Chain ops w v → r ≡ ret none v → Ends ops w r
    failed_at :
        (before : List Operation) (op : Operation) (after : List Operation) (u v : World)
        (failure : Err)
        → ops ≡ before ++ (op ∷ after)
        → Chain before w u
        → run_operation o e op u ≡ ret (some failure) v
        → r ≡ ret (some failure) v
        → Ends ops w r
    panicked_at :
        (before : List Operation) (op : Operation) (after : List Operation) (u v : World)
        → ops ≡ before ++ (op ∷ after)
        → Chain before w u
        → run_operation o e op u ≡ panic v
        → r ≡ panic v
        → Ends ops w r

  Ends-later :
      (op : Operation) (ops : List Operation) (w u : World) (r : Outcome (Option Err))
      → run_operation o e op w ≡ ret none u
      → Ends ops u r
      → Ends (op ∷ ops) w r
  Ends-later op ops w u r well (all_run v chain eq) = all_run v (one_more well chain) eq
  Ends-later op ops w u r well (failed_at before at after u' v failure cut chain fails eq) =
      failed_at (op ∷ before) at after u' v failure (ap (λ rest. op ∷ rest) cut)
        (one_more well chain) fails eq
  Ends-later op ops w u r well (panicked_at before at after u' v cut chain fails eq) =
      panicked_at (op ∷ before) at after u' v (ap (λ rest. op ∷ rest) cut) (one_more well chain)
        fails eq

  Ends-first :
      (op : Operation) (ops : List Operation) (w : World) (r : Outcome (Option Err))
      → run_operation o e op w ≡ r
      → ((v : World) → Ends ops v (run_process o e ops v))
      → Ends
          (op ∷ ops)
          w
          (then_run (λ failed. if is_some failed then pure failed else run_process o e ops) r)
  unfolding pure
  Ends-first op ops w (ret none v) eq rest = Ends-later op ops w v _ eq (rest v)
  Ends-first op ops w (ret (some failure) v) eq rest =
      failed_at [] op ops w v failure refl none_left eq refl
  Ends-first op ops w (panic v) eq rest = panicked_at [] op ops w v refl none_left eq refl

-- A process runs its operations in their order, every one in the world that the one before has left, and
-- ends without an error where all of them do. The first that fails or panics ends it: the process then
-- answers that operation's error, or panics with it, in the world that this operation has left, and none
-- of the operations behind it is run.
pub run_process-Ends :
    (o : Outside) (e : ℕ) (ops : List Operation) (w : World)
    → Ends o e ops w (run_process o e ops w)
unfolding run_process pure
run_process-Ends o e [] w = all_run w none_left refl
run_process-Ends o e (op ∷ ops) w =
    subst (Ends o e (op ∷ ops) w) (sym (bind-eq (run_operation o e op) _ w))
      (Ends-first o e op ops w (run_operation o e op w) refl (λ v. run_process-Ends o e ops v))

-- A move of several files into a folder that is there moves none of them, and gives no error.
pub run_move-folder_refused :
    (o : Outside) (e : ℕ) (source target : String) (w : World)
    → o.answer
        (Call.glob (o.join_path (o.root_directory e) source) ∷ w.trace)
        (Call.stat (o.join_path (o.root_directory e) target))
      ≡ none
    → o.flag
        (Call.glob (o.join_path (o.root_directory e) source) ∷ w.trace)
        (Call.stat (o.join_path (o.root_directory e) target))
      ≡ true
    → 1 < length (o.names w.trace (Call.glob (o.join_path (o.root_directory e) source)))
    → run_move o e source target w
      ≡ ret none (
          record_call
            (Call.stat (o.join_path (o.root_directory e) target))
            (record_call (Call.glob (o.join_path (o.root_directory e) source)) w))
unfolding run_move validate_move stepping
run_move-folder_refused o e source target w there folder several = ground (
  arith,
  lt→ltb 1 (length (o.names w.trace (Call.glob (o.join_path (o.root_directory e) source)))) several,
)
