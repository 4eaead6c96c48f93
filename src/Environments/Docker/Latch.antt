-- ===== src/Environments/Docker/Latch.antt =====
-- A container's environment whose image could not be downloaded.
use pufferd.Common.{ℕ, String, List, [], ◌∷◌, true, false, none, some, ◌≡◌, refl, arith, sym, subst}
use pufferd.Types.{Err, image_downloading}
use pufferd.Environments.Docker.{
  Callback, State, Engine, done, pure, continue, ◌>>=◌, ◌>>◌, ask, ask_count, mkdir, pull_image,
  pulled, image_list, image_pull, display, set_downloading,
}
use pufferd.Environments.Docker.Container.{
  begin, proceed, downloading, close, execute_in_main_process, kill_container, send_code, create,
  get_stats, wait_for_main_process_for,
}
use pufferd.Environments.Docker.Holds.{
  final, starts, Latched, Holds-ask, Holds-begin, Holds-close, Holds-execute, Holds-get_stats,
  Holds-signal, Holds-wait,
}

-- Behind the mark, a call of `ExecuteAsync` stops at it.
proceed-refused :
    (o : Engine) (cmd : String) (args : List String) (env : List (String × String)) (c : Callback)
    (s : State)
    → s.downloading_image ≡ true
    → proceed o cmd args env c s ≡ done (some image_downloading) s
unfolding proceed downloading ◌>>=◌ continue pure
proceed-refused o cmd args env c s h = ground arith

-- What is called of an environment.
pub data Request : Type 0 where
  ask_begin ask_kill ask_create ask_stats : Request
  ask_proceed : String → List String → List (String × String) → Callback → Request
  ask_close : List Callback → Callback → Request
  ask_execute : String → Request
  ask_code ask_wait : ℕ → Request

abbrev pub answer : Engine → Request → State → State
answer o ask_begin s = final (begin o s)
answer o ask_kill s = final (kill_container o s)
answer o ask_create s = final (create o s)
answer o ask_stats s = final (get_stats o s)
answer o (ask_proceed cmd args env c) s = final (proceed o cmd args env c s)
answer o (ask_close rest c) s = final (close o rest c s)
answer o (ask_execute cmd) s = final (execute_in_main_process o cmd s)
answer o (ask_code code) s = final (send_code o code s)
answer o (ask_wait timeout) s = final (wait_for_main_process_for o timeout s)

abbrev pub answer_all : Engine → List Request → State → State
answer_all o [] s = s
answer_all o (r ∷ rs) s = answer_all o rs (answer o r s)

answer-Latched :
    (n : ℕ) (o : Engine) (r : Request) (s : State) → Latched n s → Latched n (answer o r s)
unfolding kill_container send_code create
answer-Latched n o ask_begin s h = (Holds-begin o).at s h
answer-Latched n o ask_kill s h = (Holds-signal o "SIGKILL").at s h
answer-Latched n o ask_create s h = (Holds-ask o (mkdir o.root_directory) (λ _. refl)).at s h
answer-Latched n o ask_stats s h = (Holds-get_stats o).at s h
answer-Latched n o (ask_proceed cmd args env c) s h =
    subst (λ r. Latched n (final r)) (sym (proceed-refused o cmd args env c s h.marked)) h
answer-Latched n o (ask_close rest c) s h = (Holds-close o rest c).at s h
answer-Latched n o (ask_execute cmd) s h = (Holds-execute o cmd).at s h
answer-Latched n o (ask_code code) s h = (Holds-signal o (o.signal_name code)).at s h
answer-Latched n o (ask_wait timeout) s h = (Holds-wait o timeout).at s h

answer_all-Latched :
    (n : ℕ) (o : Engine) (rs : List Request) (s : State)
    → Latched n s
    → Latched n (answer_all o rs s)
answer_all-Latched n o [] s h = h
answer_all-Latched n o (r ∷ rs) s h =
    answer_all-Latched n o rs (answer o r s) (answer-Latched n o r s h)

-- The download of an image that the engine refuses.
pub record Refused (o : Engine) (s : State) : Type 0 where
  pub error : Err
  pub list_answers : o.fails s.trace image_list ≡ none
  pub absent : o.count s.trace image_list ≡ 0
  pub refused :
      o.fails
        (display "Downloading image for container, please wait\n" ∷ image_list ∷ s.trace)
        (image_pull o.image_name)
      ≡ some error

pull_image-Latched :
    (o : Engine) (s : State) → Refused o s → Latched (starts s.trace) (final (pull_image o false s))
unfolding pull_image pulled ask ask_count set_downloading pure ◌>>=◌ ◌>>◌ continue
pull_image-Latched o s r = record {
  marked = ground (arith, r.list_answers, r.absent, r.refused);
  started = ground (arith, r.list_answers, r.absent, r.refused);
}

-- After one download of an image that the engine refused, no container is ever started again in the
-- environment, whatever is called, and a call of `ExecuteAsync` that gets behind its first checks and its wait
-- ends in the error that the image is being downloaded; a call may end before that in another error, or wait.
pub failed_pull_blocks :
    (o : Engine) (s : State) (rs : List Request)
    → Refused o s
    → (starts (answer_all o rs (final (pull_image o false s))).trace ≡ starts s.trace)
      × ((cmd : String) (args : List String) (env : List (String × String)) (c : Callback)
          → proceed o cmd args env c (answer_all o rs (final (pull_image o false s)))
            ≡ done (some image_downloading) (answer_all o rs (final (pull_image o false s))))
failed_pull_blocks o s rs r =
    let h =
      answer_all-Latched (starts s.trace) o rs (final (pull_image o false s))
        (pull_image-Latched o s r) in
    (h.started, λ cmd args env c. proceed-refused o cmd args env c _ h.marked)
