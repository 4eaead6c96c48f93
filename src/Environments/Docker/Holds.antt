-- ===== src/Environments/Docker/Holds.antt =====
-- What the functions of docker.go keep while an image counts as being downloaded.
use pufferd.Common.{
  ℕ, suc, String, Bool, List, [], ◌∷◌, true, false, Option, none, some, is_some, if◌then◌else◌, not,
  ◌||◌, ◌≡◌, refl, ◌∙◌,
}
use pufferd.Types.{Err, server_offline}
use pufferd.Text.{◌<>◌}
use pufferd.Environments.Docker.{
  Call, Callback, State, Engine, Ended, done, panicked, Run, pure, continue, ◌>>=◌, ◌>>◌, ask,
  ask_count, set_client, on_nil, inspected, start, connect, get_client, does_container_exist,
  is_running,
}
use pufferd.Environments.Docker.Container.{
  begin, leave, close, execute_in_main_process, signal, get_stats, wait_for_main_process_for,
}

abbrev pub final : {A : Type 0} → Ended A → State
final (done a s) = s
final (panicked s) = s

-- How many containers a run of calls has started.
abbrev pub starts : List Call → ℕ
starts [] = 0
starts (start ∷ calls) = suc (starts calls)
starts (_ ∷ calls) = starts calls

-- The mark of a download is set, and so many containers were started.
pub record Latched (n : ℕ) (s : State) : Type 0 where
  pub marked : s.downloading_image ≡ true
  pub started : starts s.trace ≡ n

-- What a run does with such a state.
pub record Holds {A : Type 0} (n : ℕ) (m : Run A) : Type 0 where
  pub at : (s : State) → Latched n s → Latched n (final (m s))

module _ {n : ℕ} where
  pub Holds-pure : {A : Type 0} (a : A) → Holds n (pure a)
  unfolding pure
  Holds-pure a = record { at = λ s h. h }

  pub Holds-bind :
      {A B : Type 0} {m : Run A} {f : A → Run B}
      → Holds n m
      → ((a : A) → Holds n (f a))
      → Holds n (m >>= f)
  unfolding ◌>>=◌ continue
  Holds-bind {m} {f} hm hf = record { at = λ s h. go (m s) (hm.at s h) }
    where
      go : (r : Ended _) → Latched n (final r) → Latched n (final (continue f r))
      go (done a s) h = (hf a).at s h
      go (panicked s) h = h

  pub Holds-then : {A B : Type 0} {m : Run A} {k : Run B} → Holds n m → Holds n k → Holds n (m >> k)
  unfolding ◌>>◌
  Holds-then hm hk = Holds-bind hm (λ _. hk)

  pub Holds-if :
      {A : Type 0} (b : Bool) {m k : Run A} → Holds n m → Holds n k → Holds n (if b then m else k)
  Holds-if true hm hk = hm
  Holds-if false hm hk = hk

  pub Holds-count : (o : Engine) → Holds n (does_container_exist o)
  unfolding does_container_exist ask_count pure ◌>>=◌ continue
  Holds-count o = record { at = λ s h. record { marked = h.marked; started = h.started } }

  pub Holds-inspected : (o : Engine) → Holds n (inspected o)
  unfolding inspected
  Holds-inspected o = record { at = λ s h. record { marked = h.marked; started = h.started } }

  -- A call that starts nothing.
  pub Holds-ask :
      (o : Engine) (c : Call)
      → ((calls : List Call) → starts (c ∷ calls) ≡ starts calls)
      → Holds n (ask o c)
  unfolding ask
  Holds-ask o c quiet = record {
    at = λ s h. record { marked = h.marked; started = quiet s.trace ∙ h.started };
  }

  pub Holds-set_client : (b : Bool) → Holds n (set_client b)
  unfolding set_client
  Holds-set_client b = record { at = λ s h. record { marked = h.marked; started = h.started } }

  pub Holds-on_nil : (o : Engine) → Holds n (on_nil o)
  unfolding on_nil
  Holds-on_nil o = record { at = λ s h. go o.negotiates_nil s h }
    where
      go :
          (b : Bool) (s : State)
          → Latched n s
          → Latched n (final (if b then done tt s else panicked s))
      go true s h = h
      go false s h = h

  pub Holds-connect : (o : Engine) → Holds n (connect o)
  unfolding connect
  Holds-connect o = Holds-bind (Holds-ask o Call.new_client (λ _. refl)) (λ e.
      Holds-then (Holds-set_client (not (is_some e))) (
        Holds-then
          (Holds-if (is_some e) (Holds-on_nil o)
            (Holds-then (Holds-ask o Call.negotiate (λ _. refl)) (Holds-pure tt)))
          (Holds-pure e)))

  pub Holds-get_client : (o : Engine) → Holds n (get_client o)
  unfolding get_client
  Holds-get_client o = record { at = λ s h. go s.client s h }
    where
      go :
          (b : Bool) (s : State)
          → Latched n s
          → Latched n (final (if b then done none s else connect o s))
      go true s h = h
      go false s h = (Holds-connect o).at s h

  pub Holds-is_running : (o : Engine) → Holds n (is_running o)
  unfolding is_running
  Holds-is_running o = Holds-bind (Holds-get_client o) (λ e.
      Holds-if (is_some e) (Holds-pure (false, e)) (
        Holds-bind (Holds-count o)
          (λ exists. Holds-if (not exists.0) (Holds-pure (false, exists.1)) (Holds-inspected o))))

  pub Holds-begin : (o : Engine) → Holds n (begin o)
  unfolding begin
  Holds-begin o =
      Holds-bind (Holds-is_running o)
        (λ running. Holds-if (is_some running.1) (Holds-pure running.1) (Holds-pure _))

  pub Holds-close :
      (o : Engine) (rest : List Callback) (callback : Callback) → Holds n (close o rest callback)
  unfolding close leave
  Holds-close o rest callback = Holds-then (Holds-get_client o) (
      Holds-bind (Holds-ask o Call.stop (λ _. refl)) (λ e.
        Holds-then (told callback e)
          (Holds-then (Holds-ask o Call.close_connection (λ _. refl)) (Holds-pure tt))))
    where
      told : (c : Callback) (e : Option Err) → Holds n (leave rest c e)
      told none e = record { at = λ s h. record { marked = h.marked; started = h.started } }
      told (some p) e = record { at = λ s h. record { marked = h.marked; started = h.started } }

  pub Holds-execute : (o : Engine) (cmd : String) → Holds n (execute_in_main_process o cmd)
  unfolding execute_in_main_process
  Holds-execute o cmd = Holds-bind (Holds-is_running o) (λ running.
      Holds-if (is_some running.1) (Holds-pure running.1) (
        Holds-if (not running.0) (Holds-pure (some server_offline))
          (Holds-then (Holds-ask o (Call.write (cmd <> "\n")) (λ _. refl)) (Holds-pure none))))

  pub Holds-signal : (o : Engine) (name : String) → Holds n (signal o name)
  unfolding signal
  Holds-signal o name = Holds-bind (Holds-is_running o) (λ running.
      Holds-if (is_some running.1 || not running.0) (Holds-pure running.1) (
        Holds-bind (Holds-get_client o)
          (λ e. Holds-if (is_some e) (Holds-pure e) (Holds-ask o (Call.kill name) (λ _. refl)))))

  pub Holds-get_stats : (o : Engine) → Holds n (get_stats o)
  unfolding get_stats
  Holds-get_stats o = Holds-bind (Holds-is_running o) (λ running.
      Holds-if (is_some running.1) (Holds-pure running.1) (
        Holds-if (not running.0) (Holds-pure (some server_offline)) (
          Holds-bind (Holds-get_client o) (λ e. Holds-if (is_some e) (Holds-pure e) (
            Holds-bind (Holds-ask o Call.stats (λ _. refl)) (λ f.
              Holds-if (is_some f) (Holds-pure f) (Holds-ask o Call.read_stats (λ _. refl))))))))

  pub Holds-wait : (o : Engine) (timeout : ℕ) → Holds n (wait_for_main_process_for o timeout)
  unfolding wait_for_main_process_for
  Holds-wait o timeout =
      Holds-bind (Holds-is_running o)
        (λ running. Holds-if (is_some running.1 || not running.0) (Holds-pure _) (Holds-pure _))
