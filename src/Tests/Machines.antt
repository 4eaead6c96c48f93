-- ===== src/Tests/Machines.antt =====
-- The theorems on environments.
use pufferd.Common.{
  ℕ, ◌+◌, ◌-◌, ◌/◌, ◌≤◌, ◌<◌, String, List, [], ◌∷◌, true, false, none, some, ◌≡◌, ◌⊎◌, ◌↔◌, refl,
  arith, length,
}
use pufferd.Types.{other, ok, image_downloading}
use pufferd.World.{ret}
use pufferd.Environments.{System, Main, started, no_start, start}
use pufferd.Environments.Standard
use pufferd.Environments.Tty
use pufferd.Environments.Steps.{standard, tty, launch, call, pass, go, Reach, here, next, fresh}
use pufferd.Environments.Single.{tty_single}
use pufferd.Environments.Orphan.{Orphaned, standard_orphan}
use pufferd.Environments.Stuck.{start_failed, failed_start_blocks}
use pufferd.Environments.Crash.{MayRestart, crashed, deliver, one_crash_counts_twice}
use pufferd.Environments.Docker
use pufferd.Environments.Docker.{Engine}
use pufferd.Environments.Docker.Container.{proceed}
use pufferd.Environments.Docker.Latch.{ask_begin, ask_stats, answer_all, failed_pull_blocks}
use pufferd.Environments.Docker.Holds.{starts}
use pufferd.Environments.Docker.Usage.{
  StatsJson, calculate_cpu_percent, calculate_cpu_percent-wraps,
}
use pufferd.Tests.Sample.{game, sample, quiet}

abbrev asked_once : System
asked_once = record fresh { checked = some 0 ∷ [] }

abbrev let_through : System
let_through = record fresh { passed = some 0 ∷ [] }

abbrev seven_runs : System
seven_runs = record fresh {
  main = started 7;
  std_in = true;
  wait = 1;
  attending = (7, some 0) ∷ [];
  alive = 7 ∷ [];
}

to_seven : Reach tty fresh seven_runs
unfolding Tty.check Tty.is_running Tty.launch
to_seven =
    next {t = let_through}
      (next {t = asked_once} (next here (call (some 0) refl refl refl refl))
        (pass (some 0) [] refl refl refl))
      (go (start 7) (some 0) [] refl refl refl)

tty_single_example :
    ((seven_runs.alive ≡ [])
      ⊎ ((pid : ℕ) × (seven_runs.alive ≡ pid ∷ []) × (seven_runs.main ≡ started pid)))
    × ((Tty.is_running seven_runs ≡ false) ↔ (seven_runs.alive ≡ []))
tty_single_example = tty_single {t = seven_runs} to_seven

abbrev seven_ended : System
seven_ended = record seven_runs { alive = [] }

standard_orphan_example : Orphaned 7 0 8
standard_orphan_example = standard_orphan 7 0 8

to_through : Reach standard fresh let_through
unfolding Standard.check Standard.is_running
to_through =
    next {t = asked_once} (next here (call (some 0) refl refl refl refl))
      (pass (some 0) [] refl refl refl)

-- The state behind the failure, and behind one more call.
abbrev not_begun : System
not_begun = (launch standard (no_start (other "no such file")) (some 0) [] let_through).1

abbrev called_again : System
called_again = record fresh {
  main = Main.unstarted;
  std_in = true;
  wait = 1;
  checked = some 0 ∷ [];
}

to_again : Reach standard not_begun called_again
unfolding Standard.check Standard.is_running Standard.launch
to_again = next here (call (some 0) refl refl refl refl)

failed_start_blocks_example :
    (called_again.passed ≡ [])
    × (0 < called_again.wait)
    × (length called_again.alive ≤ length let_through.alive)
failed_start_blocks_example =
    failed_start_blocks standard (no_start (other "no such file")) (some 0) {s = let_through}
      {t = called_again} (start_failed (other "no such file")) to_through refl to_again

abbrev game_may : MayRestart quiet 0 1 sample
game_may = record {
  program = game;
  there = refl;
  environment = 0;
  has_environment = refl;
  no_steps = refl;
  restarts_crashed = refl;
  below = omega arith;
  open_queue = refl;
}

one_crash_counts_twice_example :
    ((t : System) × (Standard.finish false true (some 0) [] seven_ended ≡ some t)
      × (deliver quiet t.calls sample
          ≡ ret tt (crashed 0 0 (record game { crash_counter = 0 + 1 }) (crashed 0 0 game sample))))
    × (deliver quiet (Tty.handle_close false true (some 0) [] seven_ended).calls sample
        ≡ ret tt (crashed 0 0 game sample))
one_crash_counts_twice_example =
    one_crash_counts_twice quiet 0 sample game_may seven_ended true refl

-- An engine that has no image and gets none.
abbrev engine : Engine
engine = record {
  container_id = "game";
  image_name = "java:8";
  network_mode = "host";
  binds = [];
  ports = [];
  root_directory = "/srv/game";
  fails = λ t c. elim c [ Docker.image_pull name ↦ some (other "no route to host") | _ ↦ none ];
  count = λ t c. 0;
  running = λ t. false;
  text = λ t. "";
  negotiates_nil = false;
  parse_port_specs = λ ports. ok "";
  user = "1000:1000";
  signal_name = λ code. "killed";
}

abbrev idle : Docker.State
idle = record {
  client = true;
  downloading_image = false;
  wait = 0;
  attending = [];
  trace = [];
  told = [];
}

abbrev after_pull : Docker.State
after_pull =
    answer_all engine (ask_begin ∷ ask_stats ∷ [])
      (Docker.Holds.final (Docker.pull_image engine false idle))

failed_pull_blocks_example :
    (starts after_pull.trace ≡ 0)
    × ((cmd : String) (args : List String) (env : List (String × String)) (c : Docker.Callback)
        → proceed engine cmd args env c after_pull
          ≡ Docker.done (some image_downloading) after_pull)
failed_pull_blocks_example = failed_pull_blocks engine idle (ask_begin ∷ ask_stats ∷ []) (record {
  error = other "no route to host";
  list_answers = refl;
  absent = refl;
  refused = refl;
})

-- The counter went back by ten.
abbrev restarted : StatsJson
restarted = record { nanoseconds = 1000; total_usage = 90; pre_total_usage = 100; usage = 0 }

calculate_cpu_percent-wraps_example :
    (0 < (calculate_cpu_percent restarted).1)
    × (((1000 < 100) × (calculate_cpu_percent restarted ≡ (0, 1)))
        ⊎ ((100 ≤ 1000)
            × ((calculate_cpu_percent restarted).1 ≡ 1000 / 100)
            × (100 ≤ 90 → (calculate_cpu_percent restarted).0 ≡ 90 - 100)
            × (90 < 100 → (calculate_cpu_percent restarted).0 + (100 - 90) ≡ 18446744073709551616)))
calculate_cpu_percent-wraps_example =
    calculate_cpu_percent-wraps restarted (omega arith) (omega arith)
