-- ===== src/Cli/Spawn/Laws.antt =====
-- `start_vm`: what a start that succeeds leaves.
use mathlib.Core.Path.{subst}
use malleus.Base.{ℕ, ◌+◌, ◌≤◌, ◌≡◌, refl, sym, ap, ◌∙◌, Option, none, some, List, [], ◌∷◌}
use malleus.Base.Text.{Text, codes}
use malleus.Base.Number.{to_string}
use malleus.Base.FilePath.{FilePath, join_path}
use malleus.Base.Result.{Result, ok, err}
use malleus.Base.Io.{after_inv, convert, convert_inv, fail}
use malleus.Base.Fs.{IoError, not_found, World, put_file, write, create_file}
use malleus.Base.Fs.Laws.{write_inv, path_eq_refl}
use malleus.Cli.Error.{ℤ, CliError, io, vfkit_not_found}
use malleus.Cli.Process.{pid_path}
use malleus.Cli.Spawn.Wait.{
  IsMachine, Waits-none, wait_for_early_exit-Waits, wait_for_early_exit-pid,
}
use malleus.Cli.Spawn.{
  vfkit_startup_grace, Machine, wait_for_early_exit, report_exit, watch_child, on_spawn, launch,
  start_vm,
}
use malleus.Cli.Spawn.Installs.{IsInstalled, offer_install_inv}

module _ (machine : Machine) where
  -- From the world that the loop of a start begins in to one in which it spawns vfkit: the two
  -- files of its outputs are created, and behind a spawn that finds no vfkit it is installed.
  pub data Reaches (state_dir : FilePath) (args : List Text) : World → World → Type 0 where
    opened :
        {w v x : World}
        → create_file (join_path state_dir (codes "vfkit.log")) w ≡ (ok tt, v)
        → create_file (join_path state_dir (codes "vfkit.err")) v ≡ (ok tt, x)
        → Reaches state_dir args w x
    reopened :
        {w v x y z : World}
        → Reaches state_dir args w v
        → machine.spawn args v ≡ (err not_found, x)
        → IsInstalled machine x y
        → Reaches state_dir args y z
        → Reaches state_dir args w z

  -- What a start leaves: a process that was spawned with the arguments, whose number stands in the
  -- file, and which was still running when the grace period was over.
  pub record IsBooted (state_dir : FilePath) (args : List Text) (w v : World) : Type 0 where
    pub child : ℕ
    pub before : World
    pub behind : World
    pub reached : Reaches state_dir args w before
    pub spawned : machine.spawn args before ≡ (ok child, behind)
    pub recorded : v.files (pid_path state_dir) ≡ some (to_string child)
    pub last_seen : World
    pub running : machine.try_wait child last_seen ≡ (ok none, v)
    pub waited :
        machine.now (put_file (pid_path state_dir) (some (to_string child)) behind)
          + vfkit_startup_grace
        ≤ machine.now v

  report_exit_inv :
      (state_dir : FilePath) (status : Option (Option ℤ)) (w v : World) (u : Unit {0})
      → report_exit state_dir status w ≡ (ok u, v)
      → (status ≡ none) × (w ≡ v)
  unfolding report_exit
  report_exit_inv state_dir none w v u h = (refl, cc)
  report_exit_inv state_dir (some status) w v u h = cc

  module _ (state_dir : FilePath) (lawful : IsMachine machine state_dir) where
    watch_child-IsBooted :
        (args : List Text) (child : ℕ) (from before w v : World) (u : Unit {0})
        → Reaches state_dir args from before
        → machine.spawn args before ≡ (ok child, w)
        → watch_child machine state_dir child w ≡ (ok u, v)
        → IsBooted state_dir args from v
    unfolding watch_child
    watch_child-IsBooted args child from before w v u reached spawned h =
        let (u1, w1, e1, h1) =
          after_inv (convert io (write (pid_path state_dir) (to_string child) w)) _ v h in
        let (status, w2, e2, h2) = after_inv (wait_for_early_exit machine child w1) _ v h1 in
        let (ended, same) = report_exit_inv state_dir status w2 v u h2 in
        let written =
          write_inv (pid_path state_dir) (to_string child) w w1 u1 (convert_inv io _ w1 e1) in
        let waits = wait_for_early_exit-Waits machine state_dir lawful child w1 in
        let outcome : wait_for_early_exit machine child w1 ≡ (ok none, v) =
          e2 ∙ ap (λ s. (ok s, w2)) ended ∙ ap (λ s. (ok none, s)) same in
        let (last, seen, late) = Waits-none machine child _ w1 v _ waits outcome in
        record {
          child = child;
          before = before;
          behind = w;
          reached = reached;
          spawned = spawned;
          recorded =
              sym (ap (λ r. r.1.files (pid_path state_dir)) outcome)
              ∙ wait_for_early_exit-pid machine state_dir lawful child w1
              ∙ ap (λ s. s.files (pid_path state_dir)) written
              ∙ rw (path_eq_refl state_dir) refl;
          last_seen = last;
          running = seen;
          waited = subst (λ s. machine.now s + vfkit_startup_grace ≤ machine.now v) written late;
        }

    on_spawn-IsBooted :
        (args : List Text) (missing : World → Result CliError (Unit {0}) × World) (from w v : World)
        (u : Unit {0}) (r : Result IoError ℕ × World)
        → Reaches state_dir args from w
        → machine.spawn args w ≡ r
        → ((x : World)
            → machine.spawn args w ≡ (err not_found, x)
            → missing x ≡ (ok u, v)
            → IsBooted state_dir args from v)
        → on_spawn machine state_dir missing r ≡ (ok u, v)
        → IsBooted state_dir args from v
    unfolding on_spawn
    on_spawn-IsBooted args missing from w v u (ok child, x) reached spawned again h =
        watch_child-IsBooted args child from w x v u reached spawned h
    on_spawn-IsBooted args missing from w v u (err not_found, x) reached spawned again h =
        again x spawned h
    on_spawn-IsBooted args missing from w v u (err e, x) reached spawned again h = cc

    launch-IsBooted :
        (args : List Text) (missing : World → Result CliError (Unit {0}) × World) (w v : World)
        (u : Unit {0})
        → ((z x : World)
            → Reaches state_dir args w z
            → machine.spawn args z ≡ (err not_found, x)
            → missing x ≡ (ok u, v)
            → IsBooted state_dir args w v)
        → launch machine state_dir args missing w ≡ (ok u, v)
        → IsBooted state_dir args w v
    unfolding launch
    launch-IsBooted args missing w v u again h =
        let (t1, w1, e1, h1) =
          after_inv (convert io (create_file (join_path state_dir (codes "vfkit.log")) w)) _ v h in
        let (t2, w2, e2, h2) =
          after_inv (convert io (create_file (join_path state_dir (codes "vfkit.err")) w1)) _ v
            h1 in
        let reached : Reaches state_dir args w w2 =
          opened (convert_inv io _ w1 e1) (convert_inv io _ w2 e2) in
        on_spawn-IsBooted args missing w w2 v u (machine.spawn args w2) reached refl
          (λ x absent k. again w2 x reached absent k) h2

    later :
        (args : List Text) (w y v : World)
        → ((z : World) → Reaches state_dir args y z → Reaches state_dir args w z)
        → IsBooted state_dir args y v
        → IsBooted state_dir args w v
    later args w y v reach booted = record {
      child = booted.child;
      before = booted.before;
      behind = booted.behind;
      reached = reach booted.before booted.reached;
      spawned = booted.spawned;
      recorded = booted.recorded;
      last_seen = booted.last_seen;
      running = booted.running;
      waited = booted.waited;
    }

  -- If a start succeeds, vfkit was spawned with the arguments in a world that the loop reaches, its
  -- number stands in the file of the process, and at least two seconds later it had not exited.
  pub start_vm-IsBooted :
      (state_dir : FilePath)
      → IsMachine machine state_dir
      → (typed : List (Result IoError Text)) (args : List Text) (w v : World) (u : Unit {0})
      → start_vm machine typed state_dir args w ≡ (ok u, v)
      → IsBooted state_dir args w v
  unfolding start_vm
  start_vm-IsBooted state_dir lawful [] args w v u h =
      launch-IsBooted state_dir lawful args _ w v u
        (λ z x reached absent k.
          let (y, asked, refused) =
            offer_install_inv machine (ok []) (fail vfkit_not_found) x v u k in
          cc)
        h
  start_vm-IsBooted state_dir lawful (line ∷ typed) args w v u h =
      launch-IsBooted state_dir lawful args _ w v u
        (λ z x reached absent k.
          let (y, done, again) =
            offer_install_inv machine line (start_vm machine typed state_dir args) x v u k in
          later state_dir lawful args w y v (λ s far. reopened reached absent done far)
            (start_vm-IsBooted state_dir lawful typed args y v u again))
        h
