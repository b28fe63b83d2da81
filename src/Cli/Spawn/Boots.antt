-- ===== src/Cli/Spawn/Boots.antt =====
-- `start_vm`: when it succeeds.
use malleus.Base.{
  ℕ, zero, suc, ◌≡◌, refl, true, false, none, some, [], ◌∷◌, List, Option, Bool-cases, inl, inr,
  leb, ◌+◌,
}
use malleus.Base.Text.{Text, codes}
use malleus.Base.Number.{to_string}
use malleus.Base.FilePath.{FilePath, parent, join_path}
use malleus.Base.Result.{Result, ok, err}
use malleus.Base.Io.{after, convert, pure}
use malleus.Base.Poll.{Turn, found, missed, turn, poll}
use malleus.Base.Fs.{IoError, World, create, fill, put_file, create_file}
use malleus.Base.Fs.Laws.{write_allowed}
use malleus.Cli.Error.{ℤ, CliError, io}
use malleus.Cli.Process.{pid_path}
use malleus.Cli.Spawn.{
  Machine, poll_pause, vfkit_startup_grace, exit_turn, check_child, presumed_booting,
  wait_for_early_exit, report_exit, watch_child, on_spawn, launch, start_vm,
}

-- A file that may be made in a directory that is there.
pub record IsCreatable (p : FilePath) (w : World) : Type 0 where
  pub allowed : w.refuses create p ≡ false
  pub parent_there : w.dirs (parent p) ≡ true
  pub no_dir : w.dirs p ≡ false

create_file_allowed :
    (p : FilePath) (w : World) → IsCreatable p w → create_file p w ≡ (ok tt, put_file p (some []) w)
unfolding create_file
create_file_allowed p w h = rw (h.allowed, h.parent_there, h.no_dir) refl

module _ (machine : Machine) where
  checked_running :
      (r : Result IoError (Option (Option ℤ)) × World)
      → r.0 ≡ ok none
      → (after (convert io r) (λ status. pure (exit_turn status))).0 ≡ ok (missed tt)
  checked_running (ok none, v) h = refl
  checked_running (ok (some status), v) h = cc
  checked_running (err e, v) h = cc

  module _ (child : ℕ) (runs : (w : World) → (machine.try_wait child w).0 ≡ ok none) where
    after_missed :
        (deadline : ℕ) (again : Unit {0} → World → Result CliError (Option (Option ℤ)) × World)
        (r : Result CliError (Turn (Unit {0}) (Option (Option ℤ))) × World)
        → r.0 ≡ ok (missed tt)
        → ((v : World) → (again tt v).0 ≡ ok none)
        → (after r (
            turn machine.now
              (machine.sleep poll_pause)
              deadline
              (check_child machine child)
              presumed_booting
              again)).0
          ≡ ok none
    unfolding turn
    after_missed deadline again (ok (missed _), v) h k =
        elim (Bool-cases (leb deadline (machine.now v))) [
          | inl late ↦ rw late refl
          | inr early ↦ rw early (k v)
        ]
    after_missed deadline again (ok (found a), v) h k = cc
    after_missed deadline again (err e, v) h k = cc

    poll-none :
        (deadline n : ℕ) (w : World)
        → (poll machine.now
            (machine.sleep poll_pause)
            deadline
            (check_child machine child)
            presumed_booting
            n
            tt
            w).0
          ≡ ok none
    unfolding poll check_child
    poll-none deadline zero w =
        after_missed deadline presumed_booting (check_child machine child tt w)
          (checked_running (machine.try_wait child w) (runs w)) (λ v. refl)
    poll-none deadline (suc n) w =
        after_missed deadline _ (check_child machine child tt w)
          (checked_running (machine.try_wait child w) (runs w))
          (λ v. poll-none deadline n (machine.sleep poll_pause v))

    waited :
        (state_dir : FilePath) (r : Result CliError (Option (Option ℤ)) × World)
        → r.0 ≡ ok none
        → (after r (report_exit state_dir)).0 ≡ ok tt
    unfolding report_exit
    waited state_dir (ok none, v) h = refl
    waited state_dir (ok (some status), v) h = cc
    waited state_dir (err e, v) h = cc

    watch_child_boots :
        (state_dir : FilePath) (w : World)
        → IsCreatable (pid_path state_dir) w
        → w.refuses fill (pid_path state_dir) ≡ false
        → (watch_child machine state_dir child w).0 ≡ ok tt
    unfolding watch_child wait_for_early_exit
    watch_child_boots state_dir w pid fills =
        let noted = put_file (pid_path state_dir) (some (to_string child)) w in
        rw
          (write_allowed (pid_path state_dir) (to_string child) w pid.allowed pid.parent_there
            pid.no_dir fills)
          (waited state_dir (wait_for_early_exit machine child noted)
            (poll-none (machine.now noted + vfkit_startup_grace) 40 noted))

-- The files that vfkit's outputs go to, empty.
abbrev pub outputs : FilePath → World → World
outputs state_dir w =
    put_file (join_path state_dir (codes "vfkit.err")) (some [])
      (put_file (join_path state_dir (codes "vfkit.log")) (some []) w)

launch_boots :
    (machine : Machine) (state_dir : FilePath) (args : List Text)
    (missing : World → Result CliError (Unit {0}) × World) (w v : World) (child : ℕ)
    → IsCreatable (join_path state_dir (codes "vfkit.log")) w
    → IsCreatable (join_path state_dir (codes "vfkit.err")) w
    → machine.spawn args (outputs state_dir w) ≡ (ok child, v)
    → IsCreatable (pid_path state_dir) v
    → v.refuses fill (pid_path state_dir) ≡ false
    → ((x : World) → (machine.try_wait child x).0 ≡ ok none)
    → (launch machine state_dir args missing w).0 ≡ ok tt
unfolding launch on_spawn
launch_boots machine state_dir args missing w v child log errors spawned pid fills runs =
    let log_path = join_path state_dir (codes "vfkit.log") in
    let made = put_file log_path (some []) w in
    rw
      (
        create_file_allowed log_path w log,
        create_file_allowed (join_path state_dir (codes "vfkit.err")) made (record {
          allowed = errors.allowed;
          parent_there = errors.parent_there;
          no_dir = errors.no_dir;
        }),
        spawned,
      )
      (watch_child_boots machine child runs state_dir v pid fills)

-- If the three files may be written in a state directory that is there, vfkit can be spawned and
-- its process is not seen to end, a start succeeds, whatever is typed.
pub start_vm_boots :
    (machine : Machine) (state_dir : FilePath) (typed : List (Result IoError Text))
    (args : List Text) (w v : World) (child : ℕ)
    → IsCreatable (join_path state_dir (codes "vfkit.log")) w
    → IsCreatable (join_path state_dir (codes "vfkit.err")) w
    → machine.spawn args (outputs state_dir w) ≡ (ok child, v)
    → IsCreatable (pid_path state_dir) v
    → v.refuses fill (pid_path state_dir) ≡ false
    → ((x : World) → (machine.try_wait child x).0 ≡ ok none)
    → (start_vm machine typed state_dir args w).0 ≡ ok tt
unfolding start_vm
start_vm_boots machine state_dir [] args w v child log errors spawned pid fills runs =
    launch_boots machine state_dir args _ w v child log errors spawned pid fills runs
start_vm_boots machine state_dir (line ∷ typed) args w v child log errors spawned pid fills runs =
    launch_boots machine state_dir args _ w v child log errors spawned pid fills runs
