-- ===== src/Cli/Spawn/Installs.antt =====
-- The branch of `start_vm` for a vfkit that is not installed: what it does when it goes on.
use malleus.Base.{◌≡◌, ap, ◌∙◌, true, not, [], ◌∷◌, if◌then◌else◌}
use malleus.Base.Text.{Text, codes}
use malleus.Base.Result.{Result, ok}
use malleus.Base.Io.{after_inv, convert, convert_inv, fail, guard_inv, refusal_inv, check}
use malleus.Base.Fs.{IoError, other, World}
use malleus.Cli.Error.{CliError, io, vfkit_exec, vfkit_not_found}
use malleus.Cli.Spawn.{
  Machine, brew_version, agreed, installed, install, answered, ask, offer_install,
}

module _ (machine : Machine) where
  -- What an offer does that comes to a new start: `brew` is asked for its version, the question is
  -- printed, and `brew` installs vfkit.
  pub record IsInstalled (w v : World) : Type 0 where
    pub flushed : World
    pub printed : machine.flush (brew_version machine w).1 ≡ (ok tt, flushed)
    pub success : machine.brew (codes "install" ∷ codes "vfkit" ∷ []) flushed ≡ (ok true, v)

  install_inv :
      (again : World → Result CliError (Unit {0}) × World) (w v : World) (u : Unit {0})
      → install machine again w ≡ (ok u, v)
      → (x : World) × (machine.brew (codes "install" ∷ codes "vfkit" ∷ []) w ≡ (ok true, x))
        × (again x ≡ (ok u, v))
  unfolding install
  install_inv again w v u h =
      let (success, w1, e1, h1) =
        after_inv (convert io (machine.brew (codes "install" ∷ codes "vfkit" ∷ []) w))
          (installed machine again) v h in
      let (done, ran) =
        guard_inv success again (vfkit_exec (other (codes "brew install vfkit failed"))) w1 v h1 in
      (w1, convert_inv io _ w1 e1 ∙ ap (λ b. (ok b, w1)) done, ran)

  ask_inv :
      (line : Result IoError Text) (again : World → Result CliError (Unit {0}) × World)
      (w v : World) (u : Unit {0})
      → ask machine line again w ≡ (ok u, v)
      → (f : World) × (x : World) × (machine.flush w ≡ (ok tt, f))
        × (machine.brew (codes "install" ∷ codes "vfkit" ∷ []) f ≡ (ok true, x))
        × (again x ≡ (ok u, v))
  unfolding ask
  ask_inv line again w v u h =
      let (t, w1, e1, h1) = after_inv (convert io (machine.flush w)) _ v h in
      let (input, w2, e2, h2) =
        after_inv (convert io (check line w1)) (answered machine again) v h1 in
      let (x, success, ran) =
        install_inv again w2 v u
          (guard_inv (agreed input) (install machine again) vfkit_not_found w2 v h2).1 in
      let same : w1 ≡ w2 = ap (λ r. r.1) (convert_inv io (check line w1) w2 e2) in
      (
        w1,
        x,
        convert_inv io _ w1 e1,
        ap (machine.brew (codes "install" ∷ codes "vfkit" ∷ [])) same ∙ success,
        ran,
      )

  -- An offer that succeeds has installed vfkit and come to the new start.
  pub offer_install_inv :
      (line : Result IoError Text) (again : World → Result CliError (Unit {0}) × World)
      (w v : World) (u : Unit {0})
      → offer_install machine line again w ≡ (ok u, v)
      → (x : World) × IsInstalled w x × (again x ≡ (ok u, v))
  unfolding offer_install
  offer_install_inv line again w v u h =
      let (has_brew, w1, e1, h1) =
        after_inv (brew_version machine w)
          (λ there. if not there then fail vfkit_not_found else ask machine line again) v h in
      let (f, x, printed, success, ran) =
        ask_inv line again w1 v u
          (refusal_inv (not has_brew) (ask machine line again) vfkit_not_found w1 v h1).1 in
      (
        x,
        record {
          flushed = f;
          printed = ap (λ r. machine.flush r.1) e1 ∙ printed;
          success = success;
        },
        ran,
      )
