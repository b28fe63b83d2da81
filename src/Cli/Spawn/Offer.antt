-- ===== src/Cli/Spawn/Offer.antt =====
-- `offer_install`: when it fails with the exit status of vfkit.
use malleus.Base.{◌≡◌, refl, Bool, true, false, not, [], ◌∷◌, if◌then◌else◌}
use malleus.Base.Text.{Text, codes}
use malleus.Base.Result.{Result, ok, err}
use malleus.Base.Io.{after, convert, check, fail}
use malleus.Base.Fs.{IoError, World}
use malleus.Cli.Error.{ℤ, CliError, io, vfkit_exited, vfkit_not_found, CliIo}
use malleus.Cli.Spawn.{
  Machine, succeeded, brew_version, agreed, installed, install, answered, ask, offer_install,
}

-- An error of another kind comes from what follows.
pub called_inv :
    {A : Type 0} (r : Result IoError A × World) (next : A → CliIo (Unit {0})) (c : ℤ) (t : Text)
    (v : World)
    → after (convert io r) next ≡ (err (vfkit_exited c t), v)
    → (a : A) × (u : World) × (r ≡ (ok a, u)) × (next a u ≡ (err (vfkit_exited c t), v))
called_inv (ok a, u) next c t v h = (a, u, refl, h)
called_inv (err e, u) next c t v h = cc

module _ (c : ℤ) (t : Text) (v : World) where
  abbrev pub Shown : Result CliError (Unit {0}) × World → Type 0
  Shown r = r ≡ (err (vfkit_exited c t), v)

  module _ (machine : Machine) where
    offer_inv :
        (has_brew : Bool) (line : Result IoError Text)
        (again : World → Result CliError (Unit {0}) × World) (w : World)
        → Shown ((if not has_brew then fail vfkit_not_found else ask machine line again) w)
        → Shown (ask machine line again w)
    offer_inv true line again w h = h
    offer_inv false line again w h = cc

    installed_inv :
        (success : Bool) (again : World → Result CliError (Unit {0}) × World) (w : World)
        → Shown (installed machine again success w)
        → Shown (again w)
    installed_inv true again w h = h
    installed_inv false again w h = cc

    answered_inv :
        (agreeing : Bool) (again : World → Result CliError (Unit {0}) × World) (w : World)
        → Shown ((if agreeing then install machine again else fail vfkit_not_found) w)
        → Shown (install machine again w)
    answered_inv true again w h = h
    answered_inv false again w h = cc

    -- An offer fails with the exit status of vfkit only if the new start does.
    pub offer_install-Shown :
        (line : Result IoError Text) (again : World → Result CliError (Unit {0}) × World)
        (w : World)
        → Shown (offer_install machine line again w)
        → (x : World) × Shown (again x)
    unfolding offer_install ask install
    offer_install-Shown line again w h =
        let asked =
          offer_inv (succeeded (machine.brew (codes "--version" ∷ []) w).0) line again
            (brew_version machine w).1 h in
        let (_, w1, e1, h1) = called_inv (machine.flush (brew_version machine w).1) _ c t v asked in
        let (input, w2, e2, h2) = called_inv (check line w1) (answered machine again) c t v h1 in
        let (success, w3, e3, h3) =
          called_inv (machine.brew (codes "install" ∷ codes "vfkit" ∷ []) w2)
            (installed machine again) c t v (answered_inv (agreed input) again w2 h2) in
        (w3, installed_inv success again w3 h3)
