-- ===== src/Cli/Delete.antt =====
-- `cmd_delete` of src/main.rs.
use malleus.Base.{◌≡◌, refl, sym, ap, ◌∙◌, false, if◌then◌else◌, Bool-cases, inl, inr}
use malleus.Base.FilePath.{FilePath}
use malleus.Base.Result.{ok}
use malleus.Base.Io.{from_error, convert, convert_inv}
use malleus.Base.Fs.{World, exists, is_under, remove_tree, remove_dir_all}
use malleus.Base.Fs.Laws.{remove_dir_all_inv, is_under_refl}
use malleus.Cli.Error.{CliIo, io}

unfoldable pub cmd_delete : FilePath → CliIo (Unit {0})
cmd_delete state_dir w =
    if exists state_dir w then from_error io (remove_dir_all state_dir) w else (ok tt, w)

-- Behind a successful deletion the state directory is not there, and every file that is not
-- below it is as it was.
pub cmd_delete_gone :
    (state_dir : FilePath) (w v : World) (u : Unit {0})
    → cmd_delete state_dir w ≡ (ok u, v)
    → (exists state_dir v ≡ false)
      × ((q : FilePath) → is_under state_dir q ≡ false → v.files q ≡ w.files q)
unfolding cmd_delete
cmd_delete_gone state_dir w v u h = elim (Bool-cases (exists state_dir w)) [
  | inr missing ↦
      let step : cmd_delete state_dir w ≡ (ok tt, w) = rw missing refl in
      let same : w ≡ v = ap (λ r. r.1) (sym step ∙ h) in
      (ap (exists state_dir) (sym same) ∙ missing, λ q k. ap (λ s. s.files q) (sym same))
  | inl there ↦
      let step : cmd_delete state_dir w ≡ convert io (remove_dir_all state_dir w) = rw there refl in
      let gone : v ≡ remove_tree state_dir w =
        remove_dir_all_inv state_dir w v u (convert_inv io _ v (sym step ∙ h)) in
      (
        ap (exists state_dir) gone ∙ rw (is_under_refl state_dir) refl,
        λ q k. ap (λ s. s.files q) gone ∙ rw k refl,
      )
]
