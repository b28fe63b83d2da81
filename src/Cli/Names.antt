-- ===== src/Cli/Names.antt =====
-- `valid_mount_name`, `derive_mount_name`, `cmd_mount` and `cmd_unmount` of src/main.rs.
pub mod Laws
use malleus.Base.{
  ℕ, Bool, true, false, not, ◌&&◌, ◌||◌, ◌==◌, Option, none, some, List, [], ◌∷◌, all, is_empty,
  if◌then◌else◌,
}
use malleus.Base.Text.{Text, codes, trim, is_ascii_alphanumeric}
use malleus.Base.FilePath.{FilePath}
use malleus.Base.Result.{Result, ok, err, ◌>>=◌}
use malleus.Vm.{Share}
use malleus.Cli.Error.{CliError, missing_mount_name, invalid_mount_name}

unfoldable pub is_name_char : ℕ → Bool
is_name_char ch = is_ascii_alphanumeric ch || ch == b'-' || ch == b'_' || ch == b'.'

unfoldable pub valid_mount_name : Text → Bool
valid_mount_name name = not (is_empty (trim name)) && all is_name_char name

-- `file_name` of a path, as UTF-8: it is the system's to take a path apart.
module _ (file_name : FilePath → Option Text) where
  unfoldable pub derive_mount_name : FilePath → Result CliError Text
  derive_mount_name host_path = elim (file_name host_path) [
    | none ↦ err (missing_mount_name host_path)
    | some name ↦ if is_empty name then err (missing_mount_name host_path) else ok name
  ]

  abbrev name_or_derived : FilePath → Option Text → Result CliError Text
  name_or_derived host_path none = derive_mount_name host_path
  name_or_derived host_path (some name) = ok name

  -- The share is made and dropped.
  unfoldable pub cmd_mount : FilePath → Option Text → Result CliError (Unit {0})
  unfolding derive_mount_name
  cmd_mount host_path name = do
    mount_name ← name_or_derived host_path name
    if not (valid_mount_name mount_name) then err (invalid_mount_name mount_name) else ok tt

unfoldable pub cmd_unmount : Text → Result CliError (Unit {0})
cmd_unmount name = if not (valid_mount_name name) then err (invalid_mount_name name) else ok tt
