-- ===== src/Cli/Names/Laws.antt =====
-- The names that a share and a remote may have, and what the guest's payload makes of them.
use malleus.Base.{
  Option-cases, ◌≡◌, ◌↔◌, refl, true, false, Option, none, some, [], ◌∷◌, is_empty, arith, inl, inr,
}
use malleus.Base.Text.{Text, trim_start_matches, trim_end_matches}
use malleus.Base.FilePath.{FilePath}
use malleus.Base.Result.{ok}
use malleus.Provision.{validate_mount_tag, is_tag_char}
use malleus.Cli.Names.{is_name_char, valid_mount_name, cmd_mount, derive_mount_name}

-- A name is valid for the command line exactly if it is a valid tag for the guest's payload, so
-- a share that is registered can always be provisioned.
valid_mount_name-validate_mount_tag :
    (name : Text) → (valid_mount_name name ≡ true) ↔ (validate_mount_tag name ≡ ok tt)
unfolding valid_mount_name validate_mount_tag is_name_char is_tag_char
valid_mount_name-validate_mount_tag name = (λ h. ground arith, λ h. ground arith)

-- The name that a share gets: the given one, or else the last part of its path.
abbrev pub share_name : (FilePath → Option Text) → FilePath → Option Text → Option Text
share_name file_name host_path none = file_name host_path
share_name file_name host_path (some name) = some name

valid_mount_name_given : (name : Text) → valid_mount_name name ≡ true → is_empty name ≡ false
unfolding valid_mount_name trim_start_matches trim_end_matches
valid_mount_name_given [] h = cc
valid_mount_name_given (c ∷ name) h = refl

-- A directory can be registered exactly if its name is a valid tag for the guest's payload.
pub cmd_mount_iff :
    (file_name : FilePath → Option Text) (host_path : FilePath) (name : Option Text)
    → (cmd_mount file_name host_path name ≡ ok tt) ↔ (
        (tag : Text) × (share_name file_name host_path name ≡ some tag)
        × (validate_mount_tag tag ≡ ok tt))
unfolding cmd_mount derive_mount_name
cmd_mount_iff file_name host_path (some name) =
    let (to, back) = valid_mount_name-validate_mount_tag name in
    (λ h. (name, refl, to (ground arith)), λ (tag, e, v). ground (arith, back (ground arith)))
cmd_mount_iff file_name host_path none = elim (Option-cases (file_name host_path)) [
  | inl e ↦ (λ h. ground arith, λ (tag, d, v). ground arith)
  | inr (name, e) ↦
      let (to, back) = valid_mount_name-validate_mount_tag name in
      let not_given = valid_mount_name_given name in
      (λ h. (name, e, to (ground arith)), λ (tag, d, v). ground arith)
]
