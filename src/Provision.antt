-- ===== src/Provision.antt =====
-- src/provision.rs: the cloud-init payloads of the guest.
pub mod Texts
pub mod Valid
pub mod Blocks
pub mod Yaml
pub mod Files
pub mod Pushes
pub mod Contents
pub mod Render
pub mod Tests
use malleus.Base.{
  ℕ, Bool, true, false, not, ◌&&◌, ◌||◌, Option, none, some, List, [], ◌∷◌, ◌++◌, ◌==◌,
  if◌then◌else◌, is_empty, all, replicate,
}
use malleus.Base.Text.{Text, codes, trim, is_ascii_alphanumeric, trim_end_matches, lines, is_some}
use malleus.Base.Result.{Result, ok, err, ◌>>=◌, ◌>>◌}
use malleus.Provision.Texts.{
  preseed_head, preseed_tail, network_config, user_data_head, network_head, boot_text,
  server_cert_head, server_key_head, client_cert_head, preseed_file_head, mounts_head, mount_text,
  runcmd_head, report_text, vsock_text, install_text, mkdir_text, mount_all,
}

pub record MountSpec : Type 0 where
  pub tag : Text

pub record ProvisionSpec : Type 0 where
  pub hostname : Text
  pub bridge_cidr : Text
  pub client_cert_pem : Text
  pub server_cert_pem : Text
  pub server_key_pem : Text
  pub mounts : List MountSpec
  pub state_tag : Option Text

pub data ProvisionError : Type 0 where
  empty_hostname : ProvisionError
  empty_bridge_cidr : ProvisionError
  empty_mount_tag : ProvisionError
  invalid_mount_tag : Text → ProvisionError

abbrev pub Checked : Type 0 → Type 0
Checked = Result ProvisionError

unfoldable pub is_tag_char : ℕ → Bool
unfolding is_ascii_alphanumeric
is_tag_char ch = is_ascii_alphanumeric ch || ch == b'-' || ch == b'_' || ch == b'.'

unfoldable pub validate_mount_tag : Text → Checked (Unit {0})
validate_mount_tag tag =
    if is_empty (trim tag)
    then err empty_mount_tag
    else if all is_tag_char tag
    then ok tt
    else err (invalid_mount_tag tag)

-- The loop over the mounts.
unfoldable pub validate_mounts : List MountSpec → Checked (Unit {0})
validate_mounts [] = ok tt
validate_mounts (mount ∷ mounts) = do validate_mount_tag mount.tag; validate_mounts mounts

unfoldable pub validate_state_tag : Option Text → Checked (Unit {0})
validate_state_tag none = ok tt
validate_state_tag (some tag) = validate_mount_tag tag

unfoldable pub validate : ProvisionSpec → Checked (Unit {0})
unfolding validate_mounts validate_state_tag
validate s =
    if is_empty (trim s.hostname)
    then err empty_hostname
    else if is_empty (trim s.bridge_cidr)
    then err empty_bridge_cidr
    else do validate_mounts s.mounts; validate_state_tag s.state_tag

-- The loop of `push_block`.
unfoldable pub push_lines : Text → List Text → Text → Text
push_lines prefix [] out = out
push_lines prefix (line ∷ ls) out = push_lines prefix ls (out ++ (prefix ++ (line ++ 10 ∷ [])))

unfoldable pub push_block : Text → ℕ → Text → Text
unfolding push_lines
push_block out indent content =
    push_lines (replicate indent 32) (lines (trim_end_matches (λ c. c == 10) content)) out

unfoldable pub render_preseed : Text → Text
render_preseed bridge_cidr = preseed_head ++ (bridge_cidr ++ preseed_tail)

unfoldable pub render_network_config : Option Text
render_network_config = some network_config

-- The pushes of `render_user_data`, each on the text so far.
unfoldable pub push_network : Option Text → Text → Text
push_network none out = out
push_network (some nc) out = push_block (out ++ network_head) 2 nc

unfoldable pub push_files : ProvisionSpec → Text → Text
push_files s out =
    let out1 = push_block (out ++ server_cert_head) 6 s.server_cert_pem in
    let out2 = push_block (out1 ++ server_key_head) 6 s.server_key_pem in
    let out3 = push_block (out2 ++ client_cert_head) 6 s.client_cert_pem in
    push_block (out3 ++ preseed_file_head) 6 (render_preseed s.bridge_cidr)

unfoldable pub push_mounts : List MountSpec → Text → Text
push_mounts [] out = out
push_mounts (mount ∷ mounts) out = push_mounts mounts (out ++ mount_text mount.tag)

unfoldable pub push_state_mount : Option Text → Text → Text
push_state_mount none out = out
push_state_mount (some tag) out = out ++ mount_text tag

unfoldable pub push_mounts_section : ProvisionSpec → Text → Text
unfolding push_mounts push_state_mount
push_mounts_section s out =
    if not (is_empty s.mounts) || is_some s.state_tag
    then push_state_mount s.state_tag (push_mounts s.mounts (out ++ mounts_head))
    else out

unfoldable pub push_report : Option Text → Text → Text
push_report none out = out
push_report (some tag) out = out ++ report_text tag

unfoldable pub push_mkdirs : List MountSpec → Text → Text
push_mkdirs [] out = out
push_mkdirs (mount ∷ mounts) out = push_mkdirs mounts (out ++ mkdir_text mount.tag)

unfoldable pub push_runcmd : ProvisionSpec → Text → Text
unfolding push_report push_mkdirs
push_runcmd s out =
    let reported = push_report s.state_tag (out ++ runcmd_head) in
    let made = push_mkdirs s.mounts (reported ++ (vsock_text ++ install_text)) in
    if not (is_empty s.mounts) then made ++ mount_all else made

unfoldable pub render_user_data : ProvisionSpec → Checked Text
unfolding push_network push_files push_mounts_section push_runcmd
render_user_data s = do
  validate s
  let start = push_network render_network_config user_data_head ++ boot_text
  ok (push_runcmd s (push_mounts_section s (push_files s start)))

unfoldable pub render_meta_data : ProvisionSpec → Checked Text
render_meta_data s = do
  validate s
  ok (
      codes "instance-id: malleus-"
      ++ (s.hostname ++ (codes "\nlocal-hostname: " ++ (s.hostname ++ codes "\n"))))
