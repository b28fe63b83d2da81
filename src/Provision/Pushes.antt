-- ===== src/Provision/Pushes.antt =====
-- The pushes of `render_user_data`: each adds its text behind the text so far.
use malleus.Base.{
  if◌then◌else◌, ◌≡◌, refl, ◌∙◌, sym, ap, Bool, true, false, not, ◌||◌, Option, none, some, List,
  [], ◌∷◌, ◌++◌, append_assoc, append-nil, is_empty,
}
use malleus.Base.Text.{Text, is_some}
use malleus.Provision.{
  MountSpec, ProvisionSpec, push_mounts, push_state_mount, push_mounts_section, push_report,
  push_mkdirs, push_runcmd,
}
use malleus.Provision.Texts.{
  mount_text, mounts_head, runcmd_head, report_text, mkdir_text, vsock_text, install_text,
  mount_all,
}

pub push_mounts-append :
    (ms : List MountSpec) (out u : Text) → push_mounts ms (out ++ u) ≡ out ++ push_mounts ms u
unfolding push_mounts
push_mounts-append [] out u = refl
push_mounts-append (m ∷ ms) out u =
    ap (push_mounts ms) (append_assoc out u (mount_text m.tag))
    ∙ push_mounts-append ms out (u ++ mount_text m.tag)

pub push_state_mount-append :
    (tag : Option Text) (out u : Text)
    → push_state_mount tag (out ++ u) ≡ out ++ push_state_mount tag u
unfolding push_state_mount
push_state_mount-append none out u = refl
push_state_mount-append (some tag) out u = append_assoc out u (mount_text tag)

pub push_mkdirs-append :
    (ms : List MountSpec) (out u : Text) → push_mkdirs ms (out ++ u) ≡ out ++ push_mkdirs ms u
unfolding push_mkdirs
push_mkdirs-append [] out u = refl
push_mkdirs-append (m ∷ ms) out u =
    ap (push_mkdirs ms) (append_assoc out u (mkdir_text m.tag))
    ∙ push_mkdirs-append ms out (u ++ mkdir_text m.tag)

pub push_report-append :
    (tag : Option Text) (out u : Text) → push_report tag (out ++ u) ≡ out ++ push_report tag u
unfolding push_report
push_report-append none out u = refl
push_report-append (some tag) out u = append_assoc out u (report_text tag)

pub if-append :
    (b : Bool) (out x y z : Text)
    → x ≡ out ++ y
    → (if b then x ++ z else x) ≡ out ++ (if b then y ++ z else y)
if-append true out x y z h = ap (λ w. w ++ z) h ∙ append_assoc out y z
if-append false out x y z h = h

pub push_runcmd-append :
    (s : ProvisionSpec) (out : Text) → push_runcmd s out ≡ out ++ push_runcmd s []
unfolding push_runcmd
push_runcmd-append s out = if-append (not (is_empty s.mounts)) out _ _ mount_all (
    ap (λ w. push_mkdirs s.mounts (w ++ (vsock_text ++ install_text)))
      (push_report-append s.state_tag out runcmd_head)
    ∙ ap (push_mkdirs s.mounts)
        (append_assoc out (push_report s.state_tag runcmd_head) (vsock_text ++ install_text))
    ∙ push_mkdirs-append s.mounts out
        (push_report s.state_tag runcmd_head ++ (vsock_text ++ install_text)))

pub push_mounts_section-append :
    (s : ProvisionSpec) (out : Text) → push_mounts_section s out ≡ out ++ push_mounts_section s []
unfolding push_mounts_section
push_mounts_section-append s out = choose (not (is_empty s.mounts) || is_some s.state_tag)
  where
    choose :
        (b : Bool)
        → (if b
            then push_state_mount s.state_tag (push_mounts s.mounts (out ++ mounts_head))
            else out)
          ≡ out
            ++ (if b then push_state_mount s.state_tag (push_mounts s.mounts mounts_head) else [])
    choose true =
        ap (push_state_mount s.state_tag) (push_mounts-append s.mounts out mounts_head)
        ∙ push_state_mount-append s.state_tag out (push_mounts s.mounts mounts_head)
    choose false = sym (append-nil out)
