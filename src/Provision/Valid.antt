-- ===== src/Provision/Valid.antt =====
-- What `validate` accepts, and that both payloads are refused alike.
use malleus.Base.{
  ℕ, ◌≡◌, refl, ◌≢◌, ◌↔◌, true, false, Option, none, some, List, [], ◌∷◌, arith, all, All,
}
use malleus.Base.Text.{Text, is_whitespace}
use malleus.Base.Text.Trim.{is_empty-trim}
use mathlib.Core.List.{cons-ne-nil}
use malleus.Base.Result.{>>-eq-ok_iff, ok}
use malleus.Provision.{
  MountSpec, ProvisionSpec, is_tag_char, validate_mount_tag, validate_mounts, validate_state_tag,
  validate,
}

-- One or more of the characters that a tag may hold.
abbrev pub IsTag : Text → Type 0
IsTag tag = (tag ≢ []) × (all is_tag_char tag ≡ true)

abbrev pub IsStateTag : Option Text → Type 0
IsStateTag none = Unit
IsStateTag (some tag) = IsTag tag

-- Not all of it is white space.
abbrev pub NotBlank : Text → Type 0
NotBlank s = all is_whitespace s ≡ false

pub record IsProvisionSpec (s : ProvisionSpec) : Type 0 where
  pub host_given : NotBlank s.hostname
  pub cidr_given : NotBlank s.bridge_cidr
  pub tags : All (λ mount. IsTag mount.tag) s.mounts
  pub state_tag : IsStateTag s.state_tag

tag_char-not_space : (c : ℕ) → is_tag_char c ≡ true → is_whitespace c ≡ false
unfolding is_tag_char is_whitespace
tag_char-not_space c h = ground arith

validate_mount_tag_iff : (tag : Text) → (validate_mount_tag tag ≡ ok tt) ↔ IsTag tag
unfolding validate_mount_tag
validate_mount_tag_iff [] = (λ h. ground (arith, is_empty-trim []), λ h. absurd (h.0 refl))
validate_mount_tag_iff (c ∷ tag) = (
  λ h. (cons-ne-nil c tag, ground (arith, is_empty-trim (c ∷ tag))),
  λ h. ground (arith, is_empty-trim (c ∷ tag), tag_char-not_space c),
)

validate_mounts_iff :
    (mounts : List MountSpec)
    → (validate_mounts mounts ≡ ok tt) ↔ All (λ mount. IsTag mount.tag) mounts
unfolding validate_mounts
validate_mounts_iff [] = (λ _. tt, λ _. refl)
validate_mounts_iff (mount ∷ mounts) =
    let both = >>-eq-ok_iff (validate_mount_tag mount.tag) (validate_mounts mounts) tt in
    let one = validate_mount_tag_iff mount.tag in
    let rest = validate_mounts_iff mounts in
    (λ h. let (a, b) = both.0 h in (one.0 a, rest.0 b), λ h. both.1 (one.1 h.0, rest.1 h.1))

validate_state_tag_iff : (tag : Option Text) → (validate_state_tag tag ≡ ok tt) ↔ IsStateTag tag
unfolding validate_state_tag
validate_state_tag_iff none = (λ _. tt, λ _. refl)
validate_state_tag_iff (some tag) = validate_mount_tag_iff tag

-- A specification is accepted exactly if its host name and its bridge address are not blank and
-- every mount tag, and the state tag if there is one, is one or more letters, digits, `-`, `_`
-- or `.`.
pub provision_validate_iff : (s : ProvisionSpec) → (validate s ≡ ok tt) ↔ IsProvisionSpec s
unfolding validate
provision_validate_iff s =
    let both = >>-eq-ok_iff (validate_mounts s.mounts) (validate_state_tag s.state_tag) tt in
    let host = is_empty-trim s.hostname in
    let cidr = is_empty-trim s.bridge_cidr in
    (
      λ h.
          let given : NotBlank s.hostname × NotBlank s.bridge_cidr = ground arith in
          let (a, b) = both.0 (ground arith) in
          record {
            host_given = given.0;
            cidr_given = given.1;
            tags = (validate_mounts_iff s.mounts).0 a;
            state_tag = (validate_state_tag_iff s.state_tag).0 b;
          },
      λ v.
          let rest = both.1 (
            (validate_mounts_iff s.mounts).1 v.tags,
            (validate_state_tag_iff s.state_tag).1 v.state_tag,
          ) in
          rw (host, v.host_given, cidr, v.cidr_given) rest,
    )
