-- ===== src/Provision/Render.antt =====
-- `render_user_data`: the files that the guest reads in its payload.
use malleus.Base.{[], ◌++◌}
use malleus.Base.Text.{Text}
use malleus.Provision.{
  ProvisionSpec, push_network, render_network_config, push_files, push_mounts_section, push_runcmd,
}
use malleus.Provision.Texts.{user_data_head, boot_text}
use malleus.Provision.Blocks.{spaces, content_lines, block_text}

abbrev body : Text → Text
body content = block_text (spaces 6) (content_lines content)

abbrev start : Text
unfolding push_network render_network_config
start = push_network render_network_config user_data_head ++ boot_text

-- The text behind the files.
abbrev tail_text : ProvisionSpec → Text
tail_text s = push_mounts_section s [] ++ push_runcmd s []

abbrev payload : ProvisionSpec → Text
payload s = push_runcmd s (push_mounts_section s (push_files s start))
