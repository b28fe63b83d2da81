-- ===== src/Provision/Contents.antt =====
-- The files of the user data, and when YAML gives their contents back.
use malleus.Base.{All-append, any, ◌≡◌, refl, true, false, List, [], ◌∷◌, ◌++◌, All}
use malleus.Base.Text.{Text, codes}
use malleus.Base.Text.Split.{Lacks_of_any}
use malleus.Base.Text.Lines.{is_line_end}
use malleus.Provision.{ProvisionSpec, render_preseed}
use malleus.Provision.Texts.{preseed_head, preseed_tail}
use malleus.Provision.Blocks.{content_lines}
use malleus.Provision.Yaml.{is_unreadable, IsReadable, is_flush, is_flush-content_lines}
use malleus.Provision.Files.{FileEntry, IsFileEntry}

-- The files of the payload, in their order.
abbrev pub user_files : ProvisionSpec → List FileEntry
user_files s =
    (record {
      path = codes "/var/lib/incus/server.crt";
      mode = codes "0644";
      content = s.server_cert_pem;
    })
    ∷ (record {
      path = codes "/var/lib/incus/server.key";
      mode = codes "0600";
      content = s.server_key_pem;
    })
    ∷ (record {
      path = codes "/var/lib/malleus/client.crt";
      mode = codes "0644";
      content = s.client_cert_pem;
    })
    ∷ (record {
      path = codes "/var/lib/malleus/preseed.yaml";
      mode = codes "0644";
      content = render_preseed s.bridge_cidr;
    })
    ∷ []

-- A content whose first line that is not empty starts with no space, of characters that YAML allows
-- and does not take for a line end.
pub record IsBlock (content : Text) : Type 0 where
  pub readable : IsReadable content
  pub flush : is_flush (content_lines content) ≡ true

-- The texts that the payload takes a file from.
pub record HasBlocks (s : ProvisionSpec) : Type 0 where
  pub server_cert : IsBlock s.server_cert_pem
  pub server_key : IsBlock s.server_key_pem
  pub client_cert : IsBlock s.client_cert_pem
  pub bridge : IsReadable s.bridge_cidr

render_preseed-IsBlock : (bridge : Text) → IsReadable bridge → IsBlock (render_preseed bridge)
unfolding render_preseed
render_preseed-IsBlock bridge h = record {
  readable =
      All-append _ preseed_head (bridge ++ preseed_tail)
        (Lacks_of_any is_unreadable preseed_head refl)
        (All-append _ bridge preseed_tail h (Lacks_of_any is_unreadable preseed_tail refl));
  flush = is_flush-content_lines b'c' _ refl refl refl;
}

pub user_files-IsFileEntry : (s : ProvisionSpec) → HasBlocks s → All IsFileEntry (user_files s)
user_files-IsFileEntry s h = (
  entry (codes "/var/lib/incus/server.crt") (codes "0644") s.server_cert_pem refl refl
      h.server_cert,
  (
    entry (codes "/var/lib/incus/server.key") (codes "0600") s.server_key_pem refl refl
        h.server_key,
    (
      entry (codes "/var/lib/malleus/client.crt") (codes "0644") s.client_cert_pem refl refl
          h.client_cert,
      (
        entry (codes "/var/lib/malleus/preseed.yaml") (codes "0644") (render_preseed s.bridge_cidr)
            refl refl (render_preseed-IsBlock s.bridge_cidr h.bridge),
        tt,
      ),
    ),
  ),
)
  where
    entry :
        (p m c : Text)
        → any is_line_end p ≡ false
        → any is_line_end m ≡ false
        → IsBlock c
        → IsFileEntry (record { path = p; mode = m; content = c })
    entry p m c h k block = record {
      path_one = Lacks_of_any is_line_end p h;
      mode_one = Lacks_of_any is_line_end m k;
      readable = block.readable;
      flush = block.flush;
    }
