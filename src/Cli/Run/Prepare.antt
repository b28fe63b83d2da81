-- ===== src/Cli/Run/Prepare.antt =====
-- A file of the key material under what a start prepares.
use malleus.Base.{ℕ, ◌≡◌, refl, ap, ◌∙◌, true, false, some, List, any, arith}
use malleus.Base.Text.{Text, codes, text_eq, join}
use malleus.Base.FilePath.{FilePath, join_path}
use malleus.Base.Result.{map_err}
use malleus.Base.Io.{called-keeps, after-keeps, convert-keeps, check}
use malleus.Base.Fs.{World, write, create_file, create_dir_all}
use malleus.Base.Fs.Laws.{write-elsewhere, create_file-elsewhere, create_dir_all-files}
use malleus.Config.{Config}
use malleus.Image.{ensure_images}
use malleus.Image.Effects.{ensure_images-elsewhere}
use malleus.Pki.{pki_paths, existing, PkiMaterial, load_or_create}
use malleus.Pki.Load.{load_or_create_untouched, some_present}
use malleus.Cli.Error.{CliError}
use malleus.Cli.Settings.{load_config}
use malleus.Cli.Settings.Laws.{load_config-world}
use malleus.Provision.{render_user_data, render_meta_data}
use malleus.Vm.{build_args}
use malleus.Cli.Start.{Outside, provision_spec, vm_spec, write_payloads, write_start, prepare_start}
use malleus.Cli.Spawn.{Machine}
use malleus.Cli.Run.Keys.{
  key_names, IsKeyName, client_cert, client_key, server_cert, server_key, key_path,
  state_file-key_path, image_file-key_path,
}

-- The programs and the passing of time leave a file as it is.
pub record IsApart (machine : Machine) (out : Outside) (p : FilePath) : Type 0 where
  pub spawn : (args : List Text) (w : World) → (machine.spawn args w).1.files p ≡ w.files p
  pub try_wait : (child : ℕ) (w : World) → (machine.try_wait child w).1.files p ≡ w.files p
  pub sleep : (d : ℕ) (w : World) → (machine.sleep d w).files p ≡ w.files p
  pub brew : (args : List Text) (w : World) → (machine.brew args w).1.files p ≡ w.files p
  pub flush : (w : World) → (machine.flush w).1.files p ≡ w.files p
  pub curl : (args : List Text) (w : World) → (out.curl args w).1.files p ≡ w.files p

some_present-key_path :
    (state_dir : FilePath) (name content : Text) (v : World)
    → IsKeyName name
    → v.files (key_path state_dir name) ≡ some content
    → some_present (join_path state_dir (codes "pki")) v ≡ true
unfolding existing pki_paths
some_present-key_path state_dir name content v client_cert h = rw h refl
some_present-key_path state_dir name content v client_key h = rw h (ground arith)
some_present-key_path state_dir name content v server_cert h = rw h (ground arith)
some_present-key_path state_dir name content v server_key h = rw h (ground arith)

module _ (machine : Machine) (out : Outside) (state_dir : FilePath) (name content : Text)
    (key : IsKeyName name) (apart : IsApart machine out (key_path state_dir name)) where
  abbrev pub Has : World → Type 0
  Has v = v.files (key_path state_dir name) ≡ some content

  pub write_state-keeps :
      (t text : Text) (v : World)
      → any (text_eq t) key_names ≡ false
      → Has v
      → Has (write (join_path state_dir t) text v).1
  write_state-keeps t text v h k =
      write-elsewhere (join_path state_dir t) (key_path state_dir name) text v
        (state_file-key_path t name state_dir h key)
      ∙ k

  pub create_state-keeps :
      (t : Text) (v : World)
      → any (text_eq t) key_names ≡ false
      → Has v
      → Has (create_file (join_path state_dir t) v).1
  create_state-keeps t v h k =
      create_file-elsewhere (join_path state_dir t) (key_path state_dir name) v
        (state_file-key_path t name state_dir h key)
      ∙ k

  -- The key material is loaded, since a file of it is there.
  load_or_create-keeps :
      (v : World)
      → Has v
      → Has (load_or_create out.certificates (join_path state_dir (codes "pki")) v).1
  load_or_create-keeps v k =
      ap (λ s. s.files (key_path state_dir name))
        (load_or_create_untouched out.certificates (join_path state_dir (codes "pki")) v
          (some_present-key_path state_dir name content v key k))
      ∙ k

  write_payloads-keeps :
      (user_data meta_data : Text) (v : World)
      → Has v
      → Has (write_payloads out state_dir user_data meta_data v).1
  unfolding write_payloads
  write_payloads-keeps user_data meta_data v k =
      called-keeps Has CliError.io (write (join_path state_dir (codes "user-data")) user_data v) _
        (write_state-keeps (codes "user-data") user_data v refl k)
        (λ _ u l.
          convert-keeps Has CliError.io
            (write (join_path state_dir (codes "meta-data")) meta_data u)
            (write_state-keeps (codes "meta-data") meta_data u refl l))

  write_start-keeps :
      (cfg : Config) (material : PkiMaterial) (v : World)
      → Has v
      → Has (write_start out state_dir cfg material v).1
  unfolding write_start
  write_start-keeps cfg material v k =
      after-keeps Has
        (check (map_err CliError.provision (render_user_data (provision_spec material))) v) _ k
        (λ user v1 k1.
          after-keeps Has
            (check (map_err CliError.provision (render_meta_data (provision_spec material))) v1) _
            k1
            (λ meta v2 k2.
              after-keeps Has (write_payloads out state_dir user meta v2) _
                (write_payloads-keeps user meta v2 k2)
                (λ _ v3 k3.
                  called-keeps Has CliError.io
                    (write (join_path state_dir (codes "vfkit.args"))
                      (join (codes "\n") (build_args (vm_spec state_dir cfg))) v3)
                    _ (write_state-keeps (codes "vfkit.args") _ v3 refl k3) (λ _ v4 k4. k4))))

  load_config-keeps : (v : World) → Has v → Has (load_config out.from_toml state_dir v).1
  load_config-keeps v k =
      ap (λ s. s.files (key_path state_dir name)) (load_config-world out.from_toml state_dir v) ∙ k

  ensure_images-keeps :
      (cfg : Config) (v : World)
      → Has v
      → Has (ensure_images out.from_utf8_lossy out.serve out.curl out.arch state_dir cfg v).1
  ensure_images-keeps cfg v k =
      ensure_images-elsewhere out.from_utf8_lossy out.serve out.curl (key_path state_dir name) v
        apart.curl out.arch state_dir cfg (λ arch. image_file-key_path arch name state_dir key)
        (state_file-key_path (codes "root.raw") name state_dir refl key)
        (state_file-key_path (codes "pool.raw") name state_dir refl key)
      ∙ k

  pub prepare_start-keeps : (v : World) → Has v → Has (prepare_start out state_dir v).1
  unfolding prepare_start
  prepare_start-keeps v k =
      called-keeps Has CliError.io (create_dir_all state_dir v) _
        (ap (λ files. files (key_path state_dir name)) (create_dir_all-files state_dir v) ∙ k)
        (λ _ v1 k1.
          after-keeps Has (load_config out.from_toml state_dir v1) _ (load_config-keeps v1 k1)
            (λ cfg v2 k2.
              called-keeps Has CliError.image
                (ensure_images out.from_utf8_lossy out.serve out.curl out.arch state_dir cfg v2) _
                (ensure_images-keeps cfg v2 k2)
                (λ _ v3 k3.
                  called-keeps Has CliError.pki
                    (load_or_create out.certificates (join_path state_dir (codes "pki")) v3) _
                    (load_or_create-keeps v3 k3)
                    (λ material v4 k4. write_start-keeps cfg material v4 k4))))
