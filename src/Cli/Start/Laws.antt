-- ===== src/Cli/Start/Laws.antt =====
-- What a start has made when it comes to run vfkit.
use mathlib.Core.Path.{subst}
use malleus.Base.{◌≡◌, refl, sym, ap, ◌∙◌, some, List}
use malleus.Base.Text.{Text, codes, join}
use malleus.Base.FilePath.{FilePath, join_path}
use malleus.Base.Result.{ok, map_err}
use malleus.Base.Io.{Io, after_inv, ok_inv, convert, convert_inv, check}
use malleus.Base.Fs.{World, write, put_file, create_dir_all}
use malleus.Base.Fs.Laws.{write_inv, path_eq_refl}
use malleus.Config.{Config}
use malleus.Config.Laws.{IsUsable}
use malleus.Image.{ImageError, ensure_images}
use malleus.Image.Verify.{HasImage}
use malleus.Image.Ensure.{ensure_images-IsEnsured, HasImage_kept}
use malleus.Pki.{PkiMaterial, pki_paths, load_or_create}
use malleus.Pki.Create.{Holds, load_or_create-Holds}
use malleus.Pki.Effects.{IsElsewhere, load_or_create-elsewhere}
use malleus.Provision.{render_user_data, render_meta_data}
use malleus.Vm.{build_args}
use malleus.Cli.Error.{CliError}
use malleus.Cli.Settings.{load_config}
use malleus.Cli.Settings.Laws.{load_config-IsUsable, map_err_inv}
use malleus.Cli.Start.{Outside, provision_spec, vm_spec, write_payloads, write_start, prepare_start}

module _ (out : Outside) (state_dir : FilePath) where
  -- What stands in the state directory before vfkit runs with the arguments.
  pub record IsPrepared (args : List Text) (v : World) : Type 0 where
    pub cfg : Config
    pub material : PkiMaterial
    pub user_data : Text
    pub meta_data : Text
    pub usable : IsUsable cfg
    pub args_given : args ≡ build_args (vm_spec state_dir cfg)
    pub args_stored :
        v.files (join_path state_dir (codes "vfkit.args")) ≡ some (join (codes "\n") args)
    pub key_material : Holds material (pki_paths (join_path state_dir (codes "pki"))) v
    pub user_rendered : render_user_data (provision_spec material) ≡ ok user_data
    pub user_stored : v.files (join_path state_dir (codes "user-data")) ≡ some user_data
    pub meta_rendered : render_meta_data (provision_spec material) ≡ ok meta_data
    pub meta_stored : v.files (join_path state_dir (codes "meta-data")) ≡ some meta_data
    pub root_disk : HasImage (join_path state_dir (codes "root.raw")) v

  write_payloads_inv :
      (user_data meta_data : Text) (w v : World) (u : Unit {0})
      → write_payloads out state_dir user_data meta_data w ≡ (ok u, v)
      → v
        ≡ put_file
            (join_path state_dir (codes "meta-data"))
            (some meta_data)
            (put_file (join_path state_dir (codes "user-data")) (some user_data) w)
  unfolding write_payloads
  write_payloads_inv user_data meta_data w v u h =
      let user = join_path state_dir (codes "user-data") in
      let meta = join_path state_dir (codes "meta-data") in
      let (u1, w1, e1, h1) = after_inv (convert CliError.io (write user user_data w)) _ v h in
      write_inv meta meta_data w1 v u (convert_inv CliError.io _ v h1)
      ∙ ap (put_file meta (some meta_data))
          (write_inv user user_data w w1 u1 (convert_inv CliError.io _ w1 e1))

  abbrev written : List Text → Text → Text → World → World
  written args user_data meta_data w =
      put_file (join_path state_dir (codes "vfkit.args")) (some (join (codes "\n") args)) (
        put_file (join_path state_dir (codes "meta-data")) (some meta_data)
          (put_file (join_path state_dir (codes "user-data")) (some user_data) w))

  write_start_inv :
      (cfg : Config) (material : PkiMaterial) (w v : World) (args : List Text)
      → write_start out state_dir cfg material w ≡ (ok args, v)
      → (user_data : Text) × (meta_data : Text) × (render_user_data (provision_spec material)
          ≡ ok user_data)
        × (render_meta_data (provision_spec material) ≡ ok meta_data)
        × (build_args (vm_spec state_dir cfg) ≡ args)
        × (written (build_args (vm_spec state_dir cfg)) user_data meta_data w ≡ v)
  unfolding write_start
  write_start_inv cfg material w v args h =
      let (user_data, w5, e5, h5) =
        after_inv
          (check (map_err CliError.provision (render_user_data (provision_spec material))) w) _ v
          h in
      let (meta_data, w6, e6, h6) =
        after_inv
          (check (map_err CliError.provision (render_meta_data (provision_spec material))) w5) _ v
          h5 in
      let (u7, w7, e7, h7) =
        after_inv (write_payloads out state_dir user_data meta_data w6) _ v h6 in
      let (u8, w8, e8, h8) = after_inv (convert CliError.io (write args_path text w7)) _ v h7 in
      let (p, q) = ok_inv (build_args (vm_spec state_dir cfg)) args w8 v h8 in
      (
        user_data,
        meta_data,
        map_err_inv CliError.provision _ user_data (ap (λ r. r.0) e5),
        map_err_inv CliError.provision _ meta_data (ap (λ r. r.0) e6),
        p,
        stored_as user_data meta_data w w6 w7 w8 u7 u8 (ap (λ r. r.1) e5 ∙ ap (λ r. r.1) e6) e7 e8
            ∙ q,
      )
    where
      args_path : FilePath
      args_path = join_path state_dir (codes "vfkit.args")

      text : Text
      text = join (codes "\n") (build_args (vm_spec state_dir cfg))

      stored_as :
          (user_data meta_data : Text) (w w6 w7 w8 : World) (u7 u8 : Unit {0})
          → w ≡ w6
          → write_payloads out state_dir user_data meta_data w6 ≡ (ok u7, w7)
          → convert CliError.io (write args_path text w7) ≡ (ok u8, w8)
          → written (build_args (vm_spec state_dir cfg)) user_data meta_data w ≡ w8
      stored_as user_data meta_data w w6 w7 w8 u7 u8 same e7 e8 =
          ap (written (build_args (vm_spec state_dir cfg)) user_data meta_data) same
          ∙ ap (put_file args_path (some text))
              (sym (write_payloads_inv user_data meta_data w6 w7 u7 e7))
          ∙ sym (write_inv args_path text w7 w8 u8 (convert_inv CliError.io _ w8 e8))

  written-IsPrepared :
      (cfg : Config) (material : PkiMaterial) (user_data meta_data : Text) (w : World)
      → IsUsable cfg
      → Holds material (pki_paths (join_path state_dir (codes "pki"))) w
      → render_user_data (provision_spec material) ≡ ok user_data
      → render_meta_data (provision_spec material) ≡ ok meta_data
      → HasImage (join_path state_dir (codes "root.raw")) w
      → IsPrepared
          (build_args (vm_spec state_dir cfg))
          (written (build_args (vm_spec state_dir cfg)) user_data meta_data w)
  unfolding pki_paths
  written-IsPrepared cfg material user_data meta_data w usable held user meta root = record {
    cfg = cfg;
    material = material;
    user_data = user_data;
    meta_data = meta_data;
    usable = usable;
    args_given = refl;
    args_stored = rw (path_eq_refl state_dir) refl;
    key_material = record {
      client_cert = held.client_cert;
      client_key = held.client_key;
      server_cert = held.server_cert;
      server_key = held.server_key;
    };
    user_rendered = user;
    user_stored = rw (path_eq_refl state_dir) refl;
    meta_rendered = meta;
    meta_stored = rw (path_eq_refl state_dir) refl;
    root_disk = record { content = root.content; there = root.there; image = root.image };
  }

  root-IsElsewhere :
      IsElsewhere (join_path state_dir (codes "pki")) (join_path state_dir (codes "root.raw"))
  unfolding pki_paths
  root-IsElsewhere = record {
    client_cert = refl;
    client_key = refl;
    server_cert = refl;
    server_key = refl;
  }

  write_start-IsPrepared :
      (cfg : Config) (material : PkiMaterial) (w v : World) (args : List Text)
      → IsUsable cfg
      → Holds material (pki_paths (join_path state_dir (codes "pki"))) w
      → HasImage (join_path state_dir (codes "root.raw")) w
      → write_start out state_dir cfg material w ≡ (ok args, v)
      → IsPrepared args v
  write_start-IsPrepared cfg material w v args usable held root h =
      let (user_data, meta_data, user, meta, p, stored) = write_start_inv cfg material w v args h in
      subst (λ a. IsPrepared a v) p
        (subst (λ s. IsPrepared (build_args (vm_spec state_dir cfg)) s) stored
          (written-IsPrepared cfg material user_data meta_data w usable held user meta root))

  -- When a start comes to run vfkit, the configuration is usable, the arguments are those of its
  -- machine and stand in `vfkit.args`, the payloads on disk are the rendered ones of the key
  -- material that is stored, and the root disk begins like a disk image.
  pub prepare_start-IsPrepared :
      (w v : World) (args : List Text)
      → prepare_start out state_dir w ≡ (ok args, v)
      → IsPrepared args v
  unfolding prepare_start
  prepare_start-IsPrepared w v args h =
      let (_, w1, e1, h1) = after_inv (convert CliError.io (create_dir_all state_dir w)) _ v h in
      let (cfg, w2, e2, h2) = after_inv (load_config out.from_toml state_dir w1) _ v h1 in
      let (u3, w3, e3, h3) = after_inv (convert CliError.image (images cfg w2)) _ v h2 in
      let (material, w4, e4, h4) =
        after_inv (convert CliError.pki (load_or_create out.certificates pki_dir w3)) _ v h3 in
      let (usable, _) = load_config-IsUsable out.from_toml state_dir w1 w2 cfg e2 in
      write_start-IsPrepared cfg material w4 v args usable
        (load_or_create-Holds out.certificates pki_dir w3 w4 material
          (convert_inv CliError.pki _ w4 e4))
        (root_after cfg material w2 w3 w4 u3 e3 e4) h4
    where
      pki_dir : FilePath
      pki_dir = join_path state_dir (codes "pki")

      root : FilePath
      root = join_path state_dir (codes "root.raw")

      images : Config → Io World ImageError (Unit {0})
      images cfg = ensure_images out.from_utf8_lossy out.serve out.curl out.arch state_dir cfg

      root_after :
          (cfg : Config) (material : PkiMaterial) (w2 w3 w4 : World) (u : Unit {0})
          → convert CliError.image (images cfg w2) ≡ (ok u, w3)
          → convert CliError.pki (load_or_create out.certificates pki_dir w3) ≡ (ok material, w4)
          → HasImage root w4
      root_after cfg material w2 w3 w4 u e3 e4 =
          let (name, _, ensured) =
            ensure_images-IsEnsured out.from_utf8_lossy out.serve out.curl out.arch state_dir cfg w2
              w3 u (convert_inv CliError.image (images cfg w2) w3 e3) in
          let made = convert_inv CliError.pki (load_or_create out.certificates pki_dir w3) w4 e4 in
          HasImage_kept root w3 w4
            (ap (λ r. r.1.files root) (sym made)
              ∙ load_or_create-elsewhere out.certificates pki_dir root w3 root-IsElsewhere)
            ensured.root
