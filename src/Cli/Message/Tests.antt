-- ===== src/Cli/Message/Tests.antt =====
-- A start with a configuration that has no memory.
use malleus.Base.{◌≡◌, refl, some, [], ◌∷◌, ◌++◌, if◌then◌else◌}
use malleus.Base.Text.{Text, codes}
use malleus.Base.FilePath.{join_path, path_eq}
use malleus.Base.Result.{ok}
use malleus.Base.Fs.{IoError, World, create_dir_all, make_dir, read_to_string}
use malleus.Config.{Config, default}
use malleus.Cli.Error.{incus_failed, negsuc}
use malleus.Cli.Start.Tests.{outside, state_dir, before}
use malleus.Cli.Run.{Setting, start}
use malleus.Cli.Run.Tests.{setting}
use malleus.Cli.Message.{cli_text, main}
use malleus.Cli.Message.Laws.{complaint, main_refuses}

abbrev io_text : IoError → Text
io_text e = codes "i/o"

failed_text :
    cli_text io_text (incus_failed (codes "remote list") (negsuc 0) (codes "no"))
    ≡ codes "`incus remote list` failed with status -1: no"
unfolding cli_text malleus.Base.Number.to_string
failed_text = refl

abbrev no_memory : Config
no_memory = record default { memory_mib = 0 }

abbrev refusing : Setting
refusing = record setting { outside = record outside { from_toml = λ raw. ok no_memory } }

abbrev configured : World
configured = record before {
  files = λ p.
      if path_eq p (join_path state_dir (codes "config.toml"))
      then some (codes "memory_mib = 0")
      else before.files p;
}

directory_made : create_dir_all state_dir configured ≡ (ok tt, configured)
unfolding create_dir_all make_dir
directory_made = refl

file_read :
    read_to_string (join_path state_dir (codes "config.toml")) configured
    ≡ (ok (codes "memory_mib = 0"), configured)
unfolding read_to_string
file_read = refl

main_refuses_example :
    main io_text refusing
      (λ args. ok (record { state_dir = some state_dir; command = start }))
      (codes "malleus" ∷ codes "start" ∷ [])
      configured
    ≡ (
      record {
        code = 1;
        stderr = codes "invalid VM configuration: " ++ complaint (codes "memory_mib") ++ codes "\n";
      },
      configured,
    )
main_refuses_example =
    main_refuses io_text refusing
      (λ args. ok (record { state_dir = some state_dir; command = start }))
      (codes "malleus" ∷ codes "start" ∷ []) (some state_dir) configured configured
      (codes "memory_mib = 0") (codes "memory_mib") no_memory refl directory_made file_read refl
      refl
