-- ===== src/Cli/Start/ArgsFile.antt =====
-- The file `vfkit.args` that a start writes.
use malleus.Base.Text.{Text}
use malleus.Base.FilePath.{FilePath}
use malleus.Config.{Config}
