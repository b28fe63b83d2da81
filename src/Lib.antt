-- ===== src/Lib.antt =====
-- malleus: a command-line program that runs an Incus host in a Linux machine of vfkit on macOS.
-- `start` makes the disk images, the key material and the guest's cloud-init payloads, and starts
-- vfkit; `stop`, `status` and `autoconfigure` work on what it left in the state directory, and
-- the last finds the guest's address and tells the local Incus client about it.
--
-- Which file models what:
-- - Base: what the program uses of Rust's standard library. Texts are lists of character codes
--   (Base/Text: split, trim, lines, replace, join), numbers are parsed and printed with their
--   width as the bound of the parser (Base/Number), Base/Ipv4 is `Ipv4Addr`, Base/FilePath is
--   `PathBuf`, Base/Result and Base/Io are `Result` and `?` without and with a world, and Base/Fs
--   is `std::fs`: files, directories, and a system that may refuse an operation on a path. A
--   write that fails on the way leaves an empty file there. What is drawn from outside (keys, the
--   clock) is counted. Concurrent writers, symbolic links and the removal of a part of a directory are left out.
-- - Config: src/config.rs. `Config`, its default and `validate`.
-- - Leases: src/leases.rs. Leases/Mac is `normalize_mac`, Leases/Scan is `find_lease`, its loop a
--   step on the record of the loop's variables, Leases/Arp is `find_in_arp`. The debug output is
--   left out. The proofs go through the six bytes of an address (Leases/Mac/Laws) and the blocks
--   of a file (Leases/Scan/Blocks, Identity), then files as macOS prints them (Render, Records).
-- - Netroute: src/netroute.rs. `Ipv4Net` is a type of the `ipnet` crate; the record `Ipv4Nets`
--   has the parts that are used, with the documented meaning of `contains`.
-- - Vm: src/vm.rs. `VmSpec` and `build_args`, whose text for each argument is a definition.
-- - Provision: src/provision.rs. The checks and the three payloads, with every fixed text
--   (Provision/Texts). Provision/Blocks has the lines of a block that is written, Yaml how YAML
--   reads a literal block, whose indentation it takes from the first line that is not blank, and
--   Files how the guest finds a file of `write_files` by the line of its path; Contents, Pushes and
--   Render apply this to `render_user_data`.
-- - Pki: src/pki.rs. The crates `p256` and `x509_cert` are the record `Certificates`
--   (Pki/Certificate), of which nothing is assumed; the n-th key that is drawn is `generate n`.
--   `load_or_create` runs over the world of Base/Fs.
-- - Image: src/image.rs. `curl` is a parameter that may change the world in any way, as are the
--   decoding of `String::from_utf8_lossy` and how many bytes a read hands out at each offset. The
--   loop of `read_full` runs on fuel, the length of its buffer, since each round reads a byte or
--   ends. A size in bytes wraps at 64 bits as in a release build. The branch of the test build,
--   which skips the work, is left out.
-- - Cli: src/main.rs. Cli/Error has its errors, Cli/Names the names of shares with `cmd_mount` and
--   `cmd_unmount`, Cli/Remote `remote_exists`, Cli/Process `describes_live_vfkit`, `is_vm_running`
--   and `cmd_stop`, Cli/Settings `load_config`, the default directories and `cmd_status`,
--   Cli/Delete `cmd_delete`, Cli/Start `cmd_start` up to the call of `start_vm`, Cli/Spawn
--   `start_vm`, `wait_for_early_exit` and the whole of `cmd_start`, Cli/Json what
--   `query_vfkit_ip` does with its answer, Cli/Address the other sources of addresses,
--   `query_vsock_ip` among them, with `resolve_vm_ip` in Cli/Address/Round, Cli/Incus
--   `ProcessIncusRunner`, `cmd_autoconfigure_with_runner` and `cmd_autoconfigure`, and Cli/Run
--   `Command` and `run`. Cli/Message has `main` and the texts of the errors, those of the other
--   files included. Printed lines are left out, but those of `cmd_status` are its result.
--
-- What runs outside is a parameter: the programs `ps`, `kill`, `curl`, `arp`, `brew`, `incus` and
-- `vfkit`, the readiness socket, the clock, the TOML and JSON parsers, the taking apart of a path,
-- and the text of a system error. The programs may change the world in any way; where a theorem
-- needs that one of them leaves a file alone, does not turn the clock back, or treats the list of
-- remotes as `incus` does, it says so
-- by a record among its hypotheses (`IsMachine`, `IsTimely`, `IsHarmless`, `IsIncus`).
-- `ps` answers by the world that it is run in and does not change it. A file has its content and
-- whether its bytes are UTF-8, without which `read_to_string` fails.
--
-- Both waiting loops of src/main.rs have the form of Base/Poll: try, give up behind a deadline,
-- sleep, try again. `Polls` is the loop without a bound, as a relation; `poll` runs on fuel, the
-- number of sleeps: 40 of 50 ms make up the two seconds of a start, 30 of 2 s the minute of the
-- search for an address, so that the deadline has passed when the fuel has run out. The loop of
-- `start_vm` is recursion on the lines that are typed, since it reads one for each new round and
-- an input that has ended gives no agreement.
--
-- Not modelled: the argument parser, which is derived code of clap; the branches of the test
-- build; and src/lib.rs, a list of modules.
pub mod Base
pub mod Cli
pub mod Config
pub mod Image
pub mod Leases
pub mod Netroute
pub mod Pki
pub mod Provision
pub mod Vm
