-- ===== src/Cli/Json.antt =====
-- `serde_json`, a crate, and `query_vfkit_ip` of src/main.rs from the answer on: where vfkit's
-- description of the machine holds the address.
use mathlib.Core.Option.{bind, or_else}
use malleus.Base.{ℕ, Option, none, some, List, find_map, if◌then◌else◌}
use malleus.Base.Text.{Text, codes, same_as}
use malleus.Base.Ipv4.{Ipv4Addr, parse_ipv4}

-- What is used of `serde_json`: values, the parser, and the queries of a value.
pub record Json : Type 1 where
  pub Value : Type 0
  pub from_slice : List ℕ → Option Value
  pub get : Text → Value → Option Value
  pub as_str : Value → Option Text
  pub as_array : Value → Option (List Value)

module _ (json : Json) where
  open json use {Value, get, as_str, as_array}

  -- `.get(key).and_then(|v| v.as_str())`.
  unfoldable pub get_str : Text → Value → Option Text
  unfolding bind
  get_str key v = bind (get key v) as_str

  -- The paths on which the answer may hold the address.
  unfoldable pub ip_str : Value → Option Text
  unfolding bind or_else get_str
  ip_str v =
      or_else (bind (get (codes "vm") v) (get_str (codes "ip")))
        (or_else (get_str (codes "ip") v) (bind (get (codes "network") v) (get_str (codes "ip"))))

  unfoldable pub device_ip : Value → Option Text
  unfolding get_str
  device_ip dev =
      if same_as (get_str (codes "kind") dev) (some (codes "virtionet"))
      then get_str (codes "ip") dev
      else none

  unfoldable pub inspected_ip : Value → Option Ipv4Addr
  unfolding bind or_else ip_str device_ip
  inspected_ip v =
      or_else (bind (ip_str v) parse_ipv4)
        (bind (bind (bind (get (codes "devices") v) as_array) (find_map device_ip)) parse_ipv4)
