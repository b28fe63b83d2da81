-- ===== src/Cli/Incus/Counter.antt =====
-- An `incus` for the tests, which shows its remotes by their names in order.
use malleus.Base.{
  ℕ, zero, suc, ◌≡◌, refl, sym, ap, ◌∙◌, Bool, true, false, not, ◌&&◌, ◌==◌, List, [], ◌∷◌, ◌≢◌,
  any, if◌then◌else◌, Bool-cases, ◌++◌, inl, inr, All, arith,
}
use malleus.Base.Text.{Text, codes, text_eq_iff, is_whitespace}
use malleus.Base.Text.Split.{Lacks_of_any}
use malleus.Base.Text.Lines.{is_line_end}
use malleus.Base.Ipv4.{Ipv4Addr}
use malleus.Base.FilePath.{FilePath, path_eq}
use malleus.Base.Result.{ok, err}
use malleus.Base.Fs.{World}
use malleus.Cli.Error.{pos, incus_failed, CliIo}
use malleus.Cli.Remote.Laws.{Remote, IsRemote, render_remotes}
use malleus.Cli.Incus.{Runner, list_args, add_args, switch_args}
use malleus.Cli.Incus.Refine.{IsIncus, new_remote, switched}
use mathlib.Core.List.{Perm, cons-ne-nil}
use mathlib.Core.List.Perm

abbrev pub ip : Ipv4Addr
ip = record { a = 192; b = 168; c = 64; d = 7 }

abbrev pub name : Text
name = codes "malleus"

abbrev pub url : Text
url = codes "https://192.168.64.7:8443"

-- The columns that are shown for an address.
abbrev pub columns_of : Text → Text
columns_of address = address ++ codes ",incus,tls,NO,NO,NO"

abbrev local_remote : Remote
local_remote = record {
  name = codes "local";
  current = true;
  columns = columns_of (codes "unix://");
}

abbrev later_remote : Remote
later_remote = record {
  name = codes "zulu";
  current = false;
  columns = columns_of (codes "https://z");
}

abbrev pub grown : List Remote
grown = local_remote ∷ new_remote name (columns_of url) ∷ later_remote ∷ []

-- The list is kept in the counter of the world: at first, added, current.
abbrev pub rows_of : ℕ → List Remote
rows_of zero = local_remote ∷ later_remote ∷ []
rows_of (suc zero) = grown
rows_of (suc (suc n)) = switched name grown

abbrev pub rows : World → List Remote
rows w = rows_of w.drawn

abbrev pub refuse : CliIo Text
refuse w = (err (incus_failed [] (pos 1) []), w)

abbrev pub runner : Runner
runner conf args w =
    if path_eq args list_args
    then (ok (render_remotes (rows w)), w)
    else if path_eq args (add_args name url) && w.drawn == 0
    then (ok [], record w { drawn = 1 })
    else if path_eq args (switch_args name) && not (w.drawn == 0)
    then (ok [], record w { drawn = 2 })
    else refuse w

row-IsRemote :
    (row : Text) (current : Bool) (address : Text)
    → row ≢ []
    → any is_whitespace row ≡ false
    → any (λ c. c == b',') row ≡ false
    → any is_line_end (columns_of address) ≡ false
    → IsRemote (record { name = row; current = current; columns = columns_of address })
row-IsRemote row current address given plain one columns = record {
  name_given = given;
  name_plain = Lacks_of_any is_whitespace row plain;
  name_one = Lacks_of_any (λ c. c == b',') row one;
  columns_one = Lacks_of_any is_line_end (columns_of address) columns;
}

local-IsRemote : (current : Bool) → IsRemote (record local_remote { current = current })
unfolding is_whitespace
local-IsRemote current =
    row-IsRemote (codes "local") current (codes "unix://") (cons-ne-nil _ _) refl refl refl

name-IsRemote :
    (current : Bool) → IsRemote (record (new_remote name (columns_of url)) { current = current })
unfolding is_whitespace
name-IsRemote current = row-IsRemote name current url (cons-ne-nil _ _) refl refl refl

later-IsRemote : IsRemote later_remote
unfolding is_whitespace
later-IsRemote =
    row-IsRemote (codes "zulu") false (codes "https://z") (cons-ne-nil _ _) refl refl refl

rows-IsRemote : (n : ℕ) → All IsRemote (rows_of n)
rows-IsRemote zero = (local-IsRemote true, (later-IsRemote, tt))
rows-IsRemote (suc zero) = (local-IsRemote true, (name-IsRemote false, (later-IsRemote, tt)))
rows-IsRemote (suc (suc n)) = (local-IsRemote false, (name-IsRemote true, (later-IsRemote, tt)))

runner-lists :
    (conf : FilePath) (w v : World) (out : Text)
    → runner conf list_args w ≡ (ok out, v)
    → (out ≡ render_remotes (rows w)) × (rows v ≡ rows w)
runner-lists conf w v out h = (cc, cc)

-- The guards of the two commands that change the list.
add_facts :
    (n u : Text) (w : World)
    → (path_eq (add_args n u) (add_args name url) && w.drawn == 0) ≡ true
    → (n ≡ name) × (u ≡ url) × (w.drawn ≡ 0)
add_facts n u w h = ground (arith, text_eq_iff n name, text_eq_iff u url)

switch_facts :
    (n : Text) (w : World)
    → (path_eq (switch_args n) (switch_args name) && not (w.drawn == 0)) ≡ true
    → (n ≡ name) × ((w.drawn == 0) ≡ false)
switch_facts n w h = ground (arith, text_eq_iff n name)

switched_rows : (k : ℕ) → (k == 0) ≡ false → rows_of 2 ≡ switched name (rows_of k)
switched_rows zero h = cc
switched_rows (suc zero) h = refl
switched_rows (suc (suc k)) h = refl

runner-adds :
    (conf : FilePath) (n u : Text) (w v : World) (out : Text)
    → runner conf (add_args n u) w ≡ (ok out, v)
    → Perm (rows v) (new_remote n (columns_of u) ∷ rows w)
runner-adds conf n u w v out h =
    elim (Bool-cases (path_eq (add_args n u) (add_args name url) && w.drawn == 0)) [
      | inl allowed ↦
          let (is_name, is_url, empty) = add_facts n u w allowed in
          let step : runner conf (add_args n u) w ≡ (ok [], record w { drawn = 1 }) =
            rw allowed refl in
          let same : rows v ≡ grown = ap (λ r. rows r.1) (sym h ∙ step) in
          rw (same, is_name, is_url, empty)
            (Perm.swap (new_remote name (columns_of url)) local_remote (later_remote ∷ []))
      | inr refused ↦
          let step : runner conf (add_args n u) w ≡ refuse w = rw refused refl in
          let e = sym step ∙ h in cc
    ]

runner-switches :
    (conf : FilePath) (n : Text) (w v : World) (out : Text)
    → runner conf (switch_args n) w ≡ (ok out, v)
    → rows v ≡ switched n (rows w)
runner-switches conf n w v out h =
    elim (Bool-cases (path_eq (switch_args n) (switch_args name) && not (w.drawn == 0))) [
      | inl allowed ↦
          let (is_name, some_row) = switch_facts n w allowed in
          let step : runner conf (switch_args n) w ≡ (ok [], record w { drawn = 2 }) =
            rw allowed refl in
          ap (λ r. rows r.1) (sym h ∙ step) ∙ rw is_name (switched_rows w.drawn some_row)
      | inr refused ↦
          let step : runner conf (switch_args n) w ≡ refuse w = rw refused refl in
          let e = sym step ∙ h in cc
    ]

pub runner-IsIncus : (conf : FilePath) → IsIncus runner conf
runner-IsIncus conf = record {
  rows = rows;
  columns_of = columns_of;
  plain = λ w. rows-IsRemote w.drawn;
  lists = runner-lists conf;
  adds = runner-adds conf;
  switches = runner-switches conf;
}
