-- ===== src/Cli/Incus/Refine.antt =====
-- The commands for the remote, against what `incus` does with its list of remotes.
use mathlib.Core.Path.{subst}
use mathlib.Core.List.{Perm, Permᴰ}
use mathlib.Core.Logic.{∥∥₁_elim}
use malleus.Base.{
  ◌≡◌, refl, sym, ap, ◌∙◌, Bool, true, false, not, ◌&&◌, ◌||◌, List, [], ◌∷◌, map, any, All,
}
use malleus.Base.Text.{Text, codes, text_eq, text_eq_iff, eq_ignore_ascii_case}
use malleus.Base.FilePath.{FilePath}
use malleus.Base.Result.{ok}
use malleus.Base.Io.{after_inv}
use malleus.Base.Fs.{World}
use malleus.Cli.Remote.{remote_exists}
use malleus.Cli.Remote.Laws.{Remote, IsRemote, listed, render_remotes, remote_exists-render_remotes}
use malleus.Cli.Incus.{
  Runner, list_args, add_args, switch_args, run_incus, add_missing, configure_remote,
}

-- A remote that is added, with the columns that `incus` shows for its address.
abbrev pub new_remote : Text → Text → Remote
new_remote name columns = record { name = name; current = false; columns = columns }

abbrev pub marked : Text → Remote → Remote
marked name r = record r { current = text_eq r.name name }

abbrev pub switched : Text → List Remote → List Remote
switched name rows = map (marked name) rows

-- The rows with a remote more, at any place, unless it was there.
abbrev pub Grown : Bool → Remote → List Remote → List Remote → Type 0
Grown true r rows more = more ≡ rows
Grown false r rows more = Perm more (r ∷ rows)

-- What autoconfiguration promises of the list: a remote of the name is there, the new one if none
-- was, and it is the current one; every other remote is as it was, but not the current one.
pub record IsSwitched (name columns : Text) (rows after : List Remote) : Type 0 where
  pub grown : List Remote
  pub grows : Grown (listed name rows) (new_remote name columns) rows grown
  pub switches : after ≡ switched name grown

-- A runner that keeps a list of remotes in the directory, prints it in an order of its own, extends
-- it and marks the current one.
pub record IsIncus (runner : Runner) (incus_conf : FilePath) : Type 0 where
  pub rows : World → List Remote
  pub columns_of : Text → Text
  pub plain : (w : World) → All IsRemote (rows w)
  pub lists :
      (w v : World) (out : Text)
      → runner incus_conf list_args w ≡ (ok out, v)
      → (out ≡ render_remotes (rows w)) × (rows v ≡ rows w)
  pub adds :
      (name url : Text) (w v : World) (out : Text)
      → runner incus_conf (add_args name url) w ≡ (ok out, v)
      → Perm (rows v) (new_remote name (columns_of url) ∷ rows w)
  pub switches :
      (name : Text) (w v : World) (out : Text)
      → runner incus_conf (switch_args name) w ≡ (ok out, v)
      → rows v ≡ switched name (rows w)

module _ (runner : Runner) (incus_conf : FilePath) (incus : IsIncus runner incus_conf) where
  run_incus_inv :
      (args : List Text) (w v : World) (u : Unit {0})
      → run_incus runner incus_conf args w ≡ (ok u, v)
      → (out : Text) × (runner incus_conf args w ≡ (ok out, v))
  unfolding run_incus
  run_incus_inv args w v u h =
      let (out, w1, e, same) = after_inv (runner incus_conf args w) _ v h in
      (out, e ∙ ap (λ r. (ok out, r.1)) same)

  add_missing-Grown :
      (name url out : Text) (w v : World) (u : Unit {0}) (present : Bool)
      → remote_exists out name ≡ present
      → add_missing runner incus_conf name url out w ≡ (ok u, v)
      → Grown present (new_remote name (incus.columns_of url)) (incus.rows w) (incus.rows v)
  unfolding add_missing
  add_missing-Grown name url out w v u true found h =
      let step : add_missing runner incus_conf name url out w ≡ (ok tt, w) = rw found refl in
      ap (λ r. incus.rows r.1) (sym h ∙ step)
  add_missing-Grown name url out w v u false found h =
      let step : add_missing runner incus_conf name url out w
          ≡ run_incus runner incus_conf (add_args name url) w =
        rw found refl in
      let (text, ran) = run_incus_inv (add_args name url) w v u (sym step ∙ h) in
      incus.adds name url w v text ran

  -- The commands for the remote do to the list of such an `incus` what is promised: a remote of
  -- this name is added with the address if none is listed, and it becomes the current one.
  pub configure_remote-IsSwitched :
      (name url : Text) (w v : World) (u : Unit {0})
      → configure_remote runner incus_conf name url w ≡ (ok u, v)
      → IsSwitched name (incus.columns_of url) (incus.rows w) (incus.rows v)
  unfolding configure_remote
  configure_remote-IsSwitched name url w v u h =
      let (out, w1, e1, h1) = after_inv (runner incus_conf list_args w) _ v h in
      let (u2, w2, e2, h2) = after_inv (add_missing runner incus_conf name url out w1) _ v h1 in
      let (text, ran) = run_incus_inv (switch_args name) w2 v u h2 in
      let (printed, kept) = incus.lists w w1 out e1 in
      let present : remote_exists out name ≡ listed name (incus.rows w) =
        ap (λ t. remote_exists t name) printed
        ∙ remote_exists-render_remotes (incus.rows w) name (incus.plain w) in
      record {
        grown = incus.rows w2;
        grows =
            subst
              (λ rows.
                Grown (listed name (incus.rows w)) (new_remote name (incus.columns_of url)) rows
                  (incus.rows w2))
              kept
              (add_missing-Grown name url out w1 w2 u2 (listed name (incus.rows w)) present e2);
        switches = incus.switches name w2 v text ran;
      }

module _ (p : Remote → Bool) where
  swapped : (a b c : Bool) → (a || (b || c)) ≡ (b || (a || c))
  swapped true true c = refl
  swapped true false c = refl
  swapped false true c = refl
  swapped false false c = refl

  any-Permᴰ : {rows more : List Remote} → Permᴰ rows more → any p rows ≡ any p more
  any-Permᴰ Permᴰ.nil = refl
  any-Permᴰ (Permᴰ.cons {l₁ = rows} {l₂ = more} e d) = rw (e, any-Permᴰ d) refl
  any-Permᴰ (Permᴰ.swap {a' = r} {b' = s} {l = rows} e k) =
      rw (e, k) (swapped (p s) (p r) (any p rows))
  any-Permᴰ (Permᴰ.trans d k) = any-Permᴰ d ∙ any-Permᴰ k

  any-Perm : (rows more : List Remote) → Perm rows more → any p rows ≡ any p more
  any-Perm rows more h = ∥∥₁_elim h (hlevel) any-Permᴰ

listed-Grown :
    (name columns : Text) (rows more : List Remote) (present : Bool)
    → eq_ignore_ascii_case name (codes "name") ≡ false
    → listed name rows ≡ present
    → Grown present (new_remote name columns) rows more
    → listed name more ≡ true
listed-Grown name columns rows more true proper there same = ap (listed name) same ∙ there
listed-Grown name columns rows more false proper absent grows =
    ap (λ found. not (eq_ignore_ascii_case name (codes "name")) && found)
      (any-Perm (λ r. text_eq r.name name) more (new_remote name columns ∷ rows) grows)
    ∙ rw (proper, (text_eq_iff name name).1 refl) refl

listed-switched :
    (name other : Text) (rows : List Remote) → listed name (switched other rows) ≡ listed name rows
listed-switched name other rows =
    ap (λ found. not (eq_ignore_ascii_case name (codes "name")) && found) (same rows)
  where
    same :
        (rows : List Remote)
        → any (λ r. text_eq r.name name) (switched other rows) ≡ any (λ r. text_eq r.name name) rows
    same [] = refl
    same (r ∷ rows) = ap (λ rest. text_eq r.name name || rest) (same rows)

switched_twice :
    (name : Text) (rows : List Remote) → switched name (switched name rows) ≡ switched name rows
switched_twice name [] = refl
switched_twice name (r ∷ rows) = ap (λ rest. marked name r ∷ rest) (switched_twice name rows)

Grown-present :
    (present : Bool) (r : Remote) (rows more : List Remote)
    → present ≡ true
    → Grown present r rows more
    → more ≡ rows
Grown-present true r rows more h grows = grows
Grown-present false r rows more h grows = cc

-- With such an `incus` and a remote name that is not that of the heading, a second run leaves the
-- list of remotes as the first one left it, also if it has found another address: the address that
-- was added first is kept.
pub configure_remote_again :
    (runner : Runner) (incus_conf : FilePath) (incus : IsIncus runner incus_conf)
    (name url later_url : Text) (w v x : World) (t u : Unit {0})
    → eq_ignore_ascii_case name (codes "name") ≡ false
    → configure_remote runner incus_conf name url w ≡ (ok t, v)
    → configure_remote runner incus_conf name later_url v ≡ (ok u, x)
    → incus.rows x ≡ incus.rows v
configure_remote_again runner incus_conf incus name url later_url w v x t u proper first second =
    let once = configure_remote-IsSwitched runner incus_conf incus name url w v t first in
    let again = configure_remote-IsSwitched runner incus_conf incus name later_url v x u second in
    let there : listed name (incus.rows v) ≡ true =
      ap (listed name) once.switches
      ∙ listed-switched name name once.grown
      ∙ listed-Grown name (incus.columns_of url) (incus.rows w) once.grown
          (listed name (incus.rows w)) proper refl once.grows in
    again.switches
    ∙ ap (switched name) (
        Grown-present (listed name (incus.rows v)) (new_remote name (incus.columns_of later_url))
          (incus.rows v) again.grown there again.grows
        ∙ once.switches)
    ∙ switched_twice name once.grown
    ∙ sym once.switches
