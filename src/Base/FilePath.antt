-- ===== src/Base/FilePath.antt =====
-- Paths. A path is a base, as the user or the system gives it, and the names that the program
-- joined to it; the innermost name stands first and the base last.
use malleus.Base.{
  ◌≡◌, refl, ◌↔◌, Bool, true, false, ◌&&◌, ◌||◌, List, [], ◌∷◌, ◌++◌, arith, ◌==◌, if◌then◌else◌,
  is_empty,
}
use malleus.Base.Text.{Text, text_eq, text_eq_iff}

abbrev pub FilePath : Type 0
FilePath = List Text

-- `Path::join` of a relative name.
abbrev pub join_path : FilePath → Text → FilePath
join_path p name = name ∷ p

-- `Path::parent`.
abbrev pub parent : FilePath → FilePath
parent [] = []
parent (name ∷ p) = p

abbrev pub ends_with_slash : Text → Bool
ends_with_slash [] = false
ends_with_slash (c ∷ []) = c == b'/'
ends_with_slash (c ∷ d ∷ s) = ends_with_slash (d ∷ s)

-- `path.display().to_string()` of a path that is UTF-8.
unfoldable pub display : FilePath → Text
display [] = []
display (base ∷ []) = base
display (name ∷ q ∷ p) =
    let above = display (q ∷ p) in
    if is_empty above || ends_with_slash above then above ++ name else above ++ b'/' ∷ name

abbrev pub path_eq : FilePath → FilePath → Bool
path_eq [] [] = true
path_eq (a ∷ p) (b ∷ q) = text_eq a b && path_eq p q
path_eq _ _ = false

pub path_eq_iff : (p q : FilePath) → (path_eq p q ≡ true) ↔ (p ≡ q)
path_eq_iff [] [] = (λ _. refl, λ _. refl)
path_eq_iff [] (b ∷ q) = (λ h. cc, λ h. cc)
path_eq_iff (a ∷ p) [] = (λ h. cc, λ h. cc)
path_eq_iff (a ∷ p) (b ∷ q) = ground (arith, path_eq_iff p q, text_eq_iff a b)
