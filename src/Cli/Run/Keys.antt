-- ===== src/Cli/Run/Keys.antt =====
-- The files of the key material, and the operations that leave them as they are.
use malleus.Base.{◌≡◌, refl, Bool, false, ◌&&◌, List, [], ◌∷◌, any, arith}
use malleus.Base.Text.{Text, codes, text_eq}
use malleus.Base.FilePath.{FilePath, join_path, path_eq}
use malleus.Image.{image_name}

pub data IsKeyName : Text → Type 0 where
  client_cert : IsKeyName (codes "client.crt")
  client_key : IsKeyName (codes "client.key")
  server_cert : IsKeyName (codes "server.crt")
  server_key : IsKeyName (codes "server.key")

abbrev pub key_names : List Text
key_names = codes "client.crt" ∷ codes "client.key" ∷ codes "server.crt" ∷ codes "server.key" ∷ []

and_false_left : (a b : Bool) → a ≡ false → (a && b) ≡ false
and_false_left a b h = rw h refl

other-IsKeyName :
    (t name : Text) → any (text_eq t) key_names ≡ false → IsKeyName name → text_eq t name ≡ false
other-IsKeyName t name h client_cert = ground arith
other-IsKeyName t name h client_key = ground arith
other-IsKeyName t name h server_cert = ground arith
other-IsKeyName t name h server_key = ground arith

-- The path of a file of the key material.
abbrev pub key_path : FilePath → Text → FilePath
key_path state_dir name = join_path (join_path state_dir (codes "pki")) name

-- No other file of the state directory is one of them.
pub state_file-key_path :
    (t name : Text) (state_dir : FilePath)
    → any (text_eq t) key_names ≡ false
    → IsKeyName name
    → path_eq (join_path state_dir t) (key_path state_dir name) ≡ false
state_file-key_path t name state_dir h k =
    and_false_left (text_eq t name) (path_eq state_dir (join_path state_dir (codes "pki")))
      (other-IsKeyName t name h k)

pub image_file-key_path :
    (arch name : Text) (state_dir : FilePath)
    → IsKeyName name
    → path_eq
        (join_path (join_path state_dir (codes "images")) (image_name arch))
        (key_path state_dir name)
      ≡ false
image_file-key_path arch name state_dir client_cert = refl
image_file-key_path arch name state_dir client_key = refl
image_file-key_path arch name state_dir server_cert = refl
image_file-key_path arch name state_dir server_key = refl

-- A file of another directory is none of them.
pub other_dir-key_path :
    (t name : Text) (dir state_dir : FilePath)
    → path_eq dir (join_path state_dir (codes "pki")) ≡ false
    → path_eq (join_path dir t) (key_path state_dir name) ≡ false
other_dir-key_path t name dir state_dir h = ground (arith, h)
