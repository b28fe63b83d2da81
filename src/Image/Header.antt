-- ===== src/Image/Header.antt =====
-- `read_full` and `describe_header`.
use malleus.Base.{
  ℕ, zero, suc, ◌+◌, ◌-◌, ◌≤◌, ◌≡◌, refl, sym, ap, ◌∙◌, Bool, false, ◌==◌, List, [], ◌∷◌, ◌++◌,
  if◌then◌else◌, length, take, drop, map, arith, Bool-cases, inl, inr,
}
use malleus.Base.Text.{Text, is_control, trim_start_matches, trim_end_matches, is_whitespace}
use malleus.Base.Text.Split.{Lacks}
use malleus.Base.Text.Words.{trim_end_matches-Lacks}
use malleus.Base.FilePath.{FilePath}
use malleus.Base.Result.{Result, ok, err, Result-cases}
use malleus.Base.Fs.{IoError}
use malleus.Image.{
  amount, read_some, fill_room, read_full, prepend_read, describe_header, snippet_len,
}

module _ {ℓ} {A : Type ℓ} where
  -- A part of the first elements, and the rest of them.
  take-take-drop :
      (c room : ℕ) (xs : List A)
      → c ≤ room
      → take c xs ++ take (room - length (take c xs)) (drop (length (take c xs)) xs) ≡ take room xs
  take-take-drop zero room xs h = ap (λ n. take n xs) (omega arith)
  take-take-drop (suc c) zero [] h = refl
  take-take-drop (suc c) (suc room) [] h =
      let e : suc room - 0 ≡ suc room = omega arith in ap (λ n. take n []) e
  take-take-drop (suc c) (suc room) (x ∷ xs) h =
      ap (λ ys. x ∷ ys)
        (ap (λ n. take c xs ++ take n (drop (length (take c xs)) xs)) (omega arith)
          ∙ take-take-drop c room xs (omega arith))
  take-take-drop (suc c) zero (x ∷ xs) h = ground arith

  length-take-le : (c : ℕ) (xs : List A) → length (take c xs) ≤ c
  length-take-le zero xs = omega arith
  length-take-le (suc c) [] = omega arith
  length-take-le (suc c) (x ∷ xs) = omega (arith, length-take-le c xs)

  take-empty : (c : ℕ) (xs : List A) → 1 ≤ c → length (take c xs) ≡ 0 → xs ≡ []
  take-empty zero xs h k = ground arith
  take-empty (suc c) [] h k = refl
  take-empty (suc c) (x ∷ xs) h k = ground arith

amount-le : (n room : ℕ) → 1 ≤ room → amount n room ≤ room
amount-le n room h = ground arith

amount-pos : (n room : ℕ) → 1 ≤ room → 1 ≤ amount n room
amount-pos n room h = ground arith

fill_room-take :
    (give : ℕ → ℕ) (fuel room offset : ℕ) (rest : List ℕ)
    → room ≤ fuel
    → fill_room (λ k. ok (give k)) fuel room offset rest ≡ ok (take room rest)
unfolding fill_room read_some
fill_room-take give zero zero offset rest h = refl
fill_room-take give zero (suc room) offset rest h = ground arith
fill_room-take give (suc fuel) zero offset rest h = refl
fill_room-take give (suc fuel) (suc room) offset rest h =
    let c = amount (give offset) (suc room) in
    let n = length (take c rest) in
    let room_left : (suc room == 0) ≡ false = ground arith in
    let le : n ≤ suc room =
      omega (arith, length-take-le c rest, amount-le (give offset) (suc room) (omega arith)) in
    elim (Bool-cases (n == 0)) [
      | inl none_left ↦
          rw (room_left, none_left)
            (ap (λ bytes. ok (take (suc room) bytes))
              (sym (
                take-empty c rest (amount-pos (give offset) (suc room) (omega arith))
                  (ground arith))))
      | inr some_left ↦
          rw
            (
              room_left,
              some_left,
              fill_room-take give fuel (suc room - n) (offset + n) (drop n rest) (ground arith),
            )
            (ap ok
              (take-take-drop c (suc room) rest (amount-le (give offset) (suc room) (omega arith))))
    ]

-- However the system cuts the file into reads, the buffer is filled with the first bytes of the
-- file, as many as it has room for or the file holds.
pub read_full-take :
    (give : ℕ → ℕ) (len : ℕ) (content : List ℕ)
    → read_full (λ k. ok (give k)) len content ≡ ok (take len content)
unfolding read_full
read_full-take give len content = fill_room-take give len len 0 content (omega arith)

prepend_read_inv :
    (bytes header : List ℕ) (r : Result IoError (List ℕ))
    → prepend_read bytes r ≡ ok header
    → (more : List ℕ) × (r ≡ ok more) × (header ≡ bytes ++ more)
prepend_read_inv bytes header (ok more) h = (more, refl, cc)
prepend_read_inv bytes header (err e) h = cc

fill_room_ok :
    (serve : ℕ → Result IoError ℕ) (fuel room offset : ℕ) (rest header : List ℕ)
    → room ≤ fuel
    → fill_room serve fuel room offset rest ≡ ok header
    → header ≡ take room rest
unfolding fill_room read_some
fill_room_ok serve zero zero offset rest header h k = cc
fill_room_ok serve zero (suc room) offset rest header h k = ground arith
fill_room_ok serve (suc fuel) zero offset rest header h k = cc
fill_room_ok serve (suc fuel) (suc room) offset rest header h k =
    let room_left : (suc room == 0) ≡ false = ground arith in
    elim (Result-cases (serve offset)) [
      | inr (e, failed) ↦
          let step : fill_room serve (suc fuel) (suc room) offset rest ≡ err e =
            rw (room_left, failed) refl in
          cc
      | inl (offered, served) ↦
          let c = amount offered (suc room) in
          let n = length (take c rest) in
          let more = fill_room serve fuel (suc room - n) (offset + n) (drop n rest) in
          elim (Bool-cases (n == 0)) [
            | inl none_left ↦
                let step : fill_room serve (suc fuel) (suc room) offset rest ≡ ok [] =
                  rw (room_left, served, none_left) refl in
                let nil : rest ≡ [] =
                  take-empty c rest (amount-pos offered (suc room) (omega arith)) (ground arith) in
                let empty_header : header ≡ [] = cc in empty_header ∙ ap (take (suc room)) (sym nil)
            | inr some_left ↦
                let step : fill_room serve (suc fuel) (suc room) offset rest
                    ≡ prepend_read (take c rest) more =
                  rw (room_left, served, some_left) refl in
                let (tail, d, e) = prepend_read_inv (take c rest) header more (sym step ∙ k) in
                e
                ∙ ap (λ t. take c rest ++ t)
                    (fill_room_ok serve fuel (suc room - n) (offset + n) (drop n rest) tail
                      (ground arith) d)
                ∙ take-take-drop c (suc room) rest (amount-le offered (suc room) (omega arith))
          ]
    ]

-- Whatever the system does, a buffer that is filled holds the first bytes of the file.
pub read_full_ok :
    (serve : ℕ → Result IoError ℕ) (len : ℕ) (content header : List ℕ)
    → read_full serve len content ≡ ok header
    → header ≡ take len content
unfolding read_full
read_full_ok serve len content header h =
    fill_room_ok serve len len 0 content header (omega arith) h

trim_start_matches-length : (p : ℕ → Bool) (s : Text) → length (trim_start_matches p s) ≤ length s
unfolding trim_start_matches
trim_start_matches-length p [] = omega arith
trim_start_matches-length p (c ∷ s) = ground (arith, trim_start_matches-length p s)

trim_end_matches-length : (p : ℕ → Bool) (s : Text) → length (trim_end_matches p s) ≤ length s
unfolding trim_end_matches
trim_end_matches-length p [] = omega arith
trim_end_matches-length p (c ∷ s) = ground (arith, trim_end_matches-length p s)

trim_start_matches-Lacks :
    (p q : ℕ → Bool) (s : Text) → Lacks q s → Lacks q (trim_start_matches p s)
unfolding trim_start_matches
trim_start_matches-Lacks p q [] _ = tt
trim_start_matches-Lacks p q (c ∷ s) (h, hs) = elim (Bool-cases (p c)) [
  | inl e ↦ rw e (trim_start_matches-Lacks p q s hs)
  | inr e ↦ rw e (h, hs)
]

take-Lacks : (q : ℕ → Bool) (n : ℕ) (s : Text) → Lacks q s → Lacks q (take n s)
take-Lacks q zero s h = tt
take-Lacks q (suc n) [] h = tt
take-Lacks q (suc n) (c ∷ s) (h, hs) = (h, take-Lacks q n s hs)

blanked-Lacks : (s : Text) → Lacks is_control (map (λ ch. if is_control ch then 32 else ch) s)
unfolding is_control
blanked-Lacks [] = tt
blanked-Lacks (c ∷ s) = (ground arith, blanked-Lacks s)

-- A line of text that is fit for a terminal.
pub record IsSnippet (s : Text) : Type 0 where
  pub short : length s ≤ snippet_len
  pub printable : Lacks is_control s

-- Whatever bytes a file begins with and however they are decoded, the error quotes at most 120
-- characters of them and no control character.
pub describe_header-IsSnippet :
    (from_utf8_lossy : List ℕ → Text) (serve : FilePath → ℕ → Result IoError ℕ) (header : List ℕ)
    → IsSnippet (describe_header from_utf8_lossy serve header)
unfolding describe_header
describe_header-IsSnippet from_utf8_lossy serve header =
    let quoted =
      take snippet_len (map (λ ch. if is_control ch then 32 else ch) (from_utf8_lossy header)) in
    record {
      short = omega (
        arith,
        trim_start_matches-length is_whitespace (trim_end_matches is_whitespace quoted),
        trim_end_matches-length is_whitespace quoted,
        length-take-le snippet_len
            (map (λ ch. if is_control ch then 32 else ch) (from_utf8_lossy header)),
      );
      printable = trim_start_matches-Lacks is_whitespace is_control _ (
          trim_end_matches-Lacks is_whitespace is_control quoted
            (take-Lacks is_control snippet_len _ (blanked-Lacks (from_utf8_lossy header))));
    }
