-- ===== src/Base/Bytes.antt =====
-- Byte strings as lists of numbers, with the functions of Go's packages `bytes` and `strings` that
-- the program calls.
pub mod Trim
use Prim.Native.Nat.{ℕ, zero, suc, ◌-◌, ◌≤◌}
use Prim.Native.Char.{code}
use Prim.Native.String.{String}
use mathlib.Core.Path.{◌≡◌, refl, ap, sym, ◌∙◌}
use mathlib.Core.Logic.{◌↔◌, inl, inr}
use mathlib.Core.Bool.{Bool, true, false, ◌&&◌, ◌||◌}
use mathlib.Core.List.{List, [], ◌∷◌, ◌++◌, reverse}
use native.Mathlib.Omega.{arith}
use vire.Base.Tests.{leb, nat_eq, if◌then◌else◌, Bool-cases}
use vire.Base.Lists.{length, take, drop, length-append, drop-append_ge, take-append-drop}
use vire.Base.Slices.{take_last}

-- The code points of a text: its bytes, if it is ASCII.
abbrev pub codes : String → List ℕ
codes String.[] = []
codes (String.◌∷◌ c s) = code c ∷ codes s

-- `bytes.Equal`
abbrev pub bytes_eq : List ℕ → List ℕ → Bool
bytes_eq [] [] = true
bytes_eq (x ∷ xs) (y ∷ ys) = nat_eq x y && bytes_eq xs ys
bytes_eq _ _ = false

pub bytes_eq_sound : (xs ys : List ℕ) → bytes_eq xs ys ≡ true → xs ≡ ys
bytes_eq_sound [] [] h = refl
bytes_eq_sound (x ∷ xs) (y ∷ ys) h = ground (arith, bytes_eq_sound xs ys)
bytes_eq_sound [] (y ∷ ys) h = cc
bytes_eq_sound (x ∷ xs) [] h = cc

pub bytes_eq_refl : (xs : List ℕ) → bytes_eq xs xs ≡ true
bytes_eq_refl [] = refl
bytes_eq_refl (x ∷ xs) = ground (arith, bytes_eq_refl xs)

pub bytes_eq_iff : (xs ys : List ℕ) → (bytes_eq xs ys ≡ true) ↔ (xs ≡ ys)
bytes_eq_iff xs ys =
    (bytes_eq_sound xs ys, λ e. ap (λ zs. bytes_eq xs zs) (sym e) ∙ bytes_eq_refl xs)

-- `bytes.HasPrefix(s, prefix)`
abbrev pub has_prefix : List ℕ → List ℕ → Bool
has_prefix s [] = true
has_prefix [] (y ∷ prefix) = false
has_prefix (x ∷ s) (y ∷ prefix) = nat_eq x y && has_prefix s prefix

-- `bytes.HasSuffix(s, suffix)`
abbrev pub has_suffix : List ℕ → List ℕ → Bool
has_suffix s suffix =
    leb (length suffix) (length s) && bytes_eq (take_last (length suffix) s) suffix

-- `bytes.TrimSuffix(s, suffix)`
abbrev pub trim_suffix : List ℕ → List ℕ → List ℕ
trim_suffix s suffix = if has_suffix s suffix then take (length s - length suffix) s else s

cons_head : ℕ → List (List ℕ) → List (List ℕ)
cons_head x [] = (x ∷ []) ∷ []
cons_head x (line ∷ lines) = (x ∷ line) ∷ lines

-- `bytes.Split(s, []byte{sep})`
unfoldable pub split : ℕ → List ℕ → List (List ℕ)
unfolding cons_head
split sep [] = [] ∷ []
split sep (x ∷ s) = let rest = split sep s in if nat_eq x sep then [] ∷ rest else cons_head x rest

-- The byte at an index, 0 past the end.
abbrev byte_at : List ℕ → ℕ → ℕ
byte_at [] _ = 0
byte_at (x ∷ _) zero = x
byte_at (_ ∷ s) (suc i) = byte_at s i

-- The number of bytes of the white space character (of `unicode.IsSpace`, in UTF-8) that the three
-- bytes begin with, 0 if there is none.
abbrev pub space_at : ℕ → ℕ → ℕ → ℕ
space_at a b c =
    if leb 9 a && leb a 13 || nat_eq a 32
    then 1
    else if nat_eq a 0xc2 && (nat_eq b 0x85 || nat_eq b 0xa0)
    then 2
    else if nat_eq a 0xe1 && nat_eq b 0x9a && nat_eq c 0x80
        || nat_eq a 0xe2
          && nat_eq b 0x80
          && (leb 0x80 c && leb c 0x8a || nat_eq c 0xa8 || nat_eq c 0xa9 || nat_eq c 0xaf)
        || nat_eq a 0xe2 && nat_eq b 0x81 && nat_eq c 0x9f
        || nat_eq a 0xe3 && nat_eq b 0x80 && nat_eq c 0x80
    then 3
    else 0

abbrev leading : List ℕ → ℕ
leading s = space_at (byte_at s 0) (byte_at s 1) (byte_at s 2)

-- The white space character that a reversed byte string ends with, read backwards.
abbrev trailing : List ℕ → ℕ
trailing r =
    let one = space_at (byte_at r 0) 0 0 in
    let two = space_at (byte_at r 1) (byte_at r 0) 0 in
    let three = space_at (byte_at r 2) (byte_at r 1) (byte_at r 0) in
    if nat_eq one 1 then 1 else if nat_eq two 2 then 2 else if nat_eq three 3 then 3 else 0

-- Skips `k` bytes, then white space as `width` finds it.
skip_spaces : (List ℕ → ℕ) → ℕ → List ℕ → List ℕ
skip_spaces width k [] = []
skip_spaces width (suc k) (x ∷ s) = skip_spaces width k s
skip_spaces width zero (x ∷ s) = elim (width (x ∷ s)) [
  | zero ↦ x ∷ s
  | suc k ↦ skip_spaces width k s
]

-- `bytes.TrimSpace`
unfoldable pub trim_space : List ℕ → List ℕ
unfolding skip_spaces
trim_space s = reverse (skip_spaces trailing 0 (reverse (skip_spaces leading 0 s)))

pub take_last-append : (n : ℕ) (q s : List ℕ) → n ≤ length s → take_last n (q ++ s) ≡ take_last n s
take_last-append n q s h =
    let e : length (q ++ s) - n - length q ≡ length s - n = omega (arith, length-append q s) in
    let far : length q ≤ length (q ++ s) - n = omega (arith, length-append q s) in
    drop-append_ge (length (q ++ s) - n) q s far ∙ ap (λ k. drop k s) e

pub has_suffix-append :
    (q s suffix : List ℕ) → has_suffix s suffix ≡ true → has_suffix (q ++ s) suffix ≡ true
has_suffix-append q s suffix h =
    ground (arith, length-append q s, take_last-append (length suffix) q s)

drop-cons_head : (x : ℕ) (ls : List (List ℕ)) → drop 1 (cons_head x ls) ≡ drop 1 ls
unfolding cons_head
drop-cons_head x [] = refl
drop-cons_head x (l ∷ ls) = refl

-- There is at least one line.
pub split_cons :
    (sep : ℕ) (s : List ℕ) → (line : List ℕ) × (split sep s ≡ line ∷ drop 1 (split sep s))
unfolding split
split_cons sep [] = ([], refl)
split_cons sep (x ∷ s) = elim (Bool-cases (nat_eq x sep)) [
  | inl same ↦ rw same ([], refl)
  | inr other ↦ rw other (cons_head_cons x (split sep s))
]
  where
    cons_head_cons :
        (y : ℕ) (ls : List (List ℕ))
        → (line : List ℕ) × (cons_head y ls ≡ line ∷ drop 1 (cons_head y ls))
    cons_head_cons y [] = (y ∷ [], refl)
    cons_head_cons y (l ∷ ls) = (y ∷ l, refl)

-- Only the first line can differ when bytes are put before a text.
pub split-append :
    (sep : ℕ) (q s : List ℕ)
    → (pre : List (List ℕ)) × (drop 1 (split sep (q ++ s)) ≡ pre ++ drop 1 (split sep s))
unfolding split
split-append sep [] s = ([], refl)
split-append sep (x ∷ q) s =
    let (pre, e) = split-append sep q s in
    let (line, f) = split_cons sep (q ++ s) in
    elim (Bool-cases (nat_eq x sep)) [
      | inl same ↦ rw same (line ∷ pre, f ∙ ap (λ r. line ∷ r) e)
      | inr other ↦ rw other (pre, drop-cons_head x (split sep (q ++ s)) ∙ e)
    ]

pub has_suffix-split :
    (s suffix : List ℕ) → has_suffix s suffix ≡ true → (front : List ℕ) × (s ≡ front ++ suffix)
has_suffix-split s suffix h =
    let n : ℕ = length s - length suffix in
    let e : drop n s ≡ suffix = bytes_eq_sound (drop n s) suffix (ground arith) in
    (take n s, sym (take-append-drop n s) ∙ ap (λ r. take n s ++ r) e)
