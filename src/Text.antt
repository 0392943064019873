-- ===== src/Text.antt =====
-- `std::string` as the list of its bytes, with the classes of characters of the C locale
-- (`isspace`, `isalpha`, `isalnum`), equality and the split at a space.
use Prim.Native.Char.{code}
use mathlib.Core.Option
use a_multi_threaded_key_val.Prelude.{
  ℕ, String, ◌+◌, ◌≤◌, ◌≡◌, inl, inr, Option-cases, refl, ◌↔◌, Bool, true, false, ◌&&◌, ◌||◌,
  Option, none, some, List, [], ◌∷◌, ◌++◌, length, arith, leb, ◌==◌, if◌then◌else◌,
}

abbrev pub Str : Type 0
Str = List ℕ

-- The bytes of an ASCII literal. `String` has its own `[]` and `∷`.
abbrev pub codes : String → Str
codes String.[] = []
codes (String.◌∷◌ c s) = code c ∷ codes s

-- ' ', '\t', '\n', '\v', '\f', '\r'
-- C++ leaves these three tests undefined on a byte from 128 on, where `char` is signed; here such a byte
-- is in none of the classes.
abbrev pub is_space : ℕ → Bool
is_space c = c == 32 || (leb 9 c && leb c 13)

abbrev pub is_digit : ℕ → Bool
is_digit c = leb b'0' c && leb c b'9'

abbrev pub is_alpha : ℕ → Bool
is_alpha c = (leb b'A' c && leb c b'Z') || (leb b'a' c && leb c b'z')

abbrev pub is_alnum : ℕ → Bool
is_alnum c = is_alpha c || is_digit c

infix 50 ◌=str◌
unfoldable pub ◌=str◌ : Str → Str → Bool
[] =str [] = true
[] =str (d ∷ t) = false
(c ∷ s) =str [] = false
(c ∷ s) =str (d ∷ t) = c == d && s =str t

pub =str_refl : (s : Str) → (s =str s) ≡ true
unfolding ◌=str◌
=str_refl [] = refl
=str_refl (c ∷ s) = ground (arith, =str_refl s)

pub =str→eq : (s t : Str) → (s =str t) ≡ true → s ≡ t
unfolding ◌=str◌
=str→eq [] [] h = refl
=str→eq [] (d ∷ t) h = ground arith
=str→eq (c ∷ s) [] h = ground arith
=str→eq (c ∷ s) (d ∷ t) h = ground (arith, =str→eq s t)

pub =str_iff : (s t : Str) → ((s =str t) ≡ true) ↔ (s ≡ t)
=str_iff s t = (=str→eq s t, λ e. ground (arith, e, =str_refl s))

-- `s.substr(0, s.length() - 1)` and `s.back()`, where `s` is not empty.
unfoldable pub split_last : Str → Option (Str × ℕ)
split_last [] = none
split_last (c ∷ []) = some ([], c)
split_last (c ∷ d ∷ s) = Option.map (λ r. (c ∷ r.0, r.1)) (split_last (d ∷ s))

pub split_last-append : (s : Str) (c : ℕ) → split_last (s ++ c ∷ []) ≡ some (s, c)
unfolding split_last
split_last-append [] c = refl
split_last-append (a ∷ []) c = refl
split_last-append (a ∷ b ∷ s) c = rw (split_last-append (b ∷ s) c)

pub length-split_last :
    (s front : Str) (c : ℕ) → split_last s ≡ some (front, c) → length s ≡ length front + 1
unfolding split_last
length-split_last [] front c h = ground arith
length-split_last (a ∷ []) front c h = ground arith
length-split_last (a ∷ b ∷ s) front c h = elim (Option-cases (split_last (b ∷ s))) [
  | inl e ↦ ground (arith, e)
  | inr (r, e) ↦ ground (arith, e, length-split_last (b ∷ s) r.0 r.1)
]

-- The loop that steps over leading white space, and `substr` from where it stops.
unfoldable pub skip_spaces : Str → Str
skip_spaces [] = []
skip_spaces (c ∷ s) = if is_space c then skip_spaces s else c ∷ s

pub length-skip_spaces : (s : Str) → length (skip_spaces s) ≤ length s
unfolding skip_spaces
length-skip_spaces [] = omega arith
length-skip_spaces (c ∷ s) = ground (arith, length-skip_spaces s)

-- `s.find(' ')`: what stands before the first space and what stands behind it; `none` is `npos`.
unfoldable pub split_space : Str → Option (Str × Str)
split_space [] = none
split_space (c ∷ s) =
    let rest = Option.map (λ r. (c ∷ r.0, r.1)) (split_space s) in
    if c == 32 then some ([], s) else rest

-- The tokens that `while (ss >> token)` reads: the word that the text begins with, and the others.
abbrev pub flush : Str → List Str → List Str
flush [] ws = ws
flush (c ∷ w) ws = (c ∷ w) ∷ ws

unfoldable pub split_words : Str → Str × List Str
split_words [] = ([], [])
split_words (c ∷ s) =
    let (w, ws) = split_words s in if is_space c then ([], flush w ws) else (c ∷ w, ws)

unfoldable pub words : Str → List Str
words s = let (w, ws) = split_words s in flush w ws
