-- ===== src/Prelude/Strings.antt =====
-- Rust's `str` and `String` as the list of their code points, with the methods that the source
-- calls: `trim`, `trim_matches`, `to_ascii_lowercase`, `split`, `split_once`, `split_whitespace`.
use Prim.Native.Nat.{ℕ, ◌+◌}
use Prim.Native.Char.{code}
use Prim.Native.String.{String}
use mathlib.Core.Path.{◌≡◌, refl}
use mathlib.Core.Logic.{◌↔◌}
use mathlib.Core.Bool.{Bool, true, false, ◌&&◌, ◌||◌}
use mathlib.Core.List.{List, [], ◌∷◌, map, reverse}
use mathlib.Core.Option.{Option, none, some}
use native.Mathlib.Omega.{arith}
use zonemail.Prelude.Tests.{leb, ◌==◌, if◌then◌else◌}

abbrev pub Text : Type 0
Text = List ℕ

-- A literal of the source.
abbrev pub codes : String → Text
codes String.[] = []
codes (String.◌∷◌ c s) = code c ∷ codes s

abbrev pub text_eq : Text → Text → Bool
text_eq [] [] = true
text_eq [] (d ∷ ds) = false
text_eq (c ∷ cs) [] = false
text_eq (c ∷ cs) (d ∷ ds) = (c == d) && text_eq cs ds

pub text_eq_refl : (s : Text) → text_eq s s ≡ true
text_eq_refl [] = refl
text_eq_refl (c ∷ cs) = ground (arith, text_eq_refl cs)

pub text_eq→≡ : (s t : Text) → text_eq s t ≡ true → s ≡ t
text_eq→≡ [] [] h = refl
text_eq→≡ [] (d ∷ ds) h = cc
text_eq→≡ (c ∷ cs) [] h = cc
text_eq→≡ (c ∷ cs) (d ∷ ds) h = ground (arith, text_eq→≡ cs ds)

pub text_eq_iff : (s t : Text) → (text_eq s t ≡ true) ↔ (s ≡ t)
text_eq_iff s t = (text_eq→≡ s t, λ e. ground (arith, text_eq_refl s))

abbrev pub is_empty : Text → Bool
is_empty [] = true
is_empty (c ∷ cs) = false

-- Unicode's `White_Space`, which `char::is_whitespace` tests.
unfoldable pub is_whitespace : ℕ → Bool
is_whitespace c =
    (leb 0x9 c && leb c 0xd)
    || (c == 0x20)
    || (c == 0x85)
    || (c == 0xa0)
    || (c == 0x1680)
    || (leb 0x2000 c && leb c 0x200a)
    || (c == 0x2028)
    || (c == 0x2029)
    || (c == 0x202f)
    || (c == 0x205f)
    || (c == 0x3000)

abbrev pub trim_start_matches : (ℕ → Bool) → Text → Text
trim_start_matches p [] = []
trim_start_matches p (c ∷ cs) = let rest = trim_start_matches p cs in if p c then rest else c ∷ cs

abbrev pub trim_end_matches : (ℕ → Bool) → Text → Text
trim_end_matches p s = reverse (trim_start_matches p (reverse s))

abbrev pub trim_matches : (ℕ → Bool) → Text → Text
trim_matches p s = trim_end_matches p (trim_start_matches p s)

abbrev pub trim : Text → Text
trim = trim_matches is_whitespace

unfoldable pub lower : ℕ → ℕ
lower c = if leb b'A' c && leb c b'Z' then c + 32 else c

abbrev pub to_ascii_lowercase : Text → Text
to_ascii_lowercase = map lower

-- The part before the first character that passes the test, and what follows that character.
abbrev pub before : (ℕ → Bool) → Text → Text
before p [] = []
before p (c ∷ cs) = let rest = before p cs in if p c then [] else c ∷ rest

abbrev pub after? : (ℕ → Bool) → Text → Option Text
after? p [] = none
after? p (c ∷ cs) = let rest = after? p cs in if p c then some cs else rest

-- `split`: the parts between the characters that pass the test; never empty
abbrev pub cons_head : ℕ → List Text → List Text
cons_head c [] = (c ∷ []) ∷ []
cons_head c (part ∷ parts) = (c ∷ part) ∷ parts

abbrev pub split : (ℕ → Bool) → Text → List Text
split p [] = [] ∷ []
split p (c ∷ cs) = let parts = split p cs in if p c then [] ∷ parts else cons_head c parts

-- `split_whitespace`: the words; `word` holds the word under way, reversed.
abbrev pub finish_word : Text → List Text → List Text
finish_word [] ws = ws
finish_word (c ∷ cs) ws = reverse (c ∷ cs) ∷ ws

abbrev pub words_from : Text → Text → List Text
words_from word [] = finish_word word []
words_from word (c ∷ cs) =
    let done = words_from [] cs in
    let more = words_from (c ∷ word) cs in if is_whitespace c then finish_word word done else more

abbrev pub split_whitespace : Text → List Text
split_whitespace s = words_from [] s

pub lower-lower : (c : ℕ) → lower (lower c) ≡ lower c
unfolding lower
lower-lower c = ground arith

pub to_ascii_lowercase_idem :
    (s : Text) → to_ascii_lowercase (to_ascii_lowercase s) ≡ to_ascii_lowercase s
to_ascii_lowercase_idem [] = refl
to_ascii_lowercase_idem (c ∷ cs) = cc (lower-lower c, to_ascii_lowercase_idem cs)
