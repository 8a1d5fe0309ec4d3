-- ===== src/Prelude/Runes.antt =====
-- Go's `[]rune(s)`: a text as its characters, each given by its bytes.
use mathlib.Core.Path.{◌≡◌, refl, sym, ap, ◌∙◌}
use mathlib.Core.Bool.{Bool, false, not, ◌&&◌, ◌||◌}
use mathlib.Core.List.{List, [], ◌∷◌, ◌++◌, append_assoc}
use mathlib.Core.Option.{Option, none, some}
use Prim.Native.Nat.{ℕ, zero, suc, ◌-◌}
use dingtalk_channel_sdk_go.Prelude.Tests.{if◌then◌else◌, leb, ltb, eqb}
use dingtalk_channel_sdk_go.Prelude.Lists.{take, drop, take-append-drop}
use dingtalk_channel_sdk_go.Prelude.Strings.{Text}

-- the first byte, if there is one, lies between two bounds
abbrev pub next_in : ℕ → ℕ → Text → Bool
next_in low high [] = false
next_in low high (b ∷ s) = leb low b && leb b high

abbrev pub rest_of : Text → Text
rest_of [] = []
rest_of (_ ∷ s) = s

-- the number of bytes of the character that starts with `b`, and `none` if they are not UTF-8
unfoldable pub rune_size : ℕ → Text → Option ℕ
rune_size b s =
    let second_low = if eqb b 0xE0 then 0xA0 else (if eqb b 0xF0 then 0x90 else 0x80) in
    let second_high = if eqb b 0xED then 0x9F else (if eqb b 0xF4 then 0x8F else 0xBF) in
    let third = next_in 0x80 0xBF (rest_of s) in
    let fourth = next_in 0x80 0xBF (rest_of (rest_of s)) in
    if ltb b 0x80
    then some 1
    else (if (ltb b 0xC2 || ltb 0xF4 b) || not (next_in second_low second_high s)
        then none
        else (if leb b 0xDF
            then some 2
            else (if leb b 0xEF
                then (if third then some 3 else none)
                else (if third && fourth then some 4 else none))))

-- what takes the place of a byte that is not UTF-8: U+FFFD
abbrev pub replacement : Text
replacement = 0xEF ∷ 0xBF ∷ 0xBD ∷ []

-- the characters, after as many bytes as belong to the last one
unfoldable pub runes_after : ℕ → Text → List Text
unfolding rune_size
runes_after skip [] = []
runes_after (suc skip) (b ∷ s) = runes_after skip s
runes_after zero (b ∷ s) = elim (rune_size b s) [
  | none ↦ replacement ∷ runes_after 0 s
  | some n ↦ take n (b ∷ s) ∷ runes_after (n - 1) s
]

unfoldable pub runes : Text → List Text
unfolding runes_after
runes s = runes_after 0 s

-- `string(rs)`
unfoldable pub string_of : List Text → Text
string_of [] = []
string_of (r ∷ rs) = r ++ string_of rs

-- The text is UTF-8: it comes back from its characters.
abbrev pub IsUtf8 : Text → Type 0
IsUtf8 s = string_of (runes s) ≡ s

pub string_of-append : (rs ss : List Text) → string_of (rs ++ ss) ≡ string_of rs ++ string_of ss
unfolding string_of
string_of-append [] ss = refl
string_of-append (r ∷ rs) ss =
    rw (string_of-append rs ss) (sym (append_assoc r (string_of rs) (string_of ss)))

-- a cut does not change the text
pub string_of-cut :
    (cut : ℕ) (rs : List Text) → string_of (take cut rs) ++ string_of (drop cut rs) ≡ string_of rs
string_of-cut cut rs =
    sym (string_of-append (take cut rs) (drop cut rs)) ∙ ap string_of (take-append-drop cut rs)

-- a space of Unicode
unfoldable pub is_space_rune : Text → Bool
is_space_rune (b ∷ []) = (leb 9 b && leb b 13) || eqb b 32
is_space_rune (a ∷ b ∷ []) = eqb a 0xC2 && (eqb b 0x85 || eqb b 0xA0)
is_space_rune (a ∷ b ∷ c ∷ []) =
    (eqb a 0xE1 && eqb b 0x9A && eqb c 0x80)
    || (eqb a 0xE2 && eqb b 0x80 && (leb c 0x8A || eqb c 0xA8 || eqb c 0xA9 || eqb c 0xAF))
    || (eqb a 0xE2 && eqb b 0x81 && eqb c 0x9F)
    || (eqb a 0xE3 && eqb b 0x80 && eqb c 0x80)
is_space_rune _ = false

unfoldable pub trim_left_spaces : List Text → List Text
unfolding is_space_rune
trim_left_spaces [] = []
trim_left_spaces (r ∷ rs) =
    let rest = trim_left_spaces rs in if is_space_rune r then rest else r ∷ rs

unfoldable pub trim_right_spaces : List Text → List Text
unfolding is_space_rune
trim_right_spaces [] = []
trim_right_spaces (r ∷ rs) = elim (trim_right_spaces rs) [
  | [] ↦ if is_space_rune r then [] else r ∷ []
  | last ∷ more ↦ r ∷ (last ∷ more)
]

-- `strings.TrimSpace`, on UTF-8
unfoldable pub trim_space : Text → Text
unfolding trim_left_spaces trim_right_spaces
trim_space s = string_of (trim_left_spaces (trim_right_spaces (runes s)))
