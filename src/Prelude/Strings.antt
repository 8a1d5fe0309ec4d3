-- ===== src/Prelude/Strings.antt =====
-- Go strings: sequences of bytes, compared with `==`, joined and searched.
use Prim.Native.Nat.{ℕ, ◌+◌, ◌/◌, ◌%◌}
use Prim.Native.Char.{code}
use Prim.Native.String.{String}
use mathlib.Core.Path.{◌≡◌, refl}
use mathlib.Core.Logic.{◌↔◌}
use mathlib.Core.Bool.{Bool, true, false, ◌&&◌, ◌||◌}
use dingtalk_channel_sdk_go.Prelude.Lists.{any, any-Mem}
use mathlib.Core.List.{Mem, List, [], ◌∷◌}
use native.Mathlib.Omega.{arith}
use dingtalk_channel_sdk_go.Prelude.Tests.{ltb, leb, eqb, eqb_refl, if◌then◌else◌}

abbrev pub Text : Type 0
Text = List ℕ

-- the UTF-8 bytes of a code point
unfoldable pub encode_rune : ℕ → Text → Text
encode_rune c rest =
    if ltb c 0x80
    then c ∷ rest
    else (if ltb c 0x800
        then (0xC0 + c / 0x40) ∷ (0x80 + c % 0x40) ∷ rest
        else (if ltb c 0x10000
            then (0xE0 + c / 0x1000) ∷ (0x80 + c / 0x40 % 0x40) ∷ (0x80 + c % 0x40) ∷ rest
            else (0xF0 + c / 0x40000)
              ∷ (0x80 + c / 0x1000 % 0x40)
              ∷ (0x80 + c / 0x40 % 0x40)
              ∷ (0x80 + c % 0x40)
              ∷ rest))

-- the bytes of a literal
unfoldable pub bytes : String → Text
unfolding encode_rune
bytes String.[] = []
bytes (String.◌∷◌ c s) = encode_rune (code c) (bytes s)

infix 50 ◌==◌
unfoldable pub ◌==◌ : Text → Text → Bool
[] == [] = true
[] == (b ∷ t) = false
(a ∷ s) == [] = false
(a ∷ s) == (b ∷ t) = eqb a b && s == t

pub ==_refl : (s : Text) → (s == s) ≡ true
unfolding ◌==◌
==_refl [] = refl
==_refl (a ∷ s) = rw (eqb_refl a, ==_refl s)

pub eq_of_== : (s t : Text) → (s == t) ≡ true → s ≡ t
unfolding ◌==◌
eq_of_== [] [] h = refl
eq_of_== [] (b ∷ t) h = cc
eq_of_== (a ∷ s) [] h = cc
eq_of_== (a ∷ s) (b ∷ t) h = ground (arith, eq_of_== s t)

-- the comparison decides equality
pub ==_iff : (s t : Text) → ((s == t) ≡ true) ↔ (s ≡ t)
==_iff s t = (eq_of_== s t, λ e. rw e (==_refl t))

pub ==_sym_false : (s t : Text) → (s == t) ≡ false → (t == s) ≡ false
==_sym_false s t h = ground (arith, ==_iff s t, ==_iff t s)

abbrev pub is_empty : Text → Bool
is_empty [] = true
is_empty (_ ∷ _) = false

-- `strings.HasPrefix(s, p)`, as `starts_with p s`
unfoldable pub starts_with : Text → Text → Bool
starts_with [] s = true
starts_with (a ∷ p) [] = false
starts_with (a ∷ p) (b ∷ s) = eqb a b && starts_with p s

-- `strings.Contains(s, sub)`, as `contains sub s`
unfoldable pub contains : Text → Text → Bool
unfolding starts_with
contains sub [] = is_empty sub
contains sub (b ∷ s) = starts_with sub (b ∷ s) || contains sub s

-- `strings.ToLower` on ASCII letters; the bytes of other characters stay
unfoldable pub to_lower : Text → Text
to_lower [] = []
to_lower (c ∷ s) = (if leb b'A' c && leb c b'Z' then c + 32 else c) ∷ to_lower s

-- `for _, id := range ids { if id == x { … } }`
unfoldable pub listed : Text → List Text → Bool
unfolding any
listed x ids = any (λ id. id == x) ids

pub listed_iff : (x : Text) (ids : List Text) → (listed x ids ≡ true) ↔ Mem x ids
unfolding listed
listed_iff x ids = any-Mem (λ id. id == x) x (λ id. ==_iff id x) ids
