-- ===== src/Reply/Chunks/Content.antt =====
-- The chunks of a long text hold the text, and none is much longer than the limit.
use dingtalk_channel_sdk_go.Prelude.{
  leb, Bool-cases, Option-cases, length, take, drop, take-append-drop, length-drop, length-take-le,
  All, Text, bytes, contains, runes, string_of, IsUtf8, string_of-append, ℕ, zero, suc, ◌-◌, ◌/◌,
  ◌≤◌, ◌<◌, ◌≡◌, refl, sym, ap, ◌∙◌, ◌⊎◌, inl, inr, false, ◌||◌, some, List, [], ◌∷◌, map, arith,
}
use mathlib.Core.List.{append-nil, flatten}
use dingtalk_channel_sdk_go.Reply.Chunks.{newline_cut, cut_of, cut_up, chunk_text}

newline_cut_bounds :
    (more i : ℕ) (rs : List Text) (cut : ℕ)
    → newline_cut more i rs ≡ some cut
    → (1 ≤ cut) × (cut ≤ suc i)
unfolding newline_cut
newline_cut_bounds zero i rs cut e = ground arith
newline_cut_bounds (suc more) i rs cut e = ground (arith, newline_cut_bounds more (i - 1) rs cut)

cut_of_bounds :
    (limit : ℕ) (rs : List Text) → 0 < limit → (1 ≤ cut_of limit rs) × (cut_of limit rs ≤ suc limit)
unfolding cut_of
cut_of_bounds limit rs h = elim (Option-cases (newline_cut (limit - limit / 2) limit rs)) [
  | inl e ↦ rw (e, cut_of) (omega arith, omega arith)
  | inr (cut, e) ↦ rw (e, cut_of) (newline_cut_bounds (limit - limit / 2) limit rs cut e)
]

-- the pieces are the characters of the text, in their order
cut_up-flatten :
    (fuel limit : ℕ) (rs : List Text)
    → 0 < limit
    → length rs ≤ fuel
    → flatten (cut_up fuel limit rs) ≡ rs
unfolding cut_up flatten
cut_up-flatten fuel limit [] pos_limit enough = refl
cut_up-flatten zero limit (r ∷ rs) pos_limit enough = absurd (omega arith)
cut_up-flatten (suc fuel) limit (r ∷ rs) pos_limit enough =
    let all = r ∷ rs in
    let cut = cut_of limit all in
    elim (Bool-cases (leb (length all) limit)) [
      | inl fits ↦ rw fits (append-nil all)
      | inr long ↦
          let (low, high) = cut_of_bounds limit all pos_limit in
          let ih =
            cut_up-flatten fuel limit (drop cut all) pos_limit
              (omega (arith, length-drop cut all)) in
          rw (long, ih) (take-append-drop cut all)
    ]

string_of-flatten :
    (parts : List (List Text)) → string_of (map string_of parts) ≡ string_of (flatten parts)
unfolding string_of flatten
string_of-flatten [] = refl
string_of-flatten (p ∷ ps) = rw (string_of-flatten ps) (sym (string_of-append p (flatten ps)))

-- a piece of no more than this many characters, and at least one
abbrev pub IsShort : ℕ → List Text → Type 0
IsShort most piece = (0 < length piece) × (length piece ≤ most)

cut_up-IsShort :
    (fuel limit : ℕ) (rs : List Text) → 0 < limit → All (IsShort (suc limit)) (cut_up fuel limit rs)
unfolding cut_up
cut_up-IsShort fuel limit [] h = tt
cut_up-IsShort zero limit (r ∷ rs) h = tt
cut_up-IsShort (suc fuel) limit (r ∷ rs) h =
    let all = r ∷ rs in
    let cut = cut_of limit all in
    elim (Bool-cases (leb (length all) limit)) [
      | inl fits ↦ rw fits ((omega arith, ground arith), tt)
      | inr long ↦
          let (low, high) = cut_of_bounds limit all h in
          rw long (
            (take_some cut r rs low, omega (arith, length-take-le cut all)),
            cut_up-IsShort fuel limit (drop cut all) h,
          )
    ]
  where
    take_some : (n : ℕ) (r : Text) (rs : List Text) → 1 ≤ n → 0 < length (take n (r ∷ rs))
    take_some zero r rs low = absurd (omega arith)
    take_some (suc n) r rs low = omega arith

-- A text that is UTF-8 and has no code fence is cut into chunks that give the text again when they are
-- put together. If the limit is 0, or no less than the number of its characters, then the text is the
-- only chunk; otherwise the chunks are, in their order, pieces of the sequence of its characters, each
-- of at least one character and at most one more than the limit.
pub chunk_text-content :
    (s : Text) (limit : ℕ)
    → IsUtf8 s
    → contains (bytes "```") s ≡ false
    → (string_of (chunk_text s limit) ≡ s)
      × ((((limit ≡ 0) ⊎ (length (runes s) ≤ limit)) × (chunk_text s limit ≡ s ∷ []))
          ⊎ ((0 < limit)
              × (limit < length (runes s))
              × ((parts : List (List Text)) × (chunk_text s limit ≡ map string_of parts)
                  × (flatten parts ≡ runes s)
                  × All (IsShort (suc limit)) parts)))
unfolding chunk_text string_of
chunk_text-content s limit utf8 no_fence =
    let rs = runes s in
    elim (Bool-cases (leb limit 0 || leb (length rs) limit)) [
      | inl whole ↦
          let small : (limit ≡ 0) ⊎ (length (runes s) ≤ limit) = elim (Bool-cases (leb limit 0)) [
            | inl nothing ↦ inl (ground arith)
            | inr some_limit ↦ inr (ground arith)
          ] in
          rw whole (append-nil s, inl (small, refl))
      | inr cut ↦
          let enough : 0 < limit = ground arith in
          let under : limit < length rs = ground arith in
          let parts = cut_up (length rs) limit rs in
          let again = cut_up-flatten (length rs) limit rs enough (omega arith) in
          rw (cut, no_fence)
            (
              string_of-flatten parts ∙ ap string_of again ∙ utf8,
              inr (enough, under, (parts, refl, again, cut_up-IsShort (length rs) limit rs enough)),
            )
    ]
