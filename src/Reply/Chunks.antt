-- ===== src/Reply/Chunks.antt =====
-- reply.go: `chunkText`, on the characters of the text. `limit` is 0 for any limit that is not
-- positive.
pub mod Content
use dingtalk_channel_sdk_go.Prelude.{
  leb, if◌then◌else◌, length, take, drop, Text, bytes, ◌==◌, contains, runes, string_of, ℕ, zero,
  suc, ◌-◌, ◌/◌, Bool, false, ◌||◌, Option, none, some, List, [], ◌∷◌, map, arith,
}
use dingtalk_channel_sdk_go.Outbound.Split.{split_with_code_fences}

-- `runes[i] == '\n'`
unfoldable pub is_newline_at : ℕ → List Text → Bool
unfolding ◌==◌
is_newline_at i [] = false
is_newline_at zero (r ∷ rs) = r == 10 ∷ []
is_newline_at (suc i) (r ∷ rs) = is_newline_at i rs

-- the index behind the last newline at `i` or at one of the `more` indices below it
unfoldable pub newline_cut : ℕ → ℕ → List Text → Option ℕ
newline_cut zero i rs = if is_newline_at i rs then some (suc i) else none
newline_cut (suc more) i rs =
    let lower = newline_cut more (i - 1) rs in if is_newline_at i rs then some (suc i) else lower

-- where the loop cuts
unfoldable pub cut_of : ℕ → List Text → ℕ
cut_of limit rs = elim (newline_cut (limit - limit / 2) limit rs) [ none ↦ limit | some cut ↦ cut ]

-- the loop, on fuel: each turn takes at least one character
unfoldable pub cut_up : ℕ → ℕ → List Text → List (List Text)
cut_up fuel limit [] = []
cut_up zero limit (r ∷ rs) = []
cut_up (suc fuel) limit (r ∷ rs) =
    let cut = cut_of limit (r ∷ rs) in
    let rest = cut_up fuel limit (drop cut (r ∷ rs)) in
    if leb (length (r ∷ rs)) limit then (r ∷ rs) ∷ [] else take cut (r ∷ rs) ∷ rest

unfoldable pub chunk_text : Text → ℕ → List Text
unfolding bytes
chunk_text s limit =
    let rs = runes s in
    if leb limit 0 || leb (length rs) limit
    then s ∷ []
    else (if contains (bytes "```") s
        then split_with_code_fences s limit
        else map string_of (cut_up (length rs) limit rs))
