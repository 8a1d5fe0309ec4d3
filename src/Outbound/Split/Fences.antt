-- ===== src/Outbound/Split/Fences.antt =====
-- Code fences as a reader counts them: every chunk has an even number of them.
use dingtalk_channel_sdk_go.Prelude.{
  eqb, if◌then◌else◌, drop, All, Text, ℕ, ◌+◌, ◌≡◌, Bool, true, false, ◌&&◌, Option, none, some,
  List, [], ◌∷◌,
}
use dingtalk_channel_sdk_go.Outbound.Split.{Splitter, backtick, all_words}
use dingtalk_channel_sdk_go.Outbound.Split.Balance.{HasWords}

-- a line that begins with three backticks
unfoldable pub is_fence : Text → Bool
is_fence (a ∷ b ∷ c ∷ s) = eqb a backtick && (eqb b backtick && eqb c backtick)
is_fence _ = false

-- how many of the lines do
unfoldable pub fences : List Text → ℕ
fences [] = 0
fences (l ∷ ls) = (if is_fence l then 1 else 0) + fences ls

-- Behind its three backticks a line has nothing but letters, digits and underscores.
abbrev pub IsPlain : Text → Type 0
IsPlain line = is_fence line ≡ true → all_words (drop 3 line) ≡ true

abbrev open_bit : Option Text → ℕ
open_bit none = 0
open_bit (some lang) = 1

-- Plain lines make plain chunks.
record ArePlain (done : List Text) (st : Splitter) : Type 0 where
  words : HasWords st.fence_lang
  chunks : All IsPlain done → All (All IsPlain) st.out
  buffer : All IsPlain done → All IsPlain st.buf
