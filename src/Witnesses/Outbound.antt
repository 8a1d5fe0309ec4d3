-- ===== src/Witnesses/Outbound.antt =====
-- internal/outbound at concrete inputs.
use dingtalk_channel_sdk_go.Prelude.{
  eqb, if◌then◌else◌, Text, ℕ, false, Option, none, some, List, [], ◌∷◌,
}
use dingtalk_channel_sdk_go.Outbound.Split.{chunks_of, fence}
use dingtalk_channel_sdk_go.Outbound.Split.Content.{Piece, Shows, chunks_of-Shows}
use dingtalk_channel_sdk_go.Types.Errors.{GoError}
use dingtalk_channel_sdk_go.Outbound.Retry.{retry}
use dingtalk_channel_sdk_go.Outbound.Retry.Attempts.{IsRun, retry-IsRun}

-- a code block in the language "c", of two lines, with a line after it
abbrev code_block : List Text
code_block = fence (99 ∷ []) ∷ (120 ∷ []) ∷ (121 ∷ []) ∷ fence [] ∷ (122 ∷ []) ∷ []

chunks_of-Shows_example : (pieces : List Piece) × Shows (chunks_of 7 code_block) code_block pieces
chunks_of-Shows_example = chunks_of-Shows 7 code_block

-- an operation that fails once
abbrev once : ℕ → Option GoError
once n = if eqb n 1 then some (record { chain = []; message = [] }) else none

retry-IsRun_example :
    IsRun once
      (λ n. false)
      (record { chain = []; message = [] })
      1
      3
      (retry once (λ n. false) (record { chain = []; message = [] }) none)
retry-IsRun_example = retry-IsRun once (λ n. false) (record { chain = []; message = [] }) none
