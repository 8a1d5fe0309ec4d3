-- ===== src/Reply/Cooldown.antt =====
-- reply.go: the cooldown of error texts, over the table of the last texts by conversation.
use dingtalk_channel_sdk_go.Prelude.{
  ltb, leb, if◌then◌else◌, length, Text, Map, lookup, insert, ℕ, ◌-◌, Bool, true, false, Option,
  none, some, [],
}

-- a text was sent less than the cooldown ago
unfoldable pub is_hot : ℕ → ℕ → Option ℕ → Bool
is_hot now cooldown none = false
is_hot now cooldown (some t) = ltb (now - t) cooldown

-- `errorCooldownPass`; the table starts anew when it has grown too large
unfoldable pub error_cooldown_pass : ℕ → Text → ℕ → Map ℕ → Bool × Map ℕ
unfolding is_hot
error_cooldown_pass now key cooldown last =
    let table = if ltb 4096 (length last) then [] else last in
    if leb cooldown 0
    then (true, last)
    else (if is_hot now cooldown (lookup key last)
        then (false, last)
        else (true, insert key now table))
