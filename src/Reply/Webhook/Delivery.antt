-- ===== src/Reply/Webhook/Delivery.antt =====
-- What a reply gives to the webhook and to the proactive send: the parts in their order, and all of
-- them if there was no error.
use dingtalk_channel_sdk_go.Prelude.{
  if◌then◌else◌, Text, bytes, is_empty, string_of, ◌≡◌, ◌↔◌, Option, none, some, List, [], ◌∷◌,
  ◌++◌, map,
}
use dingtalk_channel_sdk_go.Reply.Webhook.{
  MsgParam, params, opaque, OutboundConfig, value_at, Sending, by_webhook, proactively, Sent,
}

-- the parameters of the calls that succeeded, over either way
unfoldable pub received : List Sending → List MsgParam
received [] = []
received (by_webhook key p none ∷ log) = p ∷ received log
received (by_webhook key p (some e) ∷ log) = received log
received (proactively key p none ∷ log) = p ∷ received log
received (proactively key p (some e) ∷ log) = received log

-- The calls that succeeded were given these parts in their order, none of them twice, and all of them
-- exactly if there is no error.
abbrev pub Reaches : List MsgParam → Sent → Type 0
Reaches ps s = (rest : List MsgParam) × (received s.1 ++ rest ≡ ps) × ((s.0 ≡ none) ↔ (rest ≡ []))

-- the content of a text message
abbrev pub content_of : MsgParam → Text
content_of (params m) = value_at (bytes "content") m
content_of (opaque v) = []

-- the text under which the footer stands, and a configuration whose hook changes nothing
abbrev pub with_footer : Option OutboundConfig → Text → Text
with_footer none c = c
with_footer (some out) c = if is_empty out.footer then c else c ++ (bytes "\n\n" ++ out.footer)

abbrev pub Untouched : Option OutboundConfig → Type 0
Untouched none = Unit
Untouched (some out) = (kind target : Text) (p : MsgParam) → out.before_send kind target p ≡ none

-- The calls that succeeded were given parts of this text, as far as `Reaches` says.
abbrev pub GivesText : Text → Sent → Type 0
GivesText c s = (ps : List MsgParam) × (string_of (map content_of ps) ≡ c) × Reaches ps s
