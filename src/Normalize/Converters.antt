-- ===== src/Normalize/Converters.antt =====
-- internal/normalize, converters_*.go: the text, the resources and the mentions of a message, by type.
use dingtalk_channel_sdk_go.Prelude.{
  if◌then◌else◌, Text, bytes, ◌==◌, is_empty, trim_space, false, Option, none, some, List, [], ◌∷◌,
  ◌++◌,
}
use dingtalk_channel_sdk_go.Types.{Resource, Mention}
use dingtalk_channel_sdk_go.Normalize.Json.{
  other_json, string_json, array_json, object_json, Items, no_items, item, Fields, to_string,
  string_at, text_at, items_at, object_at,
}

unfoldable pub convert_text : Fields → Text
unfolding trim_space
convert_text m = trim_space (text_at (bytes "content") m)

unfoldable pub convert_markdown : Fields → Text
convert_markdown m = text_at (bytes "text") m

-- a mention by id, and one by telephone number
unfoldable pub mention_by : Text → Text → Mention
mention_by id name = record { key = []; user_id = id; name = name; is_bot = false; is_all = false }

unfoldable pub mentions_by_id : Items → List Mention
unfolding mention_by to_string
mentions_by_id no_items = []
mentions_by_id (item v vs) = mention_by (to_string v) [] ∷ mentions_by_id vs

unfoldable pub mentions_by_mobile : Items → List Mention
unfolding mention_by to_string
mentions_by_mobile no_items = []
mentions_by_mobile (item v vs) = mention_by (to_string v) (to_string v) ∷ mentions_by_mobile vs

-- the items of an array that may be missing
abbrev items_or_none : Option Items → Items
items_or_none none = no_items
items_or_none (some vs) = vs

-- one element of a rich text
unfoldable pub rich_element : Fields → Text × List Mention
unfolding mentions_by_id mentions_by_mobile bytes
rich_element m =
    let kind = text_at (bytes "type") m in
    if kind == bytes "text"
    then (text_at (bytes "text") m, [])
    else (if kind == bytes "at"
        then (
          [],
          mentions_by_id (items_or_none (items_at (bytes "atUserIds") m))
              ++ mentions_by_mobile (items_or_none (items_at (bytes "atMobiles") m)),
        )
        else ([], []))

-- `parseRichText`: the elements in their order; those that are no objects are left out
unfoldable pub parse_elements : Items → Text × List Mention
unfolding rich_element
parse_elements no_items = ([], [])
parse_elements (item (object_json m) vs) =
    let (text, mentions) = rich_element m in
    let (more, others) = parse_elements vs in (text ++ more, mentions ++ others)
parse_elements (item other_json vs) = parse_elements vs
parse_elements (item (string_json _) vs) = parse_elements vs
parse_elements (item (array_json _) vs) = parse_elements vs

unfoldable pub convert_rich_text : Fields → Text × List Mention
unfolding parse_elements
convert_rich_text m = parse_elements (items_or_none (items_at (bytes "richText") m))

-- a resource, where there is a download code
unfoldable pub resource_of : Text → Text → Text → Text → List Resource
resource_of kind code name recognition =
    if is_empty code
    then []
    else record { kind = kind; download_code = code; file_name = name; recognition = recognition }
      ∷ []

unfoldable pub convert_picture : Fields → Text × List Resource
unfolding resource_of
convert_picture m =
    (bytes "[图片]", resource_of (bytes "image") (text_at (bytes "downloadCode") m) [] [])

unfoldable pub convert_file : Fields → Text × List Resource
unfolding resource_of
convert_file m =
    let name = text_at (bytes "fileName") m in
    (
      bytes "[文件: " ++ ((if is_empty name then bytes "文件" else name) ++ bytes "]"),
      resource_of (bytes "file") (text_at (bytes "downloadCode") m) name [],
    )

unfoldable pub convert_audio : Fields → Text × List Resource
unfolding resource_of
convert_audio m =
    let recognition = text_at (bytes "recognition") m in
    (
      if is_empty recognition then bytes "[语音消息]" else recognition,
      resource_of (bytes "audio") (text_at (bytes "downloadCode") m) (text_at (bytes "fileName") m)
          recognition,
    )

unfoldable pub convert_video : Fields → Text × List Resource
unfolding resource_of
convert_video m = (
  bytes "[视频]",
  resource_of (bytes "video") (text_at (bytes "downloadCode") m) (text_at (bytes "fileName") m) [],
)

-- `strings.Join`
unfoldable pub join : Text → List Text → Text
join sep [] = []
join sep (s ∷ ss) = elim ss [ [] ↦ s | _ ∷ _ ↦ s ++ (sep ++ join sep ss) ]

-- the texts that are not empty
unfoldable pub non_empty : List Text → List Text
non_empty [] = []
non_empty (s ∷ ss) = if is_empty s then non_empty ss else s ∷ non_empty ss

-- the links of an action card
unfoldable pub action_urls : Items → List Text
action_urls no_items = []
action_urls (item (object_json m) vs) =
    non_empty (text_at (bytes "actionUrl") m ∷ []) ++ action_urls vs
action_urls (item other_json vs) = action_urls vs
action_urls (item (string_json _) vs) = action_urls vs
action_urls (item (array_json _) vs) = action_urls vs

unfoldable pub links_text : List Text → Text
unfolding join
links_text [] = []
links_text (url ∷ []) = bytes "操作链接：" ++ url
links_text (url ∷ next ∷ urls) = bytes "操作链接：\n- " ++ join (bytes "\n- ") (url ∷ next ∷ urls)

-- the parts of an action card, put together
unfoldable pub card_text : List Text → Text
unfolding join
card_text [] = bytes "[actionCard消息]"
card_text (part ∷ parts) = join (bytes "\n\n") (part ∷ parts)

unfoldable pub convert_action_card : Fields → Text
unfolding non_empty links_text card_text
convert_action_card m =
    let links = links_text (action_urls (items_or_none (items_at (bytes "actionUrlItemList") m))) in
    card_text (non_empty (text_at (bytes "title") m ∷ text_at (bytes "text") m ∷ links ∷ []))

unfoldable pub convert_interactive_card : Fields → Text
convert_interactive_card m =
    let url = text_at (bytes "biz_custom_action_url") m in
    if is_empty url then bytes "[interactiveCard消息]" else bytes "收到交互式卡片链接：" ++ url

-- what stands for a quoted message of a type, and a quotation
unfoldable pub quoted_kind : Text → Text
quoted_kind kind = bytes "[引用] " ++ (kind ++ bytes "消息")

unfoldable pub quote_text : Option Text → Text → Text
unfolding quoted_kind
quote_text (some t) kind = bytes "[引用] " ++ t
quote_text none kind = quoted_kind kind

-- the content of a quoted message that is an object
unfoldable pub quote_object : Text → Option Fields → Text
unfolding quote_text
quote_object kind none = quoted_kind kind
quote_object kind (some c) =
    if kind == bytes "text" then quote_text (string_at (bytes "text") c) kind else quoted_kind kind

-- the content of a quoted message that is a string, decoded if it is JSON
unfoldable pub quote_string : Text → Text → Option Fields → Text
unfolding quote_text
quote_string kind raw none = bytes "[引用] " ++ raw
quote_string kind raw (some c) =
    if kind == bytes "text"
    then quote_text (string_at (bytes "text") c) kind
    else (if kind == bytes "picture"
        then bytes "[引用] [图片]"
        else (if kind == bytes "file"
            then bytes "[引用] [文件: " ++ (text_at (bytes "fileName") c ++ bytes "]")
            else quoted_kind kind))

-- `extractQuotedText`; `decode` is `json.Unmarshal` into a map
unfoldable pub extract_quoted_text : (Text → Option Fields) → Fields → Text
unfolding quote_object quote_string
extract_quoted_text decode m =
    let kind = text_at (bytes "msgType") m in
    let raw = text_at (bytes "content") m in
    if is_empty raw
    then quote_object kind (object_at (bytes "content") m)
    else quote_string kind raw (decode raw)

unfoldable pub convert_reply : (Text → Option Fields) → Fields → Text
unfolding extract_quoted_text
convert_reply decode m =
    let text = text_at (bytes "text") m in
    elim (object_at (bytes "repliedMsg") m) [
      | none ↦ text
      | some replied ↦
          let quoted = extract_quoted_text decode replied in
          if is_empty quoted
          then text
          else (if is_empty text then quoted else text ++ (10 ∷ quoted))
    ]
