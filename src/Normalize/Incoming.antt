-- ===== src/Normalize/Incoming.antt =====
-- internal/normalize/message.go. The decoding of the JSON is a library: its results are arguments.
use dingtalk_channel_sdk_go.Prelude.{
  eqb, if◌then◌else◌, any, Text, bytes, ◌==◌, is_empty, starts_with, trim_space, ℤ, Bool, ◌||◌,
  Option, none, some, List, [], ◌∷◌, ◌++◌,
}
use dingtalk_channel_sdk_go.Types.{
  AtUser, Resource, Mention, IncomingMessage, conversation_type_group, conversation_type_dm,
}
use dingtalk_channel_sdk_go.Normalize.Json.{Fields, text_at}
use dingtalk_channel_sdk_go.Normalize.Converters.{
  convert_text, convert_markdown, convert_rich_text, convert_picture, convert_file, convert_audio,
  convert_video, convert_action_card, convert_interactive_card, convert_reply, mention_by,
}

-- `botCallbackData`. `content_map` is the content decoded into a map, where there is one.
pub record CallbackData : Type 0 where
  pub conversation_id : Text
  pub at_users : List AtUser
  pub msg_id : Text
  pub sender_nick : Text
  pub is_admin : Bool
  pub sender_staff_id : Text
  pub session_webhook_expired_time : ℤ
  pub create_at : ℤ
  pub sender_corp_id : Text
  pub conversation_type : Text
  pub sender_id : Text
  pub conversation_title : Text
  pub is_in_at_list : Bool
  pub session_webhook : Text
  pub text_content : Text
  pub msg_type : Text
  pub content : Text
  pub content_map : Option Fields

-- the results of `parseContent`
pub record Parsed : Type 0 where
  pub text : Text
  pub resources : List Resource
  pub mentions : List Mention

abbrev just : Text → Parsed
just text = record { text = text; resources = []; mentions = [] }

abbrev with_resources : Text × List Resource → Parsed
with_resources (text, resources) = record { text = text; resources = resources; mentions = [] }

abbrev with_mentions : Text × List Mention → Parsed
with_mentions (text, mentions) = record { text = text; resources = []; mentions = mentions }

unfoldable pub parse_fields : (Text → Option Fields) → Text → Fields → Parsed
unfolding bytes
parse_fields decode kind m =
    if kind == bytes "text"
    then just (convert_text m)
    else (if kind == bytes "richText"
        then with_mentions (convert_rich_text m)
        else (if kind == bytes "picture"
            then with_resources (convert_picture m)
            else (if kind == bytes "file"
                then with_resources (convert_file m)
                else (if kind == bytes "audio"
                    then with_resources (convert_audio m)
                    else (if kind == bytes "video"
                        then with_resources (convert_video m)
                        else (if kind == bytes "markdown"
                            then just (convert_markdown m)
                            else (if kind == bytes "actionCard"
                                then just (convert_action_card m)
                                else (if kind == bytes "interactiveCard"
                                    then just (convert_interactive_card m)
                                    else (if kind == bytes "reply"
                                        then just (convert_reply decode m)
                                        else just (text_at (bytes "content") m))))))))))

unfoldable pub parse_content : (Text → Option Fields) → Text → Option Fields → Parsed
unfolding parse_fields
parse_content decode kind none = just []
parse_content decode kind (some m) = parse_fields decode kind m

unfoldable pub normalize_conversation_type : Text → Text
normalize_conversation_type t =
    if t == bytes "1" then conversation_type_dm else conversation_type_group

-- what follows the first space
unfoldable pub after_space : Text → Option Text
after_space [] = none
after_space (c ∷ s) = if eqb c 32 then some s else after_space s

-- the text of a group message without the `@` in front
unfoldable pub strip_mention : Text → Text
unfolding after_space trim_space bytes
strip_mention text = elim (after_space text) [
  | none ↦ text
  | some rest ↦ if starts_with (bytes "@") text then trim_space rest else text
]

unfoldable pub names_all : AtUser → Bool
unfolding bytes
names_all au = au.staff_id == bytes "all" || au.dingtalk_id == bytes "all"

unfoldable pub mentions_of : List AtUser → List Mention
unfolding mention_by
mentions_of [] = []
mentions_of (au ∷ aus) = mention_by au.staff_id au.staff_id ∷ mentions_of aus

-- the text before a mention is taken off
unfoldable pub text_of : CallbackData → Parsed → Text
unfolding trim_space bytes
text_of d p =
    if is_empty d.msg_type || d.msg_type == bytes "text" then trim_space d.text_content else p.text

-- `NormalizeIncoming`, of decoded data
unfoldable pub normalize_incoming : (Text → Option Fields) → Text → CallbackData → IncomingMessage
unfolding parse_content names_all mentions_of any
normalize_incoming decode raw d =
    let kind = normalize_conversation_type d.conversation_type in
    let parsed = parse_content decode d.msg_type d.content_map in
    let text = text_of d parsed in
    record {
      conversation_id = d.conversation_id;
      conversation_type = kind;
      conversation_title = d.conversation_title;
      sender_id = d.sender_id;
      sender_staff_id = d.sender_staff_id;
      sender_nick = d.sender_nick;
      sender_corp_id = d.sender_corp_id;
      text = if kind == conversation_type_group then strip_mention text else text;
      msg_type = d.msg_type;
      content = d.content;
      resources = parsed.resources;
      mentions = parsed.mentions ++ mentions_of d.at_users;
      mention_all = any names_all d.at_users;
      at_users = d.at_users;
      session_webhook = d.session_webhook;
      webhook_expired_at = d.session_webhook_expired_time;
      msg_id = d.msg_id;
      create_at = d.create_at;
      is_admin = d.is_admin;
      is_in_at_list = d.is_in_at_list;
      raw = raw;
    }
