-- ===== src/Safety/Media/Keys.antt =====
-- The key of a batch names its conversation, whatever bytes but 0 the conversation id has.
use dingtalk_channel_sdk_go.Prelude.{
  eqb, if◌then◌else◌, ne→not-eqb, Bool-cases, All, Text, bytes, ◌==◌, eq_of_==, ==_iff, is_empty,
  ◌≡◌, refl, sym, ap, subst, ◌∙◌, ◌≢◌, ◌↔◌, inl, inr, true, false, not, ◌&&◌, [], ◌∷◌, ◌++◌,
}
use mathlib.Core.List.{append_assoc}
use dingtalk_channel_sdk_go.Prelude.{ne→not-eqb}
use dingtalk_channel_sdk_go.Types.{IncomingMessage}
use dingtalk_channel_sdk_go.Safety.Media.{batch_key, before_sep, is_chat_key, is_media}

-- a text without the separator
abbrev pub IsPlain : Text → Type 0
IsPlain s = All (λ c. c ≢ 0) s

before_sep-append : (s t : Text) → IsPlain s → before_sep (s ++ (0 ∷ t)) ≡ s
unfolding before_sep
before_sep-append [] t h = refl
before_sep-append (c ∷ s) t h = rw (ne→not-eqb c 0 h.0) (ap (◌∷◌ c) (before_sep-append s t h.1))

after_sep : Text → Text
after_sep [] = []
after_sep (c ∷ s) = if eqb c 0 then s else after_sep s

after_sep-append : (s t : Text) → IsPlain s → after_sep (s ++ (0 ∷ t)) ≡ t
unfolding after_sep
after_sep-append [] t h = refl
after_sep-append (c ∷ s) t h = rw (ne→not-eqb c 0 h.0) (after_sep-append s t h.1)

-- what follows the conversation id and the first separator
rest_of : (Text → Text) → IncomingMessage → Text
rest_of digest m =
    if m.msg_type == bytes "reply" && not (is_empty m.content)
    then m.msg_type ++ (0 ∷ digest m.content)
    else m.msg_type

batch_key_lem :
    (digest : Text → Text) (m : IncomingMessage)
    → batch_key digest m ≡ m.conversation_id ++ (0 ∷ rest_of digest m)
unfolding batch_key rest_of
batch_key_lem digest m =
    elim (Bool-cases (m.msg_type == bytes "reply" && not (is_empty m.content))) [
      | inl reply ↦
          unfold bytes in
          rw reply (append_assoc m.conversation_id (0 ∷ m.msg_type) (0 ∷ digest m.content))
      | inr plain ↦ unfold bytes in rw plain refl
    ]

reply_is_no_media : is_media (bytes "reply") ≡ false
unfolding is_media bytes ◌==◌
reply_is_no_media = refl

media_is_no_reply : (t : Text) → is_media t ≡ true → (t == bytes "reply") ≡ false
media_is_no_reply t h = elim (Bool-cases (t == bytes "reply")) [
  | inl reply ↦
      let same = subst (λ u. is_media u ≡ true) (eq_of_== t (bytes "reply") reply) h in
      absurd (cc reply_is_no_media)
  | inr other ↦ other
]

media_rest :
    (digest : Text → Text) (m : IncomingMessage)
    → is_media m.msg_type ≡ true
    → rest_of digest m ≡ m.msg_type
unfolding rest_of
media_rest digest m h = rw (media_is_no_reply m.msg_type h) refl

-- A batch belongs to a conversation exactly if that is the conversation of its messages, also where
-- one id is a prefix of another.
pub is_chat_key-batch_key :
    (digest : Text → Text) (m : IncomingMessage) (chat : Text)
    → IsPlain m.conversation_id
    → (is_chat_key (batch_key digest m) chat ≡ true) ↔ (m.conversation_id ≡ chat)
unfolding is_chat_key
is_chat_key-batch_key digest m chat h =
    let first : before_sep (batch_key digest m) ≡ m.conversation_id =
      ap before_sep (batch_key_lem digest m)
      ∙ before_sep-append m.conversation_id (rest_of digest m) h in
    rw first (==_iff m.conversation_id chat)

-- Two messages of media types have one key only if they are of one conversation and of one type.
pub batch_key-injective :
    (digest : Text → Text) (m n : IncomingMessage)
    → IsPlain m.conversation_id
    → IsPlain n.conversation_id
    → is_media m.msg_type ≡ true
    → is_media n.msg_type ≡ true
    → batch_key digest m ≡ batch_key digest n
    → (m.conversation_id ≡ n.conversation_id) × (m.msg_type ≡ n.msg_type)
batch_key-injective digest m n hm hn mm mn same =
    let keys = sym (batch_key_lem digest m) ∙ (same ∙ batch_key_lem digest n) in
    (
      sym (before_sep-append m.conversation_id (rest_of digest m) hm)
          ∙ (ap before_sep keys ∙ before_sep-append n.conversation_id (rest_of digest n) hn),
      sym (media_rest digest m mm)
          ∙ (sym (after_sep-append m.conversation_id (rest_of digest m) hm)
              ∙ (ap after_sep keys
                  ∙ (after_sep-append n.conversation_id (rest_of digest n) hn
                      ∙ media_rest digest n mn))),
    )
