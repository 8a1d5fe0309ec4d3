-- ===== src/Safety/Policy/Admission.antt =====
-- The admission rules as a statement about lists of ids, and the code as a decision of it.
use dingtalk_channel_sdk_go.Prelude.{
  ◌≡◌, refl, sym, subst, ◌∙◌, ◌≢◌, ◌↔◌, ◌⊎◌, Bool, true, false, not, ◌&&◌, ◌||◌, Option, none, some,
  List, [], ◌∷◌, arith, if◌then◌else◌, is_some, Text, bytes, ◌==◌, ==_iff, is_empty, lookup, listed,
  Decides, Decides-and, Decides-or, Decides-implies, Decides-not, Decides-iff, Decides-true,
  Decides-false, Decides-listed, Decides-==,
}
use mathlib.Core.List.{Mem}
use dingtalk_channel_sdk_go.Types.{
  PolicyConfig, GroupOverride, IncomingMessage, conversation_type_group,
}
use dingtalk_channel_sdk_go.Safety.Policy.{
  PolicyGate, is_on_list, is_admin, is_denied, is_in_allow_from, is_nil, is_disabled,
  requires_mention, responds_to_all, blocks_sender, omits_sender, evaluate_override, evaluate_group,
  evaluate_dm, evaluate,
}

-- Somebody who has an id, and the id is on the list.
abbrev pub Known : Text → List Text → Type 0
Known id ids = (id ≢ []) × Mem id ids

-- What an override of the group asks of a message; a group without one asks nothing of its own.
abbrev pub Enabled : Option GroupOverride → Type 0
Enabled none = Unit
Enabled (some ov) = ov.enabled ≢ some false

abbrev pub NotBlocked : Option GroupOverride → Text → Type 0
NotBlocked none sender = Unit
NotBlocked (some ov) sender = ¬ Mem sender ov.block_from

abbrev pub NotOmitted : Option GroupOverride → Text → Type 0
NotOmitted none sender = Unit
NotOmitted (some ov) sender = (ov.allow_from ≡ []) ⊎ Mem sender ov.allow_from

-- The blocklist has no exception. A group is let in by an empty allowlist, by its place on it, or by
-- an override of its own.
abbrev pub GroupAdmits : PolicyConfig → IncomingMessage → Type 0
GroupAdmits cfg msg =
    let ov = lookup msg.conversation_id cfg.group_overrides in
    (¬ Mem msg.conversation_id cfg.group_blocklist)
    × (((cfg.group_allowlist ≡ [])
          ⊎ (Mem msg.conversation_id cfg.group_allowlist ⊎ (is_some ov ≡ true)))
        × (Enabled ov
            × (((requires_mention cfg ov ≡ false) ⊎ (msg.is_in_at_list ≡ true))
                × (NotBlocked ov msg.sender_id
                    × (NotOmitted ov msg.sender_id
                        × ((msg.mention_all ≡ false) ⊎ (responds_to_all cfg ov ≡ true)))))))

abbrev pub DmAdmits : PolicyConfig → IncomingMessage → Type 0
DmAdmits cfg msg =
    (cfg.dm_mode ≢ bytes "disabled")
    × ((cfg.dm_mode ≡ bytes "allowlist" → Mem msg.sender_id cfg.dm_allowlist)
        × (cfg.dm_mode ≡ bytes "blocklist" → ¬ Mem msg.sender_id cfg.dm_blocklist))

-- An administrator passes every rule; anybody else passes the sender rules and then the rules of the
-- kind of conversation.
abbrev pub Admits : PolicyConfig → IncomingMessage → Type 0
Admits cfg msg =
    let staff = msg.sender_staff_id in
    Known staff cfg.admins
    ⊎ ((¬ Known staff cfg.deny_from)
        × (((cfg.allow_from ≡ []) ⊎ Known staff cfg.allow_from)
            × ((msg.conversation_type ≡ conversation_type_group → GroupAdmits cfg msg)
                × (¬ (msg.conversation_type ≡ conversation_type_group) → DmAdmits cfg msg))))

Decides-is_on_list : (ids : List Text) (id : Text) → Decides (is_on_list ids id) (Known id ids)
unfolding is_on_list
Decides-is_on_list ids [] = (λ e. absurd (cc), λ e k. k.0 refl)
Decides-is_on_list ids (c ∷ id) = (
  λ e. (λ f. cc, (Decides-listed (c ∷ id) ids).0 e),
  λ e k. (Decides-listed (c ∷ id) ids).1 e k.1,
)

Decides-is_nil {ℓ} : {A : Type ℓ} (xs : List A) → Decides (is_nil xs) (xs ≡ [])
Decides-is_nil [] = (λ e. refl, λ e. absurd (cc))
Decides-is_nil (x ∷ xs) = (λ e. absurd (cc), λ e f. cc)

-- the tests of `evaluate` on its accepting path, joined
sender_passes : PolicyConfig → Text → Bool
sender_passes cfg staff =
    not (is_on_list cfg.deny_from staff)
    && (is_nil cfg.allow_from || is_on_list cfg.allow_from staff)

group_passes : PolicyConfig → IncomingMessage → Option GroupOverride → Bool
group_passes cfg msg ov =
    not (listed msg.conversation_id cfg.group_blocklist)
    && ((is_nil cfg.group_allowlist
          || (listed msg.conversation_id cfg.group_allowlist || is_some ov))
        && (not (is_disabled ov)
            && ((not (requires_mention cfg ov) || msg.is_in_at_list)
                && (not (blocks_sender ov msg.sender_id)
                    && (not (omits_sender ov msg.sender_id)
                        && (not msg.mention_all || responds_to_all cfg ov))))))

dm_passes : PolicyConfig → IncomingMessage → Bool
dm_passes cfg msg =
    not (cfg.dm_mode == bytes "disabled")
    && ((not (cfg.dm_mode == bytes "allowlist") || listed msg.sender_id cfg.dm_allowlist)
        && (not (cfg.dm_mode == bytes "blocklist") || not (listed msg.sender_id cfg.dm_blocklist)))

group_passes-evaluate_group :
    (cfg : PolicyConfig) (msg : IncomingMessage)
    → (evaluate_group cfg msg).allowed
      ≡ group_passes cfg msg (lookup msg.conversation_id cfg.group_overrides)
unfolding evaluate_group evaluate_override group_passes
group_passes-evaluate_group cfg msg = ground arith

-- a mode, with the default for an empty one, against a text that is neither
mode_default :
    (mode other : Text)
    → (bytes "open" == other) ≡ false
    → ([] == other) ≡ false
    → ((if is_empty mode then bytes "open" else mode) == other) ≡ (mode == other)
mode_default [] other h k = h ∙ sym k
mode_default (c ∷ mode) other h k = refl

dm_passes-evaluate_dm :
    (cfg : PolicyConfig) (msg : IncomingMessage) → (evaluate_dm cfg msg).allowed ≡ dm_passes cfg msg
unfolding evaluate_dm dm_passes bytes ◌==◌
dm_passes-evaluate_dm cfg msg =
    rw
      (
        mode_default cfg.dm_mode (bytes "disabled") refl refl,
        mode_default cfg.dm_mode (bytes "allowlist") refl refl,
        mode_default cfg.dm_mode (bytes "blocklist") refl refl,
      )
      (ground (arith, ==_iff cfg.dm_mode (bytes "disabled")))

Decides-omits_sender :
    (ov : Option GroupOverride) (sender : Text)
    → Decides (not (omits_sender ov sender)) (NotOmitted ov sender)
unfolding omits_sender
Decides-omits_sender none sender = (λ e. tt, λ e f. cc)
Decides-omits_sender (some ov) sender =
    subst (λ b. Decides b (NotOmitted (some ov) sender)) (ground arith)
      (Decides-or (Decides-is_nil ov.allow_from) (Decides-listed sender ov.allow_from))

Decides-blocks_sender :
    (ov : Option GroupOverride) (sender : Text)
    → Decides (not (blocks_sender ov sender)) (NotBlocked ov sender)
unfolding blocks_sender
Decides-blocks_sender none sender = (λ e. tt, λ e f. cc)
Decides-blocks_sender (some ov) sender = Decides-not (Decides-listed sender ov.block_from)

Decides-is_disabled : (ov : Option GroupOverride) → Decides (not (is_disabled ov)) (Enabled ov)
unfolding is_disabled
Decides-is_disabled none = (λ e. tt, λ e f. cc)
Decides-is_disabled (some ov) = (λ e f. ground arith, λ e f. f (ground arith))

Decides-group_passes :
    (cfg : PolicyConfig) (msg : IncomingMessage)
    → Decides
        (group_passes cfg msg (lookup msg.conversation_id cfg.group_overrides))
        (GroupAdmits cfg msg)
unfolding group_passes
Decides-group_passes cfg msg =
    let ov = lookup msg.conversation_id cfg.group_overrides in
    Decides-and (Decides-not (Decides-listed msg.conversation_id cfg.group_blocklist)) (
      Decides-and
        (Decides-or (Decides-is_nil cfg.group_allowlist) (
          Decides-or (Decides-listed msg.conversation_id cfg.group_allowlist)
            (Decides-true (is_some ov))))
        (Decides-and (Decides-is_disabled ov) (
          Decides-and
            (Decides-or (Decides-false (requires_mention cfg ov)) (Decides-true msg.is_in_at_list))
            (Decides-and (Decides-blocks_sender ov msg.sender_id) (
              Decides-and (Decides-omits_sender ov msg.sender_id) (
                Decides-or (Decides-false msg.mention_all)
                  (Decides-true (responds_to_all cfg ov))))))))

Decides-dm_passes :
    (cfg : PolicyConfig) (msg : IncomingMessage) → Decides (dm_passes cfg msg) (DmAdmits cfg msg)
unfolding dm_passes
Decides-dm_passes cfg msg = Decides-and (Decides-not (Decides-== cfg.dm_mode (bytes "disabled"))) (
    Decides-and
      (Decides-implies (Decides-== cfg.dm_mode (bytes "allowlist"))
        (Decides-listed msg.sender_id cfg.dm_allowlist))
      (Decides-implies (Decides-== cfg.dm_mode (bytes "blocklist"))
        (Decides-not (Decides-listed msg.sender_id cfg.dm_blocklist))))

-- the decision by the kind of the conversation
passes : PolicyConfig → IncomingMessage → Bool
passes cfg msg =
    is_on_list cfg.admins msg.sender_staff_id
    || (not (is_on_list cfg.deny_from msg.sender_staff_id)
        && ((is_nil cfg.allow_from || is_on_list cfg.allow_from msg.sender_staff_id)
            && ((not (msg.conversation_type == conversation_type_group)
                  || group_passes cfg msg (lookup msg.conversation_id cfg.group_overrides))
                && (not (not (msg.conversation_type == conversation_type_group))
                    || dm_passes cfg msg))))

passes-evaluate :
    (pg : PolicyGate) (msg : IncomingMessage) → (evaluate pg msg).allowed ≡ passes pg.cfg msg
unfolding is_admin is_denied is_in_allow_from passes
passes-evaluate pg msg =
    unfold evaluate in
    ground (arith, group_passes-evaluate_group pg.cfg msg, dm_passes-evaluate_dm pg.cfg msg)

Decides-passes :
    (cfg : PolicyConfig) (msg : IncomingMessage) → Decides (passes cfg msg) (Admits cfg msg)
unfolding passes
Decides-passes cfg msg =
    let staff = msg.sender_staff_id in
    let is_group = Decides-== msg.conversation_type conversation_type_group in
    Decides-or (Decides-is_on_list cfg.admins staff) (
      Decides-and (Decides-not (Decides-is_on_list cfg.deny_from staff)) (
        Decides-and
          (Decides-or (Decides-is_nil cfg.allow_from) (Decides-is_on_list cfg.allow_from staff))
          (Decides-and (Decides-implies is_group (Decides-group_passes cfg msg))
            (Decides-implies (Decides-not is_group) (Decides-dm_passes cfg msg)))))

-- The gate lets a message in exactly if the rules admit it.
pub evaluate-Admits :
    (pg : PolicyGate) (msg : IncomingMessage)
    → ((evaluate pg msg).allowed ≡ true) ↔ Admits pg.cfg msg
evaluate-Admits pg msg = rw passes-evaluate (Decides-iff (Decides-passes pg.cfg msg))
