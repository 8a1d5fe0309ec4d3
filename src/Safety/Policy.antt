-- ===== src/Safety/Policy.antt =====
-- internal/safety/policy_gate.go: the admission rules, in the order in which the code tests them.
-- A loop that returns at the first equal entry is the test `listed`.
pub mod Admission
pub mod Reasons
use dingtalk_channel_sdk_go.Prelude.{
  Bool, true, false, not, ◌&&◌, Option, none, some, List, [], ◌∷◌, if◌then◌else◌, is_some, Text,
  bytes, ◌==◌, is_empty, lookup, listed,
}
use dingtalk_channel_sdk_go.Types.{
  PolicyConfig, PolicyDecision, GroupOverride, IncomingMessage, BotIdentity, RejectReason,
  group_not_allowed, group_blocked, group_disabled, no_mention, mention_all_blocked, dm_disabled,
  dm_not_allowed, dm_blocked, sender_not_allowed, sender_blocked, sender_denied,
  conversation_type_group,
}

pub record PolicyGate : Type 0 where
  pub cfg : PolicyConfig
  pub bot : Option BotIdentity

unfoldable pub new_policy_gate : PolicyConfig → PolicyGate
new_policy_gate cfg = record { cfg = cfg; bot = none }

abbrev pub allow : PolicyDecision
allow = record { allowed = true; reason = none }

abbrev pub reject : RejectReason → PolicyDecision
reject r = record { allowed = false; reason = some r }

-- `isAdmin`, `isDenied` and `isInAllowFrom`: an empty staff id is on no list
unfoldable pub is_on_list : List Text → Text → Bool
is_on_list ids staff_id = if is_empty staff_id then false else listed staff_id ids

unfoldable pub is_admin : PolicyConfig → Text → Bool
unfolding is_on_list
is_admin cfg staff_id = is_on_list cfg.admins staff_id

unfoldable pub is_denied : PolicyConfig → Text → Bool
unfolding is_on_list
is_denied cfg staff_id = is_on_list cfg.deny_from staff_id

unfoldable pub is_in_allow_from : PolicyConfig → Text → Bool
unfolding is_on_list
is_in_allow_from cfg staff_id = is_on_list cfg.allow_from staff_id

abbrev pub is_nil {ℓ} : {A : Type ℓ} → List A → Bool
is_nil [] = true
is_nil (_ ∷ _) = false

-- `hasOverride && ov.Enabled != nil && !*ov.Enabled`
unfoldable pub is_disabled : Option GroupOverride → Bool
is_disabled none = false
is_disabled (some ov) = elim ov.enabled [ some false ↦ true | _ ↦ false ]

-- the setting of the group, or that of the configuration, or the default
unfoldable pub setting : Option Bool → Option Bool → Bool → Bool
setting (some b) global default = b
setting none (some b) default = b
setting none none default = default

unfoldable pub requires_mention : PolicyConfig → Option GroupOverride → Bool
unfolding setting
requires_mention cfg none = setting none cfg.require_mention true
requires_mention cfg (some ov) = setting ov.require_mention cfg.require_mention true

unfoldable pub responds_to_all : PolicyConfig → Option GroupOverride → Bool
unfolding setting
responds_to_all cfg none = setting none cfg.respond_to_mention_all false
responds_to_all cfg (some ov) = setting ov.respond_to_mention_all cfg.respond_to_mention_all false

unfoldable pub blocks_sender : Option GroupOverride → Text → Bool
blocks_sender none sender = false
blocks_sender (some ov) sender = listed sender ov.block_from

-- the group has senders of its own, and this is none of them
unfoldable pub omits_sender : Option GroupOverride → Text → Bool
omits_sender none sender = false
omits_sender (some ov) sender = not (is_nil ov.allow_from) && not (listed sender ov.allow_from)

unfoldable pub evaluate_override :
    PolicyConfig → Option GroupOverride → IncomingMessage → PolicyDecision
unfolding is_disabled requires_mention responds_to_all blocks_sender omits_sender
evaluate_override cfg ov msg =
    if is_disabled ov
    then reject group_disabled
    else (if requires_mention cfg ov && not msg.is_in_at_list
        then reject no_mention
        else (if blocks_sender ov msg.sender_id
            then reject sender_blocked
            else (if omits_sender ov msg.sender_id
                then reject sender_not_allowed
                else (if msg.mention_all && not (responds_to_all cfg ov)
                    then reject mention_all_blocked
                    else allow))))

unfoldable pub evaluate_group : PolicyConfig → IncomingMessage → PolicyDecision
unfolding evaluate_override
evaluate_group cfg msg =
    let group = msg.conversation_id in
    let ov = lookup group cfg.group_overrides in
    if listed group cfg.group_blocklist
    then reject group_blocked
    else (if not (is_nil cfg.group_allowlist)
          && (not (listed group cfg.group_allowlist) && not (is_some ov))
        then reject group_not_allowed
        else evaluate_override cfg ov msg)

-- The mode "" is "open"; any mode that is none of the three below lets every message in.
unfoldable pub evaluate_dm : PolicyConfig → IncomingMessage → PolicyDecision
unfolding bytes
evaluate_dm cfg msg =
    let mode = if is_empty cfg.dm_mode then bytes "open" else cfg.dm_mode in
    if mode == bytes "disabled"
    then reject dm_disabled
    else (if mode == bytes "allowlist"
        then (if listed msg.sender_id cfg.dm_allowlist then allow else reject dm_not_allowed)
        else (if mode == bytes "blocklist"
            then (if listed msg.sender_id cfg.dm_blocklist then reject dm_blocked else allow)
            else allow))

unfoldable pub evaluate : PolicyGate → IncomingMessage → PolicyDecision
unfolding is_admin is_denied is_in_allow_from evaluate_group evaluate_dm
evaluate pg msg =
    let cfg = pg.cfg in
    let staff = msg.sender_staff_id in
    if is_admin cfg staff
    then allow
    else (if is_denied cfg staff
        then reject sender_denied
        else (if not (is_nil cfg.allow_from) && not (is_in_allow_from cfg staff)
            then reject sender_not_allowed
            else (if msg.conversation_type == conversation_type_group
                then evaluate_group cfg msg
                else evaluate_dm cfg msg)))

unfoldable pub update_config : PolicyGate → PolicyConfig → PolicyGate
update_config pg cfg = record pg { cfg = cfg }

unfoldable pub set_bot_identity : PolicyGate → Option BotIdentity → PolicyGate
set_bot_identity pg bot = record pg { bot = bot }
