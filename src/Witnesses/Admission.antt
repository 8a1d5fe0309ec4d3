-- ===== src/Witnesses/Admission.antt =====
-- internal/safety/policy_gate.go and processing_lock.go at concrete inputs.
use dingtalk_channel_sdk_go.Prelude.{
  any, Text, ◌==◌, listed, ◌≡◌, refl, ◌↔◌, ◌⊎◌, true, false, none, some, [], ◌∷◌, arith,
}
use dingtalk_channel_sdk_go.Types.{
  RejectReason, PolicyConfig, group_blocked, conversation_type_group,
}
use dingtalk_channel_sdk_go.Safety.Policy.{PolicyGate, evaluate, is_on_list}
use dingtalk_channel_sdk_go.Safety.Policy.Admission.{Admits, evaluate-Admits}
use dingtalk_channel_sdk_go.Safety.Policy.Reasons.{breaks, evaluate_reasons}
use dingtalk_channel_sdk_go.Safety.Lock.{ProcessingLock, sweep}
use dingtalk_channel_sdk_go.Safety.Lock.Exclusion.{held, held-sweep}
use dingtalk_channel_sdk_go.Witnesses.Samples.{message}

-- one group is blocked, one sender denied
abbrev policy : PolicyConfig
policy = record {
  group_allowlist = [];
  group_blocklist = (103 ∷ []) ∷ [];
  require_mention = none;
  respond_to_mention_all = none;
  dm_mode = [];
  dm_allowlist = [];
  dm_blocklist = [];
  group_overrides = [];
  allow_from = [];
  deny_from = (120 ∷ []) ∷ [];
  admins = [];
}

abbrev gate : PolicyGate
gate = record { cfg = policy; bot = none }

evaluate-Admits_example : ((evaluate gate message).allowed ≡ true) ↔ Admits policy message
evaluate-Admits_example = evaluate-Admits gate message

evaluate_reasons_example :
    (Admits gate.cfg message × ((evaluate gate message).reason ≡ none))
    ⊎ ((¬ Admits gate.cfg message)
        × ((r : RejectReason) × ((evaluate gate message).reason ≡ some r)
            × (breaks gate.cfg message r ≡ true)))
evaluate_reasons_example = evaluate_reasons gate message

-- the blocklist of groups is what this message meets
blocked_example : (evaluate gate message).reason ≡ some group_blocked
unfolding evaluate ◌==◌ conversation_type_group listed any is_on_list
blocked_example = refl

abbrev fresh_lock : ProcessingLock
fresh_lock = record { locks = []; ttl_ms = 300; stopped = false }

abbrev id : Text
id = 109 ∷ []

held-sweep_example : held (sweep fresh_lock 3) 5 id ≡ held fresh_lock 5 id
held-sweep_example = held-sweep fresh_lock 3 5 id (omega arith)
