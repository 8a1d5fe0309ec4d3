-- ===== src/Safety/Policy/Reasons.antt =====
-- The reasons that the gate gives.
use dingtalk_channel_sdk_go.Prelude.{
  if◌then◌else◌, Bool-cases, Option-cases, is_some, Text, bytes, ◌==◌, is_empty, listed, lookup,
  ◌≡◌, refl, sym, ap, subst, ◌∙◌, ◌⊎◌, inl, inr, Bool, true, false, not, ◌&&◌, ◌||◌, Option, none,
  some, [], ◌∷◌, arith,
}
use dingtalk_channel_sdk_go.Types.{
  RejectReason, group_not_allowed, group_disabled, no_mention, mention_all_blocked, dm_disabled,
  dm_not_allowed, dm_blocked, sender_not_allowed, sender_blocked, PolicyConfig, PolicyDecision,
  IncomingMessage, group_blocked, sender_denied, conversation_type_group,
}
use dingtalk_channel_sdk_go.Safety.Policy.Admission.{Admits, evaluate-Admits}
use dingtalk_channel_sdk_go.Safety.Policy.{
  allow, reject, is_disabled, requires_mention, responds_to_all, blocks_sender, omits_sender,
  evaluate_override, PolicyGate, is_on_list, is_admin, is_denied, is_in_allow_from, is_nil,
  evaluate_group, evaluate_dm, evaluate,
}

-- An accepting decision gives no reason, and a refusal gives one.
abbrev pub IsExplained : PolicyDecision → Type 0
IsExplained d = is_some d.reason ≡ not d.allowed

evaluate_group-IsExplained :
    (cfg : PolicyConfig) (msg : IncomingMessage) → IsExplained (evaluate_group cfg msg)
unfolding evaluate_group
evaluate_group-IsExplained cfg msg = ground arith

evaluate_dm-IsExplained :
    (cfg : PolicyConfig) (msg : IncomingMessage) → IsExplained (evaluate_dm cfg msg)
unfolding evaluate_dm
evaluate_dm-IsExplained cfg msg = ground arith

-- A message is refused with a reason, and let in with none.
pub evaluate-IsExplained : (pg : PolicyGate) (msg : IncomingMessage) → IsExplained (evaluate pg msg)
evaluate-IsExplained pg msg =
    unfold evaluate in
    ground (arith, evaluate_group-IsExplained pg.cfg msg, evaluate_dm-IsExplained pg.cfg msg)

-- The rule of each reason is broken by the message.
abbrev pub breaks : PolicyConfig → IncomingMessage → RejectReason → Bool
breaks cfg msg group_not_allowed =
    not (is_nil cfg.group_allowlist)
    && (not (listed msg.conversation_id cfg.group_allowlist)
        && not (is_some (lookup msg.conversation_id cfg.group_overrides)))
breaks cfg msg group_blocked = listed msg.conversation_id cfg.group_blocklist
breaks cfg msg group_disabled = is_disabled (lookup msg.conversation_id cfg.group_overrides)
breaks cfg msg no_mention =
    requires_mention cfg (lookup msg.conversation_id cfg.group_overrides) && not msg.is_in_at_list
breaks cfg msg mention_all_blocked =
    msg.mention_all && not (responds_to_all cfg (lookup msg.conversation_id cfg.group_overrides))
breaks cfg msg dm_disabled = cfg.dm_mode == bytes "disabled"
breaks cfg msg dm_not_allowed =
    cfg.dm_mode == bytes "allowlist" && not (listed msg.sender_id cfg.dm_allowlist)
breaks cfg msg dm_blocked =
    cfg.dm_mode == bytes "blocklist" && listed msg.sender_id cfg.dm_blocklist
breaks cfg msg sender_not_allowed =
    (not (is_nil cfg.allow_from) && not (is_on_list cfg.allow_from msg.sender_staff_id))
    || omits_sender (lookup msg.conversation_id cfg.group_overrides) msg.sender_id
breaks cfg msg sender_blocked =
    blocks_sender (lookup msg.conversation_id cfg.group_overrides) msg.sender_id
breaks cfg msg sender_denied = is_on_list cfg.deny_from msg.sender_staff_id
breaks cfg msg _ = false

abbrev IsFounded : PolicyConfig → IncomingMessage → Option RejectReason → Type 0
IsFounded cfg msg none = Unit
IsFounded cfg msg (some r) = breaks cfg msg r ≡ true

-- a decision by one test
by_test :
    (cfg : PolicyConfig) (msg : IncomingMessage) (r : RejectReason) (b : Bool) (d : PolicyDecision)
    → (b ≡ true → breaks cfg msg r ≡ true)
    → IsFounded cfg msg d.reason
    → IsFounded cfg msg (if b then reject r else d).reason
by_test cfg msg r true d h rest = h refl
by_test cfg msg r false d h rest = rest

evaluate_override-IsFounded :
    (cfg : PolicyConfig) (msg : IncomingMessage)
    → IsFounded cfg msg
        (evaluate_override cfg (lookup msg.conversation_id cfg.group_overrides) msg).reason
unfolding evaluate_override
evaluate_override-IsFounded cfg msg =
    let ov = lookup msg.conversation_id cfg.group_overrides in
    by_test cfg msg group_disabled (is_disabled ov) _ (λ h. h)
      (by_test cfg msg no_mention (requires_mention cfg ov && not msg.is_in_at_list) _ (λ h. h)
        (by_test cfg msg sender_blocked (blocks_sender ov msg.sender_id) _ (λ h. h)
          (by_test cfg msg sender_not_allowed (omits_sender ov msg.sender_id) _
            (λ h. ground (arith, h))
            (by_test cfg msg mention_all_blocked (msg.mention_all && not (responds_to_all cfg ov))
              allow (λ h. h) tt))))

evaluate_group-IsFounded :
    (cfg : PolicyConfig) (msg : IncomingMessage) → IsFounded cfg msg (evaluate_group cfg msg).reason
unfolding evaluate_group
evaluate_group-IsFounded cfg msg =
    by_test cfg msg group_blocked (listed msg.conversation_id cfg.group_blocklist) _ (λ h. h)
      (by_test cfg msg group_not_allowed _ _ (λ h. h) (evaluate_override-IsFounded cfg msg))

-- a mode that is set is the mode of the configuration
is_mode :
    (mode name : Text)
    → (bytes "open" == name) ≡ false
    → ((if is_empty mode then bytes "open" else mode) == name) ≡ true
    → (mode == name) ≡ true
is_mode [] name other e = let no_way : false ≡ true = sym other ∙ e in absurd (cc)
is_mode (c ∷ mode) name other e = e

evaluate_dm-IsFounded :
    (cfg : PolicyConfig) (msg : IncomingMessage) → IsFounded cfg msg (evaluate_dm cfg msg).reason
unfolding evaluate_dm
evaluate_dm-IsFounded cfg msg =
    let mode = if is_empty cfg.dm_mode then bytes "open" else cfg.dm_mode in
    let allowlist = is_mode cfg.dm_mode (bytes "allowlist") (unfold bytes ◌==◌ in refl) in
    let blocklist = is_mode cfg.dm_mode (bytes "blocklist") (unfold bytes ◌==◌ in refl) in
    by_test cfg msg dm_disabled (mode == bytes "disabled") _
      (is_mode cfg.dm_mode (bytes "disabled") (unfold bytes ◌==◌ in refl))
      (elim (Bool-cases (mode == bytes "allowlist")) [
        | inl allows ↦
            let set = allowlist allows in
            rw allows (elim (Bool-cases (listed msg.sender_id cfg.dm_allowlist)) [
              | inl there ↦ rw there tt
              | inr missing ↦ rw missing (rw (set, missing) refl)
            ])
        | inr other ↦ rw other (elim (Bool-cases (mode == bytes "blocklist")) [
          | inl blocks ↦
              let set = blocklist blocks in
              rw blocks (
                by_test cfg msg dm_blocked (listed msg.sender_id cfg.dm_blocklist) allow
                  (λ h. rw (set, h) refl) tt)
          | inr none_of_them ↦ rw none_of_them tt
        ])
      ])

evaluate-IsFounded :
    (pg : PolicyGate) (msg : IncomingMessage) → IsFounded pg.cfg msg (evaluate pg msg).reason
unfolding evaluate is_admin is_denied is_in_allow_from
evaluate-IsFounded pg msg =
    let cfg = pg.cfg in
    let staff = msg.sender_staff_id in
    elim (Bool-cases (is_on_list cfg.admins staff)) [
      | inl admin ↦ rw admin tt
      | inr other ↦ rw other (
          by_test cfg msg sender_denied (is_on_list cfg.deny_from staff) _ (λ h. h)
            (by_test cfg msg sender_not_allowed
              (not (is_nil cfg.allow_from) && not (is_on_list cfg.allow_from staff)) _
              (λ h. ground (arith, h))
              (elim (Bool-cases (msg.conversation_type == conversation_type_group)) [
                | inl group ↦ rw group (evaluate_group-IsFounded cfg msg)
                | inr single ↦ rw single (evaluate_dm-IsFounded cfg msg)
              ])))
    ]

-- A message that the admission rules admit is given no reason, and one that they do not admit is
-- refused with a reason whose rule it breaks.
pub evaluate_reasons :
    (pg : PolicyGate) (msg : IncomingMessage)
    → (Admits pg.cfg msg × ((evaluate pg msg).reason ≡ none))
      ⊎ ((¬ Admits pg.cfg msg)
          × ((r : RejectReason) × ((evaluate pg msg).reason ≡ some r)
              × (breaks pg.cfg msg r ≡ true)))
evaluate_reasons pg msg =
    let explained = evaluate-IsExplained pg msg in
    let admits = evaluate-Admits pg msg in
    elim (Option-cases (evaluate pg msg).reason) [
      | inl silent ↦
          let said : is_some (evaluate pg msg).reason ≡ false = ap is_some silent in
          let let_in : (evaluate pg msg).allowed ≡ true = ground arith in
          inl (admits.0 let_in, silent)
      | inr (r, e) ↦
          let said : is_some (evaluate pg msg).reason ≡ true = ap is_some e in
          let kept_out : (evaluate pg msg).allowed ≡ false = ground arith in
          inr (
            (λ a. let no_way = sym kept_out ∙ admits.1 a in cc),
            (r, e, subst (IsFounded pg.cfg msg) e (evaluate-IsFounded pg msg)),
          )
    ]
