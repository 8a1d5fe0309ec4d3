-- ===== src/Safety/Manager/Scopes.antt =====
-- The manager runs a queue of its own for each scope, as if there were no other.
use dingtalk_channel_sdk_go.Prelude.{
  if◌then◌else◌, Bool-cases, Option-cases, Text, ◌==◌, ==_refl, eq_of_==, lookup, insert,
  lookup-insert, ◌≡◌, refl, sym, ap, subst, ◌∙◌, inl, inr, Bool, true, false, Option, none, some,
  List, [], ◌∷◌,
}
use dingtalk_channel_sdk_go.Types.{IncomingMessage, BatchConfig, MediaBatchConfig}
use dingtalk_channel_sdk_go.Safety.Queue
use dingtalk_channel_sdk_go.Safety.Queue.{ChatQueue, new_chat_queue}
use dingtalk_channel_sdk_go.Safety.Manager.{
  ChatQueueManager, get_or_create, put_back, push, start_run,
}

-- A call of the manager, with its scope.
pub data Call (H J : Type 0) : Type 0 where
  pushes : Text → IncomingMessage → Option H → Call H J
  runs_task : Text → J → Call H J

module _ {H J : Type 0} where
  unfoldable pub step : ChatQueueManager H J → Call H J → Option (ChatQueueManager H J)
  step cqm (pushes scope msg handler) = push cqm scope msg handler
  step cqm (runs_task scope task) = start_run cqm scope task

  unfoldable pub run : ChatQueueManager H J → List (Call H J) → Option (ChatQueueManager H J)
  run cqm [] = some cqm
  run cqm (c ∷ cs) = elim (step cqm c) [ none ↦ none | some cqm' ↦ run cqm' cs ]

  unfoldable pub scope_of : Call H J → Text
  scope_of (pushes scope msg handler) = scope
  scope_of (runs_task scope task) = scope

  unfoldable pub calls_of : Text → List (Call H J) → List (Call H J)
  unfolding scope_of
  calls_of scope [] = []
  calls_of scope (c ∷ cs) =
      let rest = calls_of scope cs in if scope_of c == scope then c ∷ rest else rest

  -- One scope alone: its queue, if there is one yet, and its calls. The first call makes the queue, and
  -- every later one acts on the queue that the calls before it have left.
  module _ (batch_cfg : BatchConfig) (media : Option MediaBatchConfig) (scope : Text) where
    abbrev pub opened : Bool → Option (ChatQueue H J) → ChatQueue H J
    opened serial_only none = new_chat_queue scope batch_cfg media serial_only
    opened serial_only (some q) = q

    unfoldable pub own_step : Option (ChatQueue H J) → Call H J → Option (ChatQueue H J)
    own_step o (pushes _ msg handler) = Queue.push (opened false o) msg handler
    own_step o (runs_task _ task) = Queue.start_run (opened true o) task

    unfoldable pub own_run :
        Option (ChatQueue H J) → List (Call H J) → Option (Option (ChatQueue H J))
    own_run o [] = some o
    own_run o (c ∷ cs) = elim (own_step o c) [ none ↦ none | some q ↦ own_run (some q) cs ]

  -- the calls of a scope, run on its queue in the manager
  abbrev pub alone : ChatQueueManager H J → Text → List (Call H J) → Option (Option (ChatQueue H J))
  alone cqm scope cs =
      own_run cqm.batch_cfg cqm.media_batch scope (lookup scope cqm.queues) (calls_of scope cs)

  -- Where no call panics, each scope has the queue that it would have alone; a call panics only if it
  -- panics in its scope alone.
  abbrev pub Separates :
      ChatQueueManager H J → List (Call H J) → Option (ChatQueueManager H J) → Type 0
  Separates cqm cs none = (scope : Text) × (alone cqm scope cs ≡ none)
  Separates cqm cs (some cqm') =
      (scope : Text) → alone cqm scope cs ≡ some (lookup scope cqm'.queues)

  get_or_create-opened :
      (cqm : ChatQueueManager H J) (scope : Text) (serial_only : Bool)
      → get_or_create cqm scope serial_only
        ≡ opened cqm.batch_cfg cqm.media_batch scope serial_only (lookup scope cqm.queues)
  unfolding get_or_create
  get_or_create-opened cqm scope serial_only = go (lookup scope cqm.queues)
    where
      go :
          (o : Option (ChatQueue H J))
          → (elim o [
            | some q ↦ q
            | none ↦ new_chat_queue scope cqm.batch_cfg cqm.media_batch serial_only
          ])
            ≡ opened cqm.batch_cfg cqm.media_batch scope serial_only o
      go none = refl
      go (some q) = refl

  abbrev acted : ChatQueueManager H J → Call H J → Option (ChatQueue H J)
  acted cqm c =
      own_step cqm.batch_cfg cqm.media_batch (scope_of c) (lookup (scope_of c) cqm.queues) c

  step-put_back :
      (cqm : ChatQueueManager H J) (c : Call H J)
      → step cqm c ≡ put_back cqm (scope_of c) (acted cqm c)
  unfolding step own_step push start_run scope_of
  step-put_back cqm (pushes scope msg handler) =
      ap (λ q. put_back cqm scope (Queue.push q msg handler)) (get_or_create-opened cqm scope false)
  step-put_back cqm (runs_task scope task) =
      ap (λ q. put_back cqm scope (Queue.start_run q task)) (get_or_create-opened cqm scope true)

  run-step :
      (cqm : ChatQueueManager H J) (c : Call H J) (cs : List (Call H J))
      {o : Option (ChatQueueManager H J)}
      → step cqm c ≡ o
      → run cqm (c ∷ cs) ≡ elim o [ none ↦ none | some cqm' ↦ run cqm' cs ]
  unfolding run
  run-step cqm c cs e = rw (e, run) refl

  -- the manager after a call that left this queue
  abbrev with_queue : ChatQueueManager H J → Text → ChatQueue H J → ChatQueueManager H J
  with_queue cqm scope q = record cqm { queues = insert scope q cqm.queues }

  run-acted :
      (cqm : ChatQueueManager H J) (c : Call H J) (cs : List (Call H J))
      (o : Option (ChatQueue H J))
      → acted cqm c ≡ o
      → run cqm (c ∷ cs) ≡ elim o [ none ↦ none | some q ↦ run (with_queue cqm (scope_of c) q) cs ]
  unfolding put_back
  run-acted cqm c cs none e =
      run-step cqm c cs (step-put_back cqm c ∙ ap (put_back cqm (scope_of c)) e)
  run-acted cqm c cs (some q) e =
      run-step cqm c cs (step-put_back cqm c ∙ ap (put_back cqm (scope_of c)) e)

  calls_of-own :
      (c : Call H J) (cs : List (Call H J))
      → calls_of (scope_of c) (c ∷ cs) ≡ c ∷ calls_of (scope_of c) cs
  unfolding calls_of
  calls_of-own c cs = rw (==_refl (scope_of c)) refl

  calls_of-other :
      (c : Call H J) (cs : List (Call H J)) (scope : Text)
      → (scope_of c == scope) ≡ false
      → calls_of scope (c ∷ cs) ≡ calls_of scope cs
  unfolding calls_of
  calls_of-other c cs scope other = rw other refl

  own_run-step :
      (cqm : ChatQueueManager H J) (scope : Text) (had o : Option (ChatQueue H J)) (c : Call H J)
      (cs : List (Call H J))
      → own_step cqm.batch_cfg cqm.media_batch scope had c ≡ o
      → own_run cqm.batch_cfg cqm.media_batch scope had (c ∷ cs)
        ≡ elim o [ none ↦ none | some q ↦ own_run cqm.batch_cfg cqm.media_batch scope (some q) cs ]
  unfolding own_run
  own_run-step cqm scope had o c cs e = rw (e, own_run) refl

  alone-own :
      (cqm : ChatQueueManager H J) (c : Call H J) (cs : List (Call H J))
      (o : Option (ChatQueue H J))
      → acted cqm c ≡ o
      → alone cqm (scope_of c) (c ∷ cs)
        ≡ elim o [ none ↦ none | some q ↦ alone (with_queue cqm (scope_of c) q) (scope_of c) cs ]
  alone-own cqm c cs none e = rw (calls_of-own c cs) (
      own_run-step cqm (scope_of c) (lookup (scope_of c) cqm.queues) none c
        (calls_of (scope_of c) cs) e)
  alone-own cqm c cs (some q) e =
      rw (calls_of-own c cs, lookup-insert (scope_of c) (scope_of c) q cqm.queues)
        (rw (==_refl (scope_of c)) (
          own_run-step cqm (scope_of c) (lookup (scope_of c) cqm.queues) (some q) c
            (calls_of (scope_of c) cs) e))

  alone-some :
      (cqm : ChatQueueManager H J) (c : Call H J) (cs : List (Call H J)) (q : ChatQueue H J)
      (scope : Text)
      → acted cqm c ≡ some q
      → alone cqm scope (c ∷ cs) ≡ alone (with_queue cqm (scope_of c) q) scope cs
  alone-some cqm c cs q scope e = elim (Bool-cases (scope_of c == scope)) [
    | inl same ↦
        subst (λ t. alone cqm t (c ∷ cs) ≡ alone (with_queue cqm (scope_of c) q) t cs)
          (eq_of_== (scope_of c) scope same) (alone-own cqm c cs (some q) e)
    | inr other ↦
        rw (calls_of-other c cs scope other, lookup-insert (scope_of c) scope q cqm.queues)
          (rw other refl)
  ]

  earlier :
      (cqm : ChatQueueManager H J) (c : Call H J) (cs : List (Call H J)) (q : ChatQueue H J)
      (o : Option (ChatQueueManager H J))
      → acted cqm c ≡ some q
      → Separates (with_queue cqm (scope_of c) q) cs o
      → Separates cqm (c ∷ cs) o
  earlier cqm c cs q none e (scope, panics) = (scope, alone-some cqm c cs q scope e ∙ panics)
  earlier cqm c cs q (some cqm') e h = λ scope. alone-some cqm c cs q scope e ∙ h scope

  -- Any pushes and runs on any scopes, in any order: if none panics, every scope has in the end the
  -- queue that its own calls would have made, in their order, of the queue that it had, or of a new one
  -- with its first call; and if one panics, then the calls of some scope alone panic.
  pub run-Separates :
      (cs : List (Call H J)) (cqm : ChatQueueManager H J) → Separates cqm cs (run cqm cs)
  run-Separates [] cqm = unfold run own_run calls_of in λ scope. refl
  run-Separates (c ∷ cs) cqm = elim (Option-cases (acted cqm c)) [
    | inl e ↦
        subst (Separates cqm (c ∷ cs)) (sym (run-acted cqm c cs none e))
          (scope_of c, alone-own cqm c cs none e)
    | inr (q, e) ↦ subst (Separates cqm (c ∷ cs)) (sym (run-acted cqm c cs (some q) e)) (
        earlier cqm c cs q (run (with_queue cqm (scope_of c) q) cs) e
          (run-Separates cs (with_queue cqm (scope_of c) q)))
  ]
