-- ===== src/Lifecycle.antt =====
-- lifecycle.go: the callbacks of a connection. A fire calls those that are registered, in their order.
use dingtalk_channel_sdk_go.Prelude.{List, [], ◌∷◌, ◌++◌}

pub record LifecycleHooks (F : Type 0) : Type 0 where
  pub ready : List F
  pub error : List F
  pub reconnecting : List F
  pub reconnected : List F
  pub disconnected : List F

module _ {F : Type 0} where
  unfoldable pub new_lifecycle_hooks : LifecycleHooks F
  new_lifecycle_hooks = record {
    ready = [];
    error = [];
    reconnecting = [];
    reconnected = [];
    disconnected = [];
  }

  unfoldable pub on_ready : F → LifecycleHooks F → LifecycleHooks F
  on_ready fn h = record h { ready = h.ready ++ (fn ∷ []) }

  unfoldable pub on_error : F → LifecycleHooks F → LifecycleHooks F
  on_error fn h = record h { error = h.error ++ (fn ∷ []) }

  unfoldable pub on_reconnecting : F → LifecycleHooks F → LifecycleHooks F
  on_reconnecting fn h = record h { reconnecting = h.reconnecting ++ (fn ∷ []) }

  unfoldable pub on_reconnected : F → LifecycleHooks F → LifecycleHooks F
  on_reconnected fn h = record h { reconnected = h.reconnected ++ (fn ∷ []) }

  unfoldable pub on_disconnected : F → LifecycleHooks F → LifecycleHooks F
  on_disconnected fn h = record h { disconnected = h.disconnected ++ (fn ∷ []) }

  -- the calls of a fire
  unfoldable pub fire_ready : LifecycleHooks F → List F
  fire_ready h = h.ready

  unfoldable pub fire_error : LifecycleHooks F → List F
  fire_error h = h.error

  unfoldable pub fire_reconnecting : LifecycleHooks F → List F
  fire_reconnecting h = h.reconnecting

  unfoldable pub fire_reconnected : LifecycleHooks F → List F
  fire_reconnected h = h.reconnected

  unfoldable pub fire_disconnected : LifecycleHooks F → List F
  fire_disconnected h = h.disconnected
