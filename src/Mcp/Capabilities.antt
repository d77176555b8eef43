-- ===== src/Mcp/Capabilities.antt =====
-- crates/gobrowse-core/src/mcp/capabilities.rs: what a server has negotiated, and the methods and
-- notifications that this allows. The experimental value is JSON of serde_json: a parameter.
use gobrowseos.Prelude.{Bool, true, false, Option, none, some, if◌then◌else◌, Result, ok, err}

pub record ToolsCapability : Type 0 where
  pub list_changed : Option Bool

pub record ResourcesCapability : Type 0 where
  pub subscribe : Option Bool
  pub list_changed : Option Bool

pub record PromptsCapability : Type 0 where
  pub list_changed : Option Bool

pub record LoggingCapability : Type 0 where

pub record ServerCapabilities (Json : Type 0) : Type 0 where
  pub tools : Option ToolsCapability
  pub resources : Option ResourcesCapability
  pub prompts : Option PromptsCapability
  pub logging : Option LoggingCapability
  pub experimental : Option Json

pub data CapabilityError : Type 0 where
  unsupported : CapabilityError

pub data CapabilityMethod : Type 0 where
  tools_list tools_call resources_list resources_read resources_subscribe : CapabilityMethod
  resources_unsubscribe prompts_list prompts_get ping : CapabilityMethod

pub data CapabilityNotification : Type 0 where
  tools_list_changed resources_list_changed resource_updated progress : CapabilityNotification
  logging_message : CapabilityNotification

abbrev pub is_some {ℓ} : {A : Type ℓ} → Option A → Bool
is_some none = false
is_some (some a) = true

abbrev pub and_then {ℓ κ} : {A : Type ℓ} {B : Type κ} → Option A → (A → Option B) → Option B
and_then none f = none
and_then (some a) f = f a

abbrev pub unwrap_or {ℓ} : {A : Type ℓ} → Option A → A → A
unwrap_or none d = d
unwrap_or (some a) d = a

module _ {Json : Type 0} where
  abbrev pub subscribed : ServerCapabilities Json → Bool
  subscribed c = unwrap_or (and_then c.resources (λ r. r.subscribe)) false

  unfoldable pub allowed : CapabilityMethod → ServerCapabilities Json → Bool
  allowed tools_list c = is_some c.tools
  allowed tools_call c = is_some c.tools
  allowed resources_list c = is_some c.resources
  allowed resources_read c = is_some c.resources
  allowed resources_subscribe c = subscribed c
  allowed resources_unsubscribe c = subscribed c
  allowed prompts_list c = is_some c.prompts
  allowed prompts_get c = is_some c.prompts
  allowed ping c = true

  unfoldable pub require :
      CapabilityMethod → ServerCapabilities Json → Result (Unit {0}) CapabilityError
  unfolding allowed
  require m c = if allowed m c then ok tt else err unsupported

  unfoldable pub notification_allowed : CapabilityNotification → ServerCapabilities Json → Bool
  notification_allowed tools_list_changed c =
      unwrap_or (and_then c.tools (λ t. t.list_changed)) false
  notification_allowed resources_list_changed c =
      unwrap_or (and_then c.resources (λ r. r.list_changed)) false
  notification_allowed resource_updated c = subscribed c
  notification_allowed progress c = false
  notification_allowed logging_message c = is_some c.logging
