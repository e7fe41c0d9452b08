-- ===== src/AiRuntime.antt =====
-- services/ai/airuntime: the governance of the AI agents' tool calls.
pub mod Redaction
pub mod Approval
pub mod Policy
pub mod Truncation
pub mod ToolCall
pub mod Gateway
pub mod Hooks
