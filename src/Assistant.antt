-- ===== src/Assistant.antt =====
-- The assistant: what stands between an alert and a model.
pub mod Redact
pub mod Injection
pub mod Views
pub mod Scoring
pub mod Schema
pub mod Prompts
pub mod Answer
pub mod Paste
pub mod Batch
pub mod Audit
pub mod Post
pub mod Llm
