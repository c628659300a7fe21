-- ===== src/ToolLoop.antt =====
-- src/application/tool_loop.py: the loop in which a model calls tools until it has a reply, with
-- limits on its rounds, its calls and its time. The log lines are left out.
pub mod Effects
pub mod Executions
pub mod Reports
pub mod Rounds
mod Hoare
mod Kept
mod Stages
mod Tracking
pub mod Limits
pub mod Guarded
pub mod Transcript
pub mod Records
pub mod Audit
mod Tests
