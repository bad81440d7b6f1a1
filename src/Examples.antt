-- ===== src/Examples.antt =====
-- The theorems at concrete inputs.
mod EnrollExamples
mod AgentExamples
mod ServerExamples
mod AuthExamples
mod CacheExamples
mod ApiExamples
mod ControlExamples
mod ConnectExamples
mod ConfigExamples
mod HostExamples
