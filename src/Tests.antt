-- ===== src/Tests.antt =====
-- Examples: the theorems applied to concrete inputs.
mod Fixtures
mod Decision
mod Scoring
mod Execute
mod LeakGuard
mod Engine
mod Background
mod Recovery
mod Spike
mod Evictor
mod Maintenance
mod Reclaim
mod SpikeCycle
mod Texts
mod ZramHelper
mod Stat
mod PsiPatch
mod Plugins
mod Ipc
mod CacheWalk
