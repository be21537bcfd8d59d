-- ===== src/Sync.antt =====
-- The upload queue of completed sales (src/shared/constants/syncQueueStates.ts and
-- src/main/repositories/syncQueue.repository.ts).
pub mod States
pub mod Queue
