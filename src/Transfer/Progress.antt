-- ===== src/Transfer/Progress.antt =====
-- include/beamdrop/transfer/Progress.hpp
pub mod Order
use beam_drop.Prelude.{ℕ, Bytes}

pub data Stage : Type 0 where
  task_started transferring file_completed task_completed : Stage

pub data ProgressDirection : Type 0 where
  send receive : ProgressDirection

pub record ProgressEvent : Type 0 where
  pub direction : ProgressDirection
  pub relative_path : Bytes
  pub current_file_bytes : ℕ
  pub current_file_total_bytes : ℕ
  pub file_index : ℕ
  pub file_count : ℕ
  pub stage : Stage
