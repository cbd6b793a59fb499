-- ===== src/Controller/Results.antt =====
-- `ctrl.Result`: after how many seconds the request is to be made again, 0 for never.
use kt_cloud_operator.Common.{ℕ}

pub record CtrlResult : Type 0 where
  pub requeue_after : ℕ

abbrev pub done : CtrlResult
done = record { requeue_after = 0 }

abbrev pub requeue : ℕ → CtrlResult
requeue seconds = record { requeue_after = seconds }
