-- ===== src/Queue/Rq.antt =====
-- What the worker and the facade hand to `frappe.enqueue`, and what comes back. Frappe and RQ are
-- not part of the repository, so the reply is a parameter of the model.
use ecommerce_super.Base.{ℕ, String, Option, ℤ}
use ecommerce_super.Errors.{EasyError}

-- `job_name=`: the row's name, alone, with an attempt number, or with the time of a retry.
pub data JobName : Type 0 where
  plain : String → JobName
  attempt : String → ℕ → JobName
  retry : String → ℕ → JobName

pub record RqCall : Type 0 where
  pub queue : String
  pub job_name : JobName
  pub timeout : ℕ
  pub enqueue_after : Option ℤ
  pub easyecom_queue_job : String

pub data EnqueueReply : Type 0 where
  accepted : Option String → EnqueueReply
  refused : String → String → EnqueueReply

-- Any exception: one of the integration's, or a foreign one with its type's name and text.
pub data Exc : Type 0 where
  ecs : EasyError → Exc
  foreign : String → String → Exc
