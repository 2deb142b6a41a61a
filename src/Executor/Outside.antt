-- ===== src/Executor/Outside.antt =====
-- What a run of src/misscomputer_subnet/weight_executor.py takes from outside, its configuration and
-- the answers it gets, and what it leaves behind.
use misscomputer_subnet.Prelude.{
  ℕ, Text, codes, text_eq, Bool, true, false, Option, none, some, List, [], ◌∷◌, ◌==◌, Result, ok,
  err, raise_if,
}
use misscomputer_subnet.Chain.{MetagraphSnapshot}
use misscomputer_subnet.Plan.Types.{WeightPlan}
use misscomputer_subnet.Executor.Types.{
  ErrorCode, Fault, failed_with, cancelled, ExecutionVector, AuditReceipt,
}
use misscomputer_subnet.Executor.Vector.{Raises}
use misscomputer_subnet.Executor.Audit.{PersistAnswer, Store}

-- `ExecutorConfig`, as far as the run reads it
pub record Config : Type 0 where
  pub network : Text
  pub netuid : ℕ
  pub validator_hotkey : Text
  pub execute : Bool
  pub confirm_network : Option Text
  pub confirm_netuid : Option ℕ
  pub confirm_plan_digest : Option Text
  pub confirm_execution_digest : Option Text
  pub audit_state_path : Option Text

-- How an awaited call ends: by a value, a `WeightExecutionError`, another `Exception`, or a
-- cancellation.
pub data Reply (A : Type 0) : Type 0 where
  answered : A → Reply A
  raised_code : ErrorCode → Reply A
  raised : Reply A
  interrupted : Reply A

pub record SubmissionResult : Type 0 where
  pub success : Bool
  pub extrinsic_ref : Option Text
  pub error_code : Option Text

-- How `submitter.submit` under its timeout ends; `lost` carries the reference of a
-- `submission_ambiguous` error.
pub data SubmitAnswer : Type 0 where
  returned : SubmissionResult → SubmitAnswer
  timed_out : SubmitAnswer
  lost : Option Text → SubmitAnswer
  interrupted : SubmitAnswer

pub record Answers : Type 0 where
  -- `load_weight_plan`, `none` where it raises
  pub plan_file : Option WeightPlan
  pub acknowledgement : Option Text
  -- whether the two absolute paths agree, `none` where computing them raises
  pub same_path : Option Bool
  -- `chain.open` and `chain.sync`
  pub first_sync : Reply MetagraphSnapshot
  pub first_commit_reveal : Reply Bool
  pub has_submitter : Bool
  -- what opening the audit store raises, if it does
  pub open_fault : Option ErrorCode
  pub start_answer : PersistAnswer
  pub start_time : Text
  pub nonce : Text
  -- the hotkey of the submitter that the factory gives
  pub submitter : Reply Text
  pub submitter_open : Reply (Unit {0})
  pub send_sync : Reply MetagraphSnapshot
  pub send_commit_reveal : Reply Bool
  pub failure_answer : PersistAnswer
  pub failure_time : Text
  pub mark_answer : PersistAnswer
  pub mark_time : Text
  pub submission : SubmitAnswer
  pub finish_answer : PersistAnswer
  pub finish_time : Text

-- `ExecutionSummary`, by mode
pub data Report : Type 0 where
  validated : ExecutionVector → Report
  confirmed : ExecutionVector → Text → Report

-- What a run leaves behind: the store, the vectors that it gave to the submitter, and the fields of
-- `_ExecutionResources`.
pub record World : Type 0 where
  pub store : Store
  pub submitted : List ExecutionVector
  pub receipt : Option AuditReceipt
  pub audit_failed : Bool

abbrev pub Stops : Type 0 → Type 0
Stops A = Result Fault A

abbrev pub lift : {A : Type 0} → Raises A → Stops A
lift (ok a) = ok a
lift (err c) = err (failed_with c)

abbrev pub present : {A : Type 0} → Option A → ErrorCode → Stops A
present none c = err (failed_with c)
present (some a) c = ok a

-- `try: ... except Exception: raise WeightExecutionError(c)`
abbrev pub or_code : {A : Type 0} → Reply A → ErrorCode → Stops A
or_code (answered a) c = ok a
or_code (raised_code _) c = err (failed_with c)
or_code raised c = err (failed_with c)
or_code Reply.interrupted c = err cancelled

-- the same after `except WeightExecutionError: raise`
abbrev pub or_own_code : {A : Type 0} → Reply A → ErrorCode → Stops A
or_own_code (answered a) c = ok a
or_own_code (raised_code own) c = err (failed_with own)
or_own_code raised c = err (failed_with c)
or_own_code Reply.interrupted c = err cancelled

abbrev pub stop_if : Bool → ErrorCode → Stops (Unit {0})
stop_if test c = raise_if test (failed_with c)

abbrev pub is_text : Option Text → Text → Bool
is_text none t = false
is_text (some s) t = text_eq s t

abbrev pub is_number : Option ℕ → ℕ → Bool
is_number none n = false
is_number (some m) n = m == n

abbrev pub is_path : Option Text → Bool
is_path none = false
is_path (some []) = false
is_path (some (c ∷ cs)) = true

abbrev pub acknowledgement_value : Text
acknowledgement_value = codes "I_ACKNOWLEDGE_THIS_SUBMITS_VALIDATOR_WEIGHTS"

pub record Prepared : Type 0 where
  pub plan : WeightPlan
  pub snapshot : MetagraphSnapshot
  pub vector : ExecutionVector

-- what the final look at the chain gives: the block at which the submission may start, and the
-- vector that is submitted
pub record SendView : Type 0 where
  pub block : ℕ
  pub vector : ExecutionVector
