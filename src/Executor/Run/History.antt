-- ===== src/Executor/Run/History.antt =====
-- Runs of the executor one after another over one audit state file
-- (src/misscomputer_subnet/weight_executor.py).
use misscomputer_subnet.Prelude.{
  ℕ, suc, ◌+◌, ◌≤◌, ◌≡◌, inl, inr, Text, text_eq, text_eq_iff, Bool, true, false, List, [], ◌∷◌,
  ◌++◌, arith, any, any-append, if◌then◌else◌, Bool-cases,
}
use misscomputer_subnet.Executor.Types.{ExecutionVector, Env}
use misscomputer_subnet.Executor.Audit.{AuditState, blocks}
use misscomputer_subnet.Executor.Outside.{Config, Answers, World}
use misscomputer_subnet.Executor.Run.{run_weight_executor}
use misscomputer_subnet.Executor.Run.Effect.{Effect}
use misscomputer_subnet.Executor.Run.Once.{run_weight_executor-Effect}

-- how many of the vectors belong to the plan
abbrev pub submissions : Text → List ExecutionVector → ℕ
submissions plan [] = 0
submissions plan (v ∷ vs) =
    let n = submissions plan vs in if text_eq v.plan_digest_sha256 plan then suc n else n

submissions-append :
    (plan : Text) (xs ys : List ExecutionVector)
    → submissions plan (xs ++ ys) ≡ submissions plan xs + submissions plan ys
submissions-append plan [] ys = omega arith
submissions-append plan (v ∷ xs) ys = ground (arith, submissions-append plan xs ys)

-- one submission at most is behind a blocked plan
abbrev pub used : Bool → ℕ
used true = 1
used false = 0

abbrev quota : Text → AuditState → ℕ
quota plan disk = used (any (blocks plan) disk)

Effect-quota :
    (env : Env) (plan : Text) (old : AuditState) (w : World)
    → Effect env old w
    → submissions plan w.submitted + quota plan old ≤ quota plan w.store.disk
Effect-quota env plan old w (inl (kept, none_sent)) = rw (kept, none_sent) (omega arith)
Effect-quota env plan old w (inr (a, wrote, free, inl none_sent)) =
    rw (wrote, none_sent) (ground (arith, any-append (blocks plan) old (a ∷ [])))
Effect-quota env plan old w (inr (a, wrote, free, inr (v, sent, (of_plan, digest), final))) =
    elim (Bool-cases (text_eq a.vector.plan_digest_sha256 plan)) [
      | inr other ↦
          rw (wrote, sent, of_plan) (ground (arith, any-append (blocks plan) old (a ∷ [])))
      | inl own ↦
          let e : a.vector.plan_digest_sha256 ≡ plan =
            (text_eq_iff a.vector.plan_digest_sha256 plan).0 own in
          let free' : any (blocks plan) old ≡ false = rw e at free in
          rw (wrote, sent, of_plan) (ground (arith, any-append (blocks plan) old (a ∷ [])))
    ]

-- One run: its configuration, and what the outside answers.
pub record Job : Type 0 where
  pub config : Config
  pub answers : Answers

module _ (env : Env) where
  -- the vectors that the runs submit, in order, and the audit state that the last one leaves
  unfoldable pub run_all : List Job → AuditState → List ExecutionVector × AuditState
  run_all [] disk = ([], disk)
  run_all (job ∷ jobs) disk =
      let world = (run_weight_executor env job.config job.answers disk).1 in
      let (later, last) = run_all jobs world.store.disk in (world.submitted ++ later, last)

  run_all-quota :
      (plan : Text) (jobs : List Job) (disk : AuditState)
      → submissions plan (run_all jobs disk).0 + quota plan disk ≤ quota plan (run_all jobs disk).1
  unfolding run_all
  run_all-quota plan [] disk = omega arith
  run_all-quota plan (job ∷ jobs) disk =
      let world = (run_weight_executor env job.config job.answers disk).1 in
      omega (
        arith,
        submissions-append plan world.submitted (run_all jobs world.store.disk).0,
        run_all-quota plan jobs world.store.disk,
        Effect-quota env plan disk world
            (run_weight_executor-Effect env job.config job.answers disk),
      )

  used-le : (b : Bool) → used b ≤ 1
  used-le true = omega arith
  used-le false = omega arith

  -- Over any sequence of runs of the executor on one audit state file, with any configurations
  -- and any answers of the chain, the signer and the file system, the vectors that are given to
  -- the submitter for one plan number at most one, and none if the file blocks the plan.
  pub plan_submitted_once :
      (plan : Text) (jobs : List Job) (disk : AuditState)
      → submissions plan (run_all jobs disk).0 + used (any (blocks plan) disk) ≤ 1
  plan_submitted_once plan jobs disk =
      omega (arith, run_all-quota plan jobs disk, used-le (any (blocks plan) (run_all jobs disk).1))

  -- A plan that is blocked stays blocked.
  pub blocked_stays :
      (plan : Text) (jobs : List Job) (disk : AuditState)
      → any (blocks plan) disk ≡ true
      → any (blocks plan) (run_all jobs disk).1 ≡ true
  blocked_stays plan jobs disk h = ground (arith, run_all-quota plan jobs disk)
