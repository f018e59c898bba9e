-- ===== src/LogService/Jobs.antt =====
-- The jobs that `enqueueVerification` of src/services/queue.service.js leaves in the queue.
use mathlib.Core.List.{append-nil, Mem, mem-cons_self, mem-cons_of_mem}
use mathlib.Core.Path.{subst}
use potens_intern_backend_sh.Common.{
  ◌≡◌, refl, sym, ap, ◌∙◌, inl, inr, Bool, true, false, List, [], ◌∷◌, ◌++◌, Text, codes, text_eq,
  All, All-append, if◌then◌else◌, text_eq_iff, arith, Bool-cases,
}
use potens_intern_backend_sh.LogService.{Job, JobQueue, enqueue_verification}

abbrev pub has_job : Text → List Job → Bool
has_job id [] = false
has_job id (j ∷ jobs) = let rest = has_job id jobs in if text_eq j.job_id id then true else rest

-- What BullMQ documents of `queue.add`: a job whose id the queue has is not added again.
pub record AddsOnce (q : JobQueue) : Type 0 where
  pub present : (j : Job) (jobs : List Job) → has_job j.job_id jobs ≡ true → q.add j jobs ≡ jobs
  pub absent :
      (j : Job) (jobs : List Job) → has_job j.job_id jobs ≡ false → q.add j jobs ≡ jobs ++ j ∷ []

-- No id occurs twice.
abbrev pub IsDistinct : List Job → Type 0
IsDistinct [] = Unit
IsDistinct (j ∷ jobs) = (has_job j.job_id jobs ≡ false) × IsDistinct jobs

has_job-append :
    (id : Text) (jobs : List Job) (j : Job)
    → has_job id jobs ≡ false
    → text_eq j.job_id id ≡ false
    → has_job id (jobs ++ j ∷ []) ≡ false
has_job-append id [] j absent other = ground arith
has_job-append id (x ∷ jobs) j absent other =
    ground (arith, has_job-append id jobs j (ground arith) other)

text_eq_comm : (s t : Text) → text_eq s t ≡ false → text_eq t s ≡ false
text_eq_comm s t h = ground (arith, text_eq_iff s t, text_eq_iff t s)

IsDistinct-append :
    (jobs : List Job) (j : Job)
    → has_job j.job_id jobs ≡ false
    → IsDistinct jobs
    → IsDistinct (jobs ++ j ∷ [])
IsDistinct-append [] j absent h = (refl, tt)
IsDistinct-append (x ∷ jobs) j absent h = (
  has_job-append x.job_id jobs j h.0 (text_eq_comm x.job_id j.job_id (ground arith)),
  IsDistinct-append jobs j (ground arith) h.1,
)

abbrev pub job_of : Text → Job
job_of id = record { job_id = codes "verify-" ++ id; log_entry_id = id }

-- The id of a job is made of that of its entry.
abbrev pub IsNamed : Job → Type 0
IsNamed j = j.job_id ≡ codes "verify-" ++ j.log_entry_id

append-cancel : (xs ys zs : Text) → xs ++ ys ≡ xs ++ zs → ys ≡ zs
append-cancel [] ys zs e = e
append-cancel (x ∷ xs) ys zs e = append-cancel xs ys zs cc

IsNamed-eq : (id : Text) (j : Job) → IsNamed j → j.job_id ≡ codes "verify-" ++ id → j ≡ job_of id
IsNamed-eq id j named same =
    let entry : j.log_entry_id ≡ id =
      append-cancel (codes "verify-") j.log_entry_id id (sym named ∙ same) in
    ap (λ (p : Text × Text). let job : Job = record { job_id = p.0; log_entry_id = p.1 } in job)
      (ap (λ (t : Text). (t, j.log_entry_id)) same
        ∙ ap (λ (t : Text). (codes "verify-" ++ id, t)) entry)

has_job-Mem :
    (id : Text) (jobs : List Job)
    → All IsNamed jobs
    → has_job (codes "verify-" ++ id) jobs ≡ true
    → Mem (job_of id) jobs
has_job-Mem id [] named held = absurd cc
has_job-Mem id (j ∷ jobs) named held =
    elim (Bool-cases (text_eq j.job_id (codes "verify-" ++ id))) [
      | inl same ↦
          let this = IsNamed-eq id j named.0 ((text_eq_iff _ _).0 same) in
          subst (λ (x : Job). Mem x (j ∷ jobs)) this mem-cons_self
      | inr other ↦ mem-cons_of_mem j (has_job-Mem id jobs named.1 (ground arith))
    ]

added-Mem : (jobs : List Job) (j : Job) → Mem j (jobs ++ j ∷ [])
added-Mem [] j = mem-cons_self
added-Mem (x ∷ jobs) j = mem-cons_of_mem x (added-Mem jobs j)

abbrev pub IsEnqueued : Text → JobQueue → JobQueue → Type 0
IsEnqueued id q after =
    IsDistinct after.jobs
    × All IsNamed after.jobs
    × ((more : List Job) × (after.jobs ≡ q.jobs ++ more))
    × (q.accepts ≡ true → Mem (job_of id) after.jobs)

-- With a queue that adds no job whose id it has: if the ids of its jobs are distinct and made of the
-- ids of their entries, they are so afterwards, no job is lost, and if the queue answers, the job
-- that verifies the entry is among them.
pub enqueue_verification-IsEnqueued :
    (id : Text) (q : JobQueue)
    → AddsOnce q
    → IsDistinct q.jobs
    → All IsNamed q.jobs
    → IsEnqueued id q (enqueue_verification id q)
unfolding enqueue_verification
enqueue_verification-IsEnqueued id q once distinct named = elim (Bool-cases q.accepts) [
  | inr silent ↦
      let same : enqueue_verification id q ≡ q = simp silent refl in
      subst (IsEnqueued id q) (sym same)
        (distinct, named, ([], sym (append-nil q.jobs)), (λ accepts. cc (sym silent ∙ accepts)))
  | inl accepts ↦ elim (Bool-cases (has_job (codes "verify-" ++ id) q.jobs)) [
    | inl present ↦
        let same : enqueue_verification id q ≡ q =
          simp accepts refl
          ∙ ap (λ (jobs : List Job). record q { jobs = jobs })
              (once.present (job_of id) q.jobs present) in
        subst (IsEnqueued id q) (sym same) (
          distinct,
          named,
          ([], sym (append-nil q.jobs)),
          (λ _. has_job-Mem id q.jobs named present),
        )
    | inr absent ↦
        let same : enqueue_verification id q ≡ record q { jobs = q.jobs ++ job_of id ∷ [] } =
          simp accepts refl
          ∙ ap (λ (jobs : List Job). record q { jobs = jobs })
              (once.absent (job_of id) q.jobs absent) in
        subst (IsEnqueued id q) (sym same) (
          IsDistinct-append q.jobs (job_of id) absent distinct,
          All-append IsNamed q.jobs _ named (refl, tt),
          (job_of id ∷ [], refl),
          (λ _. added-Mem q.jobs (job_of id)),
        )
  ]
]
