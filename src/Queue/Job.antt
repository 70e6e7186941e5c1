-- ===== src/Queue/Job.antt =====
-- ecommerce_super/easyecom/doctype/easyecom_queue_job/easyecom_queue_job.py: the Queue Job row, its
-- state table, `validate` and the transition helpers. Times are seconds.
pub mod Table
use ecommerce_super.Base.{
  ℕ, ◌+◌, String, Bool, true, false, ◌||◌, not, Option, none, some, List, [], ◌∷◌, ◌==◌,
  if◌then◌else◌, or_else, ℤ, take_text, append, Result, ok, err, ◌>>=◌,
}

pub data JobState : Type 0 where
  queued running retrying success partial failed cancelled : JobState

pub JobState-discrete : Discrete JobState
JobState-discrete = hlevel

-- The row. A text field that Frappe leaves empty is `none`; `attempts`, the counts and
-- `max_attempts` are 0 when unset, as the code reads them through `or 0`.
pub record Job : Type 0 where
  pub name : String
  pub company : String
  pub job_type : String
  pub queue_tier : Option String
  pub target_name : Option String
  pub idempotency_key : String
  pub state : JobState
  pub attempts : ℕ
  pub max_attempts : ℕ
  pub created_at : Option ℕ
  pub last_attempted_at : Option ℕ
  pub next_attempt_at : Option ℤ
  pub completed_at : Option ℕ
  pub last_error : Option String
  pub last_error_translation_key : Option String
  pub rq_job_id : Option String
  pub succeeded_count : ℕ
  pub failed_count : ℕ

-- ALLOWED_TRANSITIONS
unfoldable pub allowed_transitions : JobState → List JobState
allowed_transitions queued = running ∷ cancelled ∷ []
allowed_transitions running = success ∷ partial ∷ failed ∷ retrying ∷ []
allowed_transitions retrying = running ∷ failed ∷ cancelled ∷ []
allowed_transitions success = []
allowed_transitions partial = []
allowed_transitions failed = queued ∷ []
allowed_transitions cancelled = []

abbrev pub same_state : JobState → JobState → Bool
same_state queued queued = true
same_state running running = true
same_state retrying retrying = true
same_state success success = true
same_state partial partial = true
same_state failed failed = true
same_state cancelled cancelled = true
same_state _ _ = false

abbrev pub has_state : JobState → List JobState → Bool
has_state s [] = false
has_state s (t ∷ ts) = same_state t s || has_state s ts

-- The errors of `validate`.
pub data JobError : Type 0 where
  bad_transition : JobState → JobState → JobError
  partial_without_counts : JobError

-- `prior` is the document before the save, and `none` for a new one.
unfoldable pub validate_state_transition : Option Job → Job → Result JobError Job
unfolding allowed_transitions
validate_state_transition none j = ok j
validate_state_transition (some prior) j =
    if same_state prior.state j.state
    then ok j
    else if has_state j.state (allowed_transitions prior.state)
    then ok j
    else err (bad_transition prior.state j.state)

unfoldable pub validate_partial_counts : Job → Result JobError Job
validate_partial_counts j =
    if not (same_state partial j.state)
    then ok j
    else if j.succeeded_count == 0 || j.failed_count == 0
    then err partial_without_counts
    else ok j

abbrev pub stamped : ℕ → Job → Job
stamped now j = record j { created_at = some (or_else j.created_at now) }

unfoldable pub validate : ℕ → Option Job → Job → Result JobError Job
unfolding validate_state_transition validate_partial_counts
validate now prior j = validate_state_transition prior (stamped now j) >>= validate_partial_counts

unfoldable pub transition_to_running : ℕ → Option String → Job → Job
transition_to_running now running_job_id j = record j {
  state = running;
  attempts = j.attempts + 1;
  last_attempted_at = some now;
  rq_job_id = running_job_id;
}

unfoldable pub transition_to_success : ℕ → Job → Job
transition_to_success now j = record j { state = success; completed_at = some now }

-- `error[:65000]`
abbrev error_limit : ℕ
error_limit = 65000

unfoldable pub transition_to_failed : ℕ → String → Option String → Job → Job
transition_to_failed now error translation_key j = record j {
  state = failed;
  completed_at = some now;
  last_error = some (take_text error_limit error);
  last_error_translation_key = translation_key;
}

unfoldable pub transition_to_retrying : ℤ → String → Option String → Job → Job
transition_to_retrying next error translation_key j = record j {
  state = retrying;
  next_attempt_at = some next;
  last_error = some (take_text error_limit error);
  last_error_translation_key = translation_key;
}

unfoldable pub cancel : ℕ → String → Job → Job
cancel now reason j =
    if has_state j.state (success ∷ partial ∷ failed ∷ cancelled ∷ []) then j else record j {
      state = cancelled;
      completed_at = some now;
      last_error = some (append "Cancelled: " reason);
    }
