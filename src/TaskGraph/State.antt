-- ===== src/TaskGraph/State.antt =====
-- The types of the subtask store (packages/task-graph/src/index.ts, lines 13 to 59) and its errors.
use gateloop.Base.{ℕ, String, Bool, true, false, ◌||◌, Option, List, [], ◌∷◌, any}

pub data TaskStatus : Type 0 where
  pending in_progress blocked done abandoned : TaskStatus

pub data Role : Type 0 where
  developer debugger : Role

pub record Task : Type 0 where
  pub task_id : String
  pub parent_story_id : String
  pub parent_contract_id : String
  pub title : Option String
  pub intent : String
  pub status : TaskStatus
  pub sequence : ℕ
  pub depends_on : List String
  pub files_touched : List String
  pub acceptance_behavior : Option String
  pub created_by : Role
  pub attempt_count : ℕ
  pub notes : Option String
  pub result_ref : Option String
  pub created_at : String
  pub updated_at : String

pub record TaskCreateInput : Type 0 where
  pub intent : String
  pub title : Option String
  pub created_by : Role
  pub depends_on : Option (List String)
  pub files_touched : Option (List String)
  pub acceptance_behavior : Option String

pub record TaskUpdateInput : Type 0 where
  pub status : Option TaskStatus
  pub notes : Option String
  pub result_ref : Option String
  pub attempt_count : Option ℕ

pub record TaskGraph : Type 0 where
  pub tasks : List Task
  pub seq : ℕ
  pub parent_story_id : String
  pub parent_contract_id : String
  pub allowed_write_set : List String

-- What the methods throw; `bad_glob` is the SyntaxError of a glob that does not compile.
pub data TaskError : Type 0 where
  outside_write_set : List String → TaskError
  bad_glob : TaskError
  unknown_dependency unknown_task : String → TaskError
  illegal_transition : TaskStatus → TaskStatus → TaskError
  another_in_progress : TaskError

pub data Result (A : Type 0) : Type 0 where
  ok : A → Result A
  err : TaskError → Result A

infixl 5 ◌>>=◌ ◌>>◌
abbrev pub ◌>>=◌ : {A B : Type 0} → Result A → (A → Result B) → Result B
ok a >>= f = f a
err e >>= f = err e

abbrev pub ◌>>◌ : {B : Type 0} → Result (Unit {0}) → Result B → Result B
m >> k = m >>= λ _. k

abbrev pub same_status : TaskStatus → TaskStatus → Bool
same_status pending pending = true
same_status in_progress in_progress = true
same_status blocked blocked = true
same_status done done = true
same_status abandoned abandoned = true
same_status _ _ = false

-- The table LEGAL, as the list of targets of each status.
abbrev pub legal : TaskStatus → List TaskStatus
legal pending = in_progress ∷ abandoned ∷ []
legal in_progress = done ∷ blocked ∷ abandoned ∷ []
legal blocked = in_progress ∷ abandoned ∷ []
legal done = []
legal abandoned = []

unfoldable pub legal_transition : TaskStatus → TaskStatus → Bool
legal_transition from to = same_status from to || any (λ s. same_status s to) (legal from)
