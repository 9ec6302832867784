-- ===== src/Shell/Sequence.antt =====
-- The loop of Application::RunBootupTask (content/shell/application.cc) over tasks that act on a state
-- and may stop the process. The loop goes on whatever a task returned. A task of the other types is
-- called in its place here: it may act on nothing that the others read.
use ltapp.Base.{Bool, List, [], ◌∷◌, String}
use ltapp.Outcome.{Outcome, ok, ◌>>=◌}
use ltapp.Shell.Tasks.{BootTask, ExcRunType, new_task}

pub record Action (S : Type 0) : Type 0 where
  pub name : String
  pub task : S → Outcome (S × Bool)
  pub exc_type : ExcRunType

-- The state after the tasks, and the tasks with what each returned.
unfoldable pub call_tasks : {S : Type 0} → List (Action S) → S → Outcome (S × List BootTask)
unfolding new_task
call_tasks [] s = ok (s, [])
call_tasks (item ∷ items) s = do
  (s', success) ← item.task s
  (t, called) ← call_tasks items s'
  ok (t, new_task item.name success item.exc_type ∷ called)
