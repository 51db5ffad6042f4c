-- ===== src/Cluster.antt =====
-- The contents of the two cores that the API server and the workers call.
use moab.Tasks.Monad as tasks_monad
use moab.Queues.Access as queues_access

module _ ⦃Q : queues_access.Stores⦄ ⦃T : tasks_monad.Stores⦄ where
  pub record Cluster : Type 0 where
    pub queues : queues_access.Db
    pub tasks : tasks_monad.Db
