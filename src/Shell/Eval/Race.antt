-- ===== src/Shell/Eval/Race.antt =====
-- `fg` holds a pointer to the job while SIGCHLD is not blocked.
use splab.Shell.Jobs.{Shell}
