-- ===== src/Shell/Jobs/Collision.antt =====
-- Where the numbering of jobs fails: `nextjid` is given out without a look at the ids in use.
use splab.Shell.Jobs.{Shell}
