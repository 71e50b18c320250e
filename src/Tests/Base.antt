-- ===== src/Tests/Base.antt =====
-- A job, and a login node that answers from a list.
use ezhpcy.Prelude.{true, Option, none, some, List, [], ◌∷◌}
use ezhpcy.Prelude.Int.{pos}
use ezhpcy.Text.{Text, codes}
use ezhpcy.Path.{PosixPath}
use ezhpcy.Remote.{Completed, Reply, broken, Connection}
use ezhpcy.Scheduler.Defs.{JobSpec}

abbrev pub scripted : Text → Option Text → List Reply → Reply × List Reply
scripted line stdin [] = (broken (codes "closed"), [])
scripted line stdin (reply ∷ replies) = (reply, replies)

abbrev pub login_node : Connection
login_node = record { State = List Reply; create_process = scripted }

abbrev pub succeeded_with : Text → Completed
succeeded_with out = record {
  exit_status = some (pos 0);
  exit_signal = none;
  stdout = out;
  stderr = [];
}

abbrev pub scratch : PosixPath
scratch = record { root = codes "/"; parts = codes "scratch" ∷ [] }

abbrev pub worker_job : JobSpec
worker_job = record {
  command = codes "sshd" ∷ codes "it's" ∷ codes "$HOME" ∷ [];
  name = codes "ezhpcy-worker";
  time_limit = some 5400000000;
  memory_bytes = some 1500000000;
  cores = 4;
  gpus = 1;
  exclusive = true;
  queue = some (codes "gpu");
  working_directory = some scratch;
  stdout_path = some scratch;
  stderr_path = none;
}
