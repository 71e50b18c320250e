-- ===== src/Worker.antt =====
-- worker/: the job that runs sshd on a compute node, and the directory over which it and the tunnel
-- talk.
pub mod Command
pub mod Control
pub mod Job
pub mod Sshd
