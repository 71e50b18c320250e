-- ===== src/Tunnel/Startup/Effect.antt =====
-- The calls of a startup that took effect, and what undoes each of them.
use ezhpcy.Prelude.{◌≡◌, ◌⊎◌, Bool, List, [], ◌∷◌, ◌++◌, if◌then◌else◌}
use ezhpcy.Tunnel.Startup.{
  Cleanup, release_lock, close_login, stop_watcher, close_sftp, remove_control_directory, close_job,
  stop_output, cancel_worker, stop_heartbeats, close_port, remove_config, stop_monitor, Call,
  acquire_lock, connect, discover_remote, provision, validate_provisioned, load_authorized_key,
  open_sftp, make_directories, publish_first_lease, submit_interactive, submit_batch, start_command,
  wait_for_job, wait_for_port, wait_for_endpoint, forward_port, publish_config, Step, Outcome,
  succeeds, ends_late, push,
}

-- The calls of a startup, in order
abbrev pub call_order : Bool → Bool → List Call
call_order auto_provision interactive =
    acquire_lock
    ∷ connect
    ∷ discover_remote
    ∷ ((if auto_provision then provision ∷ [] else validate_provisioned ∷ load_authorized_key ∷ [])
        ++ (open_sftp
            ∷ make_directories
            ∷ publish_first_lease
            ∷ ((if interactive then submit_interactive ∷ start_command ∷ [] else submit_batch ∷ [])
                ++ (wait_for_job ∷ wait_for_port ∷ wait_for_endpoint ∷ forward_port ∷ publish_config
                    ∷ []))))

-- What undoes a call, in order: a submitted job is cancelled, an interactive one's output is then stopped and its submission
-- closed, and the Host block is removed before the port of the worker is closed.
abbrev pub undoing : Call → List Cleanup
undoing acquire_lock = release_lock ∷ []
undoing connect = stop_watcher ∷ close_login ∷ []
undoing open_sftp = remove_control_directory ∷ close_sftp ∷ []
undoing submit_interactive = cancel_worker ∷ stop_output ∷ close_job ∷ []
undoing submit_batch = cancel_worker ∷ []
undoing wait_for_port = stop_heartbeats ∷ []
undoing forward_port = remove_config ∷ close_port ∷ []
undoing publish_config = stop_monitor ∷ []
undoing _ = []

-- What undoes calls, the newest first
abbrev pub undone : List Call → List Cleanup
undone [] = []
undone (c ∷ cs) = undone cs ++ undoing c

-- The one call whose result counts although it came late, as the tunnel stopped: a submission of a batch job.
abbrev pub counts_late : Call → List Call
counts_late submit_batch = submit_batch ∷ []
counts_late _ = []

-- The calls that took effect: those that succeeded up to the first that did not, and that one if it counts
abbrev pub took_effect : (Call → Outcome) → List Call → List Call
took_effect ends [] = []
took_effect ends (c ∷ cs) =
    let rest = took_effect ends cs in
    elim (ends c) [ succeeds ↦ c ∷ rest | ends_late ↦ counts_late c | _ ↦ [] ]

-- A step that registers what undoes its call, and with a late result only where that counts
abbrev Fits : Step → Type 0
Fits s =
    ((stack : List Cleanup)
      → push s.registers (push s.then_registers stack) ≡ undoing s.call ++ stack)
    × ((stack : List Cleanup) → push s.then_registers stack ≡ undone (counts_late s.call) ++ stack)

-- Nothing was acquired, or the lock, whose release is the last step.
ReleasesLast : List Cleanup → Type 0
ReleasesLast order = (order ≡ []) ⊎ ((above : List Cleanup) × (order ≡ above ++ release_lock ∷ []))
