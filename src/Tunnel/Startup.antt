-- ===== src/Tunnel/Startup.antt =====
-- tunnel/session.py: `_start`, as the calls that it awaits in turn, with the cleanup steps that it registers after each,
-- and the stack that undoes them. `_finish` lets a call that it guards end although the tunnel stops meanwhile.
pub mod Effect
pub mod Undone
use ezhpcy.Prelude.{
  ℕ, Bool, true, false, Option, none, some, List, [], ◌∷◌, ◌++◌, if◌then◌else◌, ◌==◌,
}

pub data Cleanup : Type 0 where
  release_lock close_login stop_watcher close_sftp remove_control_directory close_job stop_output
        cancel_worker stop_heartbeats close_port remove_config stop_monitor :
      Cleanup

pub data Call : Type 0 where
  acquire_lock connect discover_remote provision validate_provisioned load_authorized_key open_sftp
        make_directories publish_first_lease submit_interactive submit_batch start_command
        wait_for_job wait_for_port wait_for_endpoint forward_port publish_config :
      Call

-- A call, what `_finish` registers with its result, and what follows it.
pub record Step : Type 0 where
  pub call : Call
  pub then_registers : List Cleanup
  pub registers : List Cleanup

abbrev pub plain : Call → List Cleanup → Step
plain call registers = record { call = call; then_registers = []; registers = registers }

abbrev pub provisioning : Bool → List Step
provisioning true = plain provision [] ∷ []
provisioning false = plain validate_provisioned [] ∷ plain load_authorized_key [] ∷ []

abbrev pub submission : Bool → List Step
submission true =
    plain submit_interactive (close_job ∷ stop_output ∷ cancel_worker ∷ [])
    ∷ plain start_command []
    ∷ []
submission false =
    record { call = submit_batch; then_registers = cancel_worker ∷ []; registers = [] } ∷ []

-- What comes before the submission, with or without provisioning
abbrev pub preparing : Bool → List Step
preparing auto_provision =
    plain acquire_lock (release_lock ∷ [])
    ∷ plain connect (close_login ∷ stop_watcher ∷ [])
    ∷ plain discover_remote []
    ∷ (provisioning auto_provision
        ++ (plain open_sftp (close_sftp ∷ remove_control_directory ∷ [])
            ∷ plain make_directories []
            ∷ plain publish_first_lease []
            ∷ []))

-- What follows the submission
abbrev pub serving : List Step
serving =
    plain wait_for_job []
    ∷ plain wait_for_port (stop_heartbeats ∷ [])
    ∷ plain wait_for_endpoint []
    ∷ plain forward_port (close_port ∷ remove_config ∷ [])
    ∷ plain publish_config (stop_monitor ∷ [])
    ∷ []

-- `_start`, with or without provisioning, for an interactive or a batch job
unfoldable pub startup : Bool → Bool → List Step
startup auto_provision interactive = preparing auto_provision ++ (submission interactive ++ serving)

-- How a call ends. As the tunnel stops, a call is cut off; or else, guarded by `_finish`, it ends late, with a result or an
-- error, or `_finish` gives up on it when the time limit of cleanup has passed.
pub data Outcome : Type 0 where
  succeeds raises cut_off ends_late fails_late given_up : Outcome

-- `push_async_callback`, of each in turn: the newest is on top.
unfoldable pub push : List Cleanup → List Cleanup → List Cleanup
push [] stack = stack
push (c ∷ cs) stack = push cs (c ∷ stack)

-- The stack when `_start` returns or is left, and whether it returns.
unfoldable pub run_steps : (Call → Outcome) → List Step → List Cleanup → List Cleanup × Bool
unfolding push
run_steps ends [] stack = (stack, true)
run_steps ends (s ∷ steps) stack = elim (ends s.call) [
  | succeeds ↦ run_steps ends steps (push s.registers (push s.then_registers stack))
  | raises ↦ (stack, false)
  | cut_off ↦ (stack, false)
  | ends_late ↦ (push s.then_registers stack, false)
  | fails_late ↦ (stack, false)
  | given_up ↦ (stack, false)
]

-- What `AsyncExitStack` runs as `run` leaves it, in order.
unfoldable pub cleanup_order : (Call → Outcome) → Bool → Bool → List Cleanup
unfolding run_steps startup
cleanup_order ends auto_provision interactive =
    (run_steps ends (startup auto_provision interactive) []).0
