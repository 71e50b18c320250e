-- ===== src/Tests/Worker.antt =====
-- The control directory, and the worker's side of it.
use ezhpcy.Prelude.{ℕ, suc, Bool, ◌≡◌, refl, true, none, some, List, [], ◌∷◌, ◌++◌, arith, All}
use ezhpcy.Prelude.Int.{pos}
use ezhpcy.Prelude.Result.{ok, err}
use ezhpcy.Text.{Text, codes, show, words, text_eq, is_space, is_digit}
use ezhpcy.Text.Split.Words.{IsWord}
use ezhpcy.Worker.Sshd.{max, client_alive}
use ezhpcy.Worker.Sshd.Options.{client_alive_bounds}
use ezhpcy.Prelude.{◌*◌, ◌≤◌}
use ezhpcy.Worker.Control.{
  WorkerControl, publish_lease, write_lease, keep_lease, remove_stale, lease_path, lease_line,
  worker_ready, worker_failed, worker_stopped, value_error, parse_status,
}
use ezhpcy.Worker.Control.Publish.{IsControl, publish_lease-contents}
use ezhpcy.Worker.Control.Status.{parse_status-publish_state}
use ezhpcy.Worker.Job.{publish_state, select_ports, draw, Reason, Round, Watch, watch}
use ezhpcy.Worker.Job.Watchdog.{IsStale, watch-ends}
use ezhpcy.Path.{path_str}
use ezhpcy.Worker.Command.{
  RemoteState, Lease, sshd_command, first_status, positional, worker_control_root, worker_cwd_dir,
}
use ezhpcy.Worker.Command.Trial.{first_up, status_of, first_status-sshd_command}
use ezhpcy.Tests.Base.{scratch}
use ezhpcy.Tests.Server.{Files, memory, memory_files, path_eq, put}

abbrev token : Text
token = codes "a1b2"

abbrev control : WorkerControl
control = record {
  directory = scratch;
  token = token;
  ports = 50000 ∷ 50001 ∷ [];
  sequence = 0;
  leases = [];
}

abbrev no_files : Files
no_files _ = none

control-IsControl : IsControl control
unfolding IsControl
control-IsControl = (omega arith, tt)

published : (publish_lease memory control no_files).0 ≡ ok 1
unfolding publish_lease write_lease keep_lease remove_stale put path_eq text_eq
published = refl

publish_lease-contents_example :
    (1 ≡ suc control.sequence)
    × ((publish_lease memory control no_files).1.sequence ≡ 1)
    × (memory_files.contents (publish_lease memory control no_files).2 (lease_path scratch 1)
        ≡ some (lease_line token 1))
publish_lease-contents_example =
    publish_lease-contents memory memory_files control no_files 1 control-IsControl published

token-IsWord : IsWord token
unfolding is_space
token-IsWord = (refl, (refl, (refl, (refl, tt))))

parse_status-publish_state_example :
    (parse_status token (50000 ∷ []) (words (publish_state token (codes "ready") (show 50000 ∷ [])))
      ≡ ok (worker_ready 50000))
    × (parse_status token
          (50000 ∷ [])
          (words (publish_state token (codes "stopped") (show 143 ∷ [])))
        ≡ ok (worker_stopped (pos 143)))
    × (parse_status token (50000 ∷ []) (words (publish_state token (codes "failed") (token ∷ [])))
        ≡ ok (worker_failed token))
parse_status-publish_state_example =
    parse_status-publish_state token (50000 ∷ []) 50000 143 token token-IsWord token-IsWord refl

-- A status that `isdigit` accepts and `int` does not.
superscript_test :
    parse_status token (50000 ∷ []) (words (token ++ codes " stopped ²\n")) ≡ err value_error
unfolding parse_status words is_digit
superscript_test = refl

abbrev drawn_ports : List ℕ
drawn_ports = 49159 ∷ 49152 ∷ []

abbrev random : List ℕ
random = 7 ∷ 7 ∷ 0 ∷ []

drawn : select_ports 2 random ≡ some drawn_ports
unfolding select_ports draw
drawn = refl

abbrev leases : List Text
leases = codes "a1b2 3\n" ∷ codes "other 9\n" ∷ codes "a1b2 4\n" ∷ []

abbrev seen : Watch
seen = record { last_sequence = some 4; last_seen = 100 }

abbrev early : Round
early = record { sshd_runs = true; sequence = some 4; seconds = 101 }

abbrev late : Round
late = record { sshd_runs = true; sequence = some 4; seconds = 190 }

stale : All (IsStale seen) (early ∷ late ∷ [])
unfolding IsStale
stale = (refl, (refl, tt))

watch-ends_example : (x : Reason) × (watch 90 seen (early ∷ late ∷ []) ≡ some x)
watch-ends_example = watch-ends 90 seen (early ∷ []) late stale (omega arith)

abbrev key : Text × Text
key = (codes "ssh-ed25519", codes "AAAA")

client_alive_bounds_example :
    let (interval, count) = client_alive 61 2 60 in
    (1 ≤ interval) × (1 ≤ count) × (61 ≤ interval * 2) × (interval * count ≤ max interval 60)
client_alive_bounds_example = client_alive_bounds 61 2 60 (omega arith)

abbrev remote_state : RemoteState
remote_state = record {
  cache_dir = record { root = codes "/"; parts = codes "c" ∷ [] };
  state_dir = record { root = codes "/"; parts = codes "s" ∷ [] };
  version = codes "1.0";
}

abbrev lease : Lease
lease = record {
  heartbeat_token = token;
  heartbeat_timeout_seconds = 60;
  control_dir = scratch;
  cancel_executable = codes "bkill";
}

control_root : path_str (worker_control_root remote_state) ≡ codes "/s/ezhpcy/1.0/worker_control"
unfolding path_str
control_root = refl

cwd : path_str (worker_cwd_dir remote_state) ≡ codes "/c/ezhpcy/1.0/worker_cwd"
unfolding path_str
cwd = refl

abbrev second_up : Text → Bool
second_up port = text_eq port (codes "50001")

first_status-sshd_command_example :
    (command : List Text) × (sshd_command remote_state
        (codes "script")
        (50000 ∷ 50001 ∷ [])
        lease
        []
      ≡ ok command)
    × (first_status second_up (positional command)
        ≡ some (status_of token (first_up second_up (50000 ∷ 50001 ∷ []))))
first_status-sshd_command_example =
    first_status-sshd_command second_up remote_state (codes "script") 50000 (50001 ∷ []) lease []
