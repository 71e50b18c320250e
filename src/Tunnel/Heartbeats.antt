-- ===== src/Tunnel/Heartbeats.antt =====
-- tunnel/session.py: `_send_heartbeats`, which renews the worker's lease over an SFTP server (Worker.Control) until it is
-- told to stop.
pub mod Renewed
use ezhpcy.Prelude.{ℕ, Bool, true, false, Option, none, some, List, [], ◌∷◌}
use ezhpcy.Prelude.Result.{Result, ok, err}
use ezhpcy.Worker.Control.{SftpError, Sftp, WorkerControl, publish_lease}

-- How it is left: told to stop, with the error of a lease that it could not write after the one before, or still going
-- after the intervals that are given.
pub data Ending : Type 0 where
  stopped : Ending
  write_failed : ℕ → SftpError → Ending
  beating : Ending

pub record Sent (S : Type 0) : Type 0 where
  pub ending : Ending
  pub published : List ℕ
  pub control : WorkerControl
  pub state : S

abbrev pub after_lease : {S : Type 0} → ℕ → Sent S → Sent S
after_lease n sent = record sent { published = n ∷ sent.published }

module _ (sftp : Sftp) where
  abbrev pub Beat : Type 0
  Beat = ℕ → WorkerControl → sftp.State → Sent sftp.State

  -- What follows a lease: whether `stopping` is set before the interval has passed
  abbrev pub wait : Bool → Beat → Beat
  wait true next sequence c s = record { ending = stopped; published = []; control = c; state = s }
  wait false next sequence c s = next sequence c s

  abbrev pub beat :
      Bool → Beat → ℕ → Result SftpError ℕ → WorkerControl → sftp.State → Sent sftp.State
  beat stops next sequence (err e) c s = record {
    ending = write_failed sequence e;
    published = [];
    control = c;
    state = s;
  }
  beat stops next sequence (ok n) c s = after_lease n (wait stops next n c s)

  -- The loop: for each interval, whether it is cut short by `stopping`
  unfoldable pub beats : List Bool → Beat
  unfolding publish_lease
  beats [] sequence c s = record { ending = beating; published = []; control = c; state = s }
  beats (stops ∷ intervals) sequence c s =
      let (r, c', s') = publish_lease sftp c s in beat stops (beats intervals) sequence r c' s'

  -- `_send_heartbeats`
  unfoldable pub send_heartbeats : List Bool → WorkerControl → sftp.State → Sent sftp.State
  unfolding beats
  send_heartbeats intervals = beats intervals 0
