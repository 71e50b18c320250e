-- ===== src/Tests/Shared.antt =====
-- What tunnels on one machine share: the locks of the aliases, and the directory of Host blocks.
use ezhpcy.Prelude.{
  ℕ, ◌≡◌, ◌≢◌, refl, ap, sym, Bool, true, false, ◌&&◌, none, some, List, [], ◌∷◌, All, arith,
  if◌then◌else◌,
}
use ezhpcy.Text.{Text, codes, text_eq, member}
use ezhpcy.Config.Alias.{validate_alias}
use ezhpcy.Tunnel.Lock.{
  Locks, absent, held, Use, starts, asks, ends, started, enter_alias_lock, alias_locked,
}
use ezhpcy.Text.Table.{put}
use ezhpcy.Tunnel.Lock.Exclusive.{IsElsewhere, started-IsElsewhere}
use ezhpcy.Tunnel.SshConfig.{WorkerHost, not_found, render, active_name}
use ezhpcy.Tunnel.SshConfig.Directory.{
  Directory, not_written, Disk, temporary_name, write_private, withdraw_host, succeeded,
}
use ezhpcy.Tunnel.SshConfig.Directory.Whole.{IsWhole, conf_name, write_private-IsWhole}
use ezhpcy.Tunnel.SshConfig.Directory.Published.{publish, all_well, publish_host-active}

abbrev gpu : Text
gpu = codes "gpu"

abbrev cpu : Text
cpu = codes "cpu"

-- Process 1 serves `gpu`.
abbrev locks : Locks
locks = put gpu (held 1) (λ alias. absent)

gpu_held : locks gpu ≡ held 1
unfolding put text_eq
gpu_held = refl

abbrev uses : List Use
uses = starts 2 gpu ∷ starts 2 cpu ∷ asks 3 gpu ∷ ends cpu ∷ []

differ : cpu ≢ gpu
differ e = omega (arith, ap second e)
  where
    second : Text → ℕ
    second [] = 0
    second (c ∷ s) = c

started-IsElsewhere_example :
    ((started uses locks).1 gpu ≡ held 1) × All (IsElsewhere gpu) (started uses locks).0
started-IsElsewhere_example =
    started-IsElsewhere gpu 1 uses locks gpu_held (tt, (tt, (tt, (differ, tt))))

started_test : (started uses locks).0 ≡ starts 2 cpu ∷ []
unfolding started enter_alias_lock alias_locked put text_eq validate_alias
started_test = refl

abbrev no_files : Directory
no_files name = none

write_private-IsWhole_example :
    All
      (IsWhole
        (codes "active-gpu.conf")
        (codes "Host gpu")
        (conf_name (codes "active-gpu"))
        no_files)
      (write_private
        (temporary_name (codes "active-gpu.conf") (codes "12") (codes "ab"))
        (codes "active-gpu.conf")
        (codes "Host gpu")
        (not_written (codes "Ho"))
        no_files).1
    × ((write_private
            (temporary_name (codes "active-gpu.conf") (codes "12") (codes "ab"))
            (codes "active-gpu.conf")
            (codes "Host gpu")
            (not_written (codes "Ho"))
            no_files).2
          (conf_name (codes "active-gpu"))
        ≡ (if succeeded (not_written (codes "Ho"))
              && text_eq (codes "active-gpu.conf") (conf_name (codes "active-gpu"))
            then some (codes "Host gpu")
            else none))
write_private-IsWhole_example =
    write_private-IsWhole (codes "active-gpu.conf") (codes "Host gpu") (codes "12") (codes "ab")
      (codes "active-gpu") (not_written (codes "Ho")) no_files

abbrev host : WorkerHost
host = record {
  alias = gpu;
  user = codes "me";
  identity_file = codes "/k";
  known_hosts = codes "/h";
}

cpu_valid : validate_alias cpu ≡ some cpu
unfolding validate_alias
cpu_valid = refl

-- A block of `cpu`, which no tunnel serves
abbrev blocks : Directory
blocks = put (active_name cpu) (some (codes "Host cpu")) no_files

abbrev is_gpu : Text → Bool
is_gpu alias = text_eq alias gpu

abbrev served : Disk → Directory
served disk =
    publish (λ s. s) (λ options. []) is_gpu host 4022 (active_name cpu ∷ []) (codes "12")
      (codes "ab") not_found disk blocks

publish_host-active_example :
    (is_gpu cpu ≡ true → served all_well (active_name cpu) ≡ blocks (active_name cpu))
    × (member (active_name cpu) (active_name cpu ∷ []) ≡ true
        → is_gpu cpu ≡ false
        → served all_well (active_name cpu) ≡ none)
    × (served all_well (active_name gpu) ≡ some (render host 4022))
    × (withdraw_host host true (served all_well) (active_name gpu) ≡ none)
    × (withdraw_host host true (served all_well) (active_name cpu)
        ≡ served all_well (active_name cpu))
publish_host-active_example =
    publish_host-active (λ s. s) (λ options. []) is_gpu host 4022 (active_name cpu ∷ [])
      (codes "12") (codes "ab") not_found cpu cpu cpu_valid (λ e. differ (sym e)) all_well blocks
