-- ===== src/User/ScanTests.antt =====
-- Runs of the model of the scan in internal/session.
use ssh_vpn.Common.{codes, All, false, [], ◌∷◌, none, some, ◌==◌, if◌then◌else◌, ◌≡◌, refl}
use ssh_vpn.User.Scan.{Proc, Kernel, Scanner, by_pid, scan, sigterm, delivered, kill, is_gone}
use ssh_vpn.User.Scan.Genuine.{Genuine, Ordered, scan-Genuine}

abbrev monitor : Proc
monitor = record { pid = 10; ppid = 1; uid = 0; comm = codes "sshd"; start_time = 5 }

abbrev alice : Proc
alice = record { pid = 11; ppid = 10; uid = 1000; comm = codes "sshd"; start_time = 6 }

abbrev kernel : Kernel
kernel = record {
  io = λ pid. some (100, 60);
  inodes = λ pid. [];
  sock = λ ino. none;
  listens = λ port. port == 22;
  passwd = λ uid. if uid == 1000 then some (codes "alice") else none;
  addr_string = λ a. [];
  is_loopback = λ a. false;
}

abbrev scanner : Scanner
scanner = record { peer = λ pid. none; udpgw_ports = []; skips = λ name. false }

scan-Genuine_example :
    All
      (Genuine kernel scanner (by_pid (alice ∷ monitor ∷ []) []) (alice ∷ monitor ∷ []))
      (scan kernel scanner (alice ∷ monitor ∷ []))
    × Ordered (scan kernel scanner (alice ∷ monitor ∷ []))
scan-Genuine_example = scan-Genuine kernel scanner (alice ∷ monitor ∷ [])

-- A process that ends after the first signal gets no second.
ended_by_term : (kill 11 (some 6) (some 6 ∷ none ∷ []) delivered delivered).0 ≡ sigterm ∷ []
unfolding kill is_gone
ended_by_term = refl
