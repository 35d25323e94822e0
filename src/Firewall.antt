-- ===== src/Firewall.antt =====
-- internal/firewall/firewall.go: the rules for the traffic of VPN users, and the commands that
-- install and remove them. Which commands succeed, and what they print, are parameters.
pub mod Chunks
pub mod Policy
mod Tests
use ssh_vpn.Common.{
  ℕ, zero, suc, ◌<◌, Bytes, codes, bytes_eq, has_prefix, leb, if◌then◌else◌, length, take, drop,
  get_elem?, Bool, true, false, not, ◌&&◌, List, [], ◌∷◌, ◌++◌, map, Option, none, some, ℤ,
}
use ssh_vpn.Common.Text.{itoa, atoi, join, split, fields, has_suffix, trim_prefix, index}
use ssh_vpn.Config.{Config, FirewallConfig, UdpgwConfig, UserDefaultsConfig}

abbrev pub chain : Bytes
chain = codes "SSHVPN"

-- The rules that the code writes, by what they match. `local_ports` is the multiport rule of one
-- round of the loop.
pub data Rule : Type 0 where
  local_ports : List ℤ → Rule
  local_udp_dns local_tcp_dns local_reject smtp_reject return_all : Rule

-- The words of a rule, as they follow `-A SSHVPN`.
unfoldable pub words : Rule → List Bytes
words (local_ports ps) =
    codes "-o"
    ∷ codes "lo"
    ∷ codes "-p"
    ∷ codes "tcp"
    ∷ codes "-m"
    ∷ codes "multiport"
    ∷ codes "--dports"
    ∷ join b',' (map itoa ps)
    ∷ codes "-j"
    ∷ codes "RETURN"
    ∷ []
words local_udp_dns =
    codes "-o"
    ∷ codes "lo"
    ∷ codes "-p"
    ∷ codes "udp"
    ∷ codes "--dport"
    ∷ codes "53"
    ∷ codes "-j"
    ∷ codes "RETURN"
    ∷ []
words local_tcp_dns =
    codes "-o"
    ∷ codes "lo"
    ∷ codes "-p"
    ∷ codes "tcp"
    ∷ codes "--dport"
    ∷ codes "53"
    ∷ codes "-j"
    ∷ codes "RETURN"
    ∷ []
words local_reject = codes "-o" ∷ codes "lo" ∷ codes "-j" ∷ codes "REJECT" ∷ []
words smtp_reject =
    codes "-p" ∷ codes "tcp" ∷ codes "--dport" ∷ codes "25" ∷ codes "-j" ∷ codes "REJECT" ∷ []
words return_all = codes "-j" ∷ codes "RETURN" ∷ []

abbrev pub chunk : ℕ
chunk = 15

-- The slices of the loop over the allowed ports; each round takes a port, so as many rounds as
-- ports are enough.
unfoldable pub slices : ℕ → List ℤ → List (List ℤ)
slices zero ps = []
slices (suc fuel) [] = []
slices (suc fuel) (p ∷ ps) = take chunk (p ∷ ps) ∷ slices fuel (drop chunk (p ∷ ps))

unfoldable pub chunks : List ℤ → List (List ℤ)
unfolding slices
chunks ps = slices (length ps) ps

unfoldable pub allowed : Config → List ℤ
allowed c =
    if c.udpgw.enabled
    then c.firewall.allow_local_ports ++ c.udpgw.ports
    else c.firewall.allow_local_ports

-- `Rules`
unfoldable pub rules : Config → List Rule
unfolding chunks allowed
rules c =
    (if c.firewall.block_local
      then map local_ports (chunks (allowed c))
        ++ (local_udp_dns ∷ local_tcp_dns ∷ local_reject ∷ [])
      else [])
    ++ (if c.firewall.block_smtp then smtp_reject ∷ [] else [])
    ++ (return_all ∷ [])

-- `GroupID`, on the text of /etc/group. The answer is `none` for an error.
abbrev pub group_line : Bytes → List Bytes → Option (Option ℤ)
group_line name (n ∷ p ∷ gid ∷ fs) = if bytes_eq n name then some (atoi gid) else none
group_line name _ = none

abbrev pub first_group : Bytes → List Bytes → Option ℤ
first_group name [] = none
first_group name (l ∷ ls) =
    let rest = first_group name ls in
    elim (group_line name (split b':' l)) [ none ↦ rest | some id ↦ id ]

unfoldable pub group_id : Bytes → Bytes → Option ℤ
group_id text name = first_group name (split 10 text)

-- What a failed command of `Apply` is reported as.
pub data Failure : Type 0 where
  flush jump : Failure
  rule : Rule → Failure

-- A tool is its program; a command is the program with its words.
pub record Command : Type 0 where
  pub program : Bytes
  pub args : List Bytes

-- `tool.run`
unfoldable pub command : Bytes → List Bytes → Command
command bin args = record { program = bin; args = codes "-w" ∷ codes "5" ∷ args }

unfoldable pub jump_words : ℤ → List Bytes
jump_words gid =
    codes "OUTPUT"
    ∷ codes "-m"
    ∷ codes "owner"
    ∷ codes "--gid-owner"
    ∷ itoa gid
    ∷ codes "-j"
    ∷ chain
    ∷ []

-- The commands run, in order, and the failures.
abbrev pub Run : Type 0
Run = List Command × List Failure

abbrev pub then_run : Run → Run → Run
then_run (cs, fs) (ds, gs) = (cs ++ ds, fs ++ gs)

module _ (ok : Command → Bool) where
  abbrev pub try : Command → Failure → Run
  try c f = (c ∷ [], if ok c then [] else f ∷ [])

  unfoldable pub add_rules : Bytes → List Rule → Run
  unfolding command words
  add_rules bin [] = ([], [])
  add_rules bin (r ∷ rs) =
      then_run (try (command bin (codes "-A" ∷ chain ∷ words r)) (rule r)) (add_rules bin rs)

  unfoldable pub add_jump : Bytes → ℤ → Run
  unfolding command jump_words
  add_jump bin gid =
      let check = command bin (codes "-C" ∷ jump_words gid) in
      if ok check
      then (check ∷ [], [])
      else then_run (check ∷ [], []) (try (command bin (codes "-I" ∷ jump_words gid)) jump)

  -- One round of `Apply`.
  unfoldable pub build : Config → ℤ → Bytes → Run
  unfolding add_rules add_jump command rules
  build c gid bin =
      let create = command bin (codes "-N" ∷ chain ∷ []) in
      let empty = command bin (codes "-F" ∷ chain ∷ []) in
      if ok empty
      then then_run (create ∷ empty ∷ [], [])
          (then_run (add_rules bin (rules c)) (add_jump bin gid))
      else (create ∷ empty ∷ [], flush ∷ [])

  unfoldable pub build_all : Config → ℤ → List Bytes → Run
  unfolding build
  build_all c gid [] = ([], [])
  build_all c gid (bin ∷ bins) = then_run (build c gid bin) (build_all c gid bins)

-- The commands of `Remove` for one line of the listed chain.
unfoldable pub delete_jump : Bytes → Bytes → List Command
unfolding command
delete_jump bin line =
    if has_prefix line (codes "-A OUTPUT ") && has_suffix line (codes "-j SSHVPN")
    then command bin (codes "-D" ∷ codes "OUTPUT" ∷ fields (trim_prefix line (codes "-A OUTPUT ")))
      ∷ []
    else []

abbrev pub delete_jumps : Bytes → List Bytes → List Command
delete_jumps bin [] = []
delete_jumps bin (l ∷ ls) = delete_jump bin l ++ delete_jumps bin ls

-- One round of `Remove`, by what `-S OUTPUT` printed, with `none` where it failed.
unfoldable pub remove_one : Bytes → Option Bytes → List Command
unfolding command delete_jump
remove_one bin none = []
remove_one bin (some out) =
    delete_jumps bin (split 10 out)
    ++ (command bin (codes "-F" ∷ chain ∷ []) ∷ command bin (codes "-X" ∷ chain ∷ []) ∷ [])

unfoldable pub remove : (Bytes → Option Bytes) → List Bytes → List Command
unfolding remove_one command
remove listed [] = []
remove listed (bin ∷ bins) =
    command bin (codes "-S" ∷ codes "OUTPUT" ∷ [])
    ∷ (remove_one bin (listed bin) ++ remove listed bins)

pub data Applied : Type 0 where
  removed : List Command → Applied
  no_tool no_group : Applied
  built : Run → Applied

abbrev pub with_group : (Command → Bool) → Config → List Bytes → Option ℤ → Applied
with_group ok c bins none = no_group
with_group ok c bins (some gid) = built (build_all ok c gid bins)

abbrev pub with_tools : (Command → Bool) → Config → Option Bytes → List Bytes → Applied
with_tools ok c groups [] = no_tool
with_tools ok c groups (bin ∷ bins) =
    with_group ok c (bin ∷ bins)
      (elim groups [ none ↦ none | some text ↦ group_id text (c.user_defaults.group) ])

-- `Apply`; `groups` is the text of /etc/group, with `none` where it cannot be read.
unfoldable pub apply :
    (Command → Bool) → (Bytes → Option Bytes) → Config → Option Bytes → List Bytes → Applied
unfolding remove build_all group_id
apply ok listed c groups bins =
    if c.firewall.enabled then with_tools ok c groups bins else removed (remove listed bins)

-- `Active`
unfoldable pub active : Option Bytes → Bool
active none = false
active (some out) = elim (index out (codes "-j SSHVPN")) [ none ↦ false | some i ↦ true ]
