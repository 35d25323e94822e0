-- ===== src/Procfs.antt =====
-- internal/procfs/procfs.go: the parsers of what /proc prints, and the arithmetic of start times.
-- The files are read elsewhere; a text comes as bytes.
pub mod Name
pub mod Tcp
mod Tests
use ssh_vpn.Common.{
  ℕ, zero, suc, ◌+◌, ◌-◌, ◌*◌, ◌/◌, ◌%◌, ◌^◌, ◌<◌, Bytes, codes, bytes_eq, has_prefix, ltb, leb,
  ◌==◌, if◌then◌else◌, length, take, drop, get_elem?, Bool, true, false, not, ◌&&◌, ◌||◌, List, [],
  ◌∷◌, ◌++◌, Option, none, some, ℤ, pos, negsuc, any, eqb_ℤ,
}
use ssh_vpn.Common.Assoc.{lookup, insert}
use ssh_vpn.Common.Text.{atoi, cut, split, fields, trim_space, has_suffix}
use ssh_vpn.Udpgw.Proto.{Addr, v4, v6, AddrPort}
use ssh_vpn.Udpgw.Flow.{unmap}

-- `strconv.ParseUint`: the value, and whether there is an error. The value is 0 on a syntax error
-- and the greatest one where the number is out of range.
abbrev pub digit_of : ℕ → ℕ → Option ℕ
digit_of base c =
    let d =
      if leb b'0' c && leb c b'9'
      then c - b'0'
      else if leb b'a' c && leb c b'z'
      then c - b'a' + 10
      else if leb b'A' c && leb c b'Z'
      then c - b'A' + 10
      else base in
    if ltb d base then some d else none

unfoldable pub uint_from : ℕ → ℕ → ℕ → Bytes → ℕ × Bool
uint_from base bound n [] = (n, true)
uint_from base bound n (c ∷ s) = elim (digit_of base c) [
  | none ↦ (0, false)
  | some d ↦ elim (ltb (n * base + d) bound) [
    | true ↦ uint_from base bound (n * base + d) s
    | false ↦ (bound - 1, false)
  ]
]

unfoldable pub parse_uint : ℕ → ℕ → Bytes → ℕ × Bool
unfolding uint_from
parse_uint base bits [] = (0, false)
parse_uint base bits (c ∷ s) = uint_from base (2 ^ bits) 0 (c ∷ s)

-- The value of `strconv.Atoi`, whatever its error.
abbrev pub clamp : Bool → ℕ → ℤ
clamp true zero = pos 0
clamp true (suc n) = if ltb (2 ^ 63) (suc n) then negsuc (2 ^ 63 - 1) else negsuc n
clamp false n = if ltb n (2 ^ 63) then pos n else pos (2 ^ 63 - 1)

unfoldable pub atoi_value : Bytes → ℤ
unfolding parse_uint
atoi_value [] = pos 0
atoi_value (c ∷ s) =
    if c == b'-'
    then clamp true (parse_uint 10 64 s).0
    else if c == b'+'
    then clamp false (parse_uint 10 64 s).0
    else clamp false (parse_uint 10 64 (c ∷ s)).0

-- The bytes before and behind the last occurrence.
abbrev pub or_here : ℕ → ℕ → Bytes → Option (Bytes × Bytes) → Option (Bytes × Bytes)
or_here c x s (some (b, a)) = some (x ∷ b, a)
or_here c x s none = if x == c then some ([], s) else none

unfoldable pub last_cut : ℕ → Bytes → Option (Bytes × Bytes)
last_cut c [] = none
last_cut c (x ∷ s) = or_here c x s (last_cut c s)

pub record StatFields : Type 0 where
  pub comm : Bytes
  pub ppid : ℤ
  pub start_ticks : ℕ

pub data Stat : Type 0 where
  stat : StatFields → Stat
  malformed short : Stat

abbrev pub field : ℕ → List Bytes → Bytes
field n fs = elim (get_elem? fs n) [ none ↦ [] | some f ↦ f ]

-- The fields behind the name.
unfoldable pub stat_of : Bytes → List Bytes → Stat
unfolding atoi_value parse_uint
stat_of comm fs =
    if ltb (length fs) 20
    then short
    else stat (record {
      comm = comm;
      ppid = atoi_value (field 1 fs);
      start_ticks = (parse_uint 10 64 (field 19 fs)).0;
    })

abbrev pub with_name : Bytes → Option (Bytes × Bytes) → Stat
with_name rest none = malformed
with_name rest (some (_, comm)) = stat_of comm (fields rest)

abbrev pub with_rest : Option (Bytes × Bytes) → Stat
with_rest none = malformed
with_rest (some (before, rest)) = with_name rest (cut b'(' before)

-- `parseStat`: the name is what stands between the first `(` and the last `)` behind it.
unfoldable pub parse_stat : Bytes → Stat
unfolding last_cut stat_of
parse_stat data_bytes = with_rest (last_cut b')' data_bytes)

-- `time.Duration(ticks) * time.Second / clockTicks` on an `int64`, which wraps around, in
-- nanoseconds; the division rounds to zero.
abbrev pub wrap64 : ℕ → ℤ
wrap64 n = let m = n % 2 ^ 64 in if ltb m (2 ^ 63) then pos m else negsuc (2 ^ 64 - 1 - m)

abbrev pub hundredth : ℤ → ℤ
hundredth (pos n) = pos (n / 100)
hundredth (negsuc n) = elim ((n + 1) / 100) [ zero ↦ pos 0 | suc k ↦ negsuc k ]

unfoldable pub start_offset : ℕ → ℤ
start_offset ticks = hundredth (wrap64 (ticks * 10 ^ 9))

-- The line of `BootTime`: the loop ends at the first line that begins with `btime `.
unfoldable pub boot_time : List Bytes → Option ℤ
boot_time [] = none
boot_time (l ∷ ls) =
    let rest = boot_time ls in
    if has_prefix l (codes "btime ") then some (atoi_value (trim_space (drop 6 l))) else rest

pub record Io : Type 0 where
  pub rchar : ℕ
  pub wchar : ℕ

abbrev pub count_io : Option (Bytes × Bytes) → Io → Io
count_io none io = io
count_io (some (k, v)) io =
    let n = (parse_uint 10 64 (trim_space v)).0 in
    if bytes_eq k (codes "rchar")
    then record io { rchar = n }
    else if bytes_eq k (codes "wchar")
    then record io { wchar = n }
    else io

abbrev pub io_lines : List Bytes → Io → Io
io_lines [] io = io
io_lines (l ∷ ls) io = io_lines ls (count_io (cut b':' l) io)

-- `ReadIO`, on the text of the file.
unfoldable pub parse_io : Bytes → Io
unfolding parse_uint
parse_io text = io_lines (split 10 text) (record { rchar = 0; wchar = 0 })

-- `SocketInodes`, on the targets of the links in the directory.
abbrev pub inode_of : Bytes → List ℕ
inode_of link =
    let name = drop 8 link in
    let digits = if has_suffix name (codes "]") then take (length name - 1) name else name in
    if has_prefix link (codes "socket:[") && (parse_uint 10 64 digits).1
    then (parse_uint 10 64 digits).0 ∷ []
    else []

unfoldable pub socket_inodes : List Bytes → List ℕ
unfolding parse_uint
socket_inodes [] = []
socket_inodes (l ∷ ls) = inode_of l ++ socket_inodes ls

-- `Passwd`, on the text of the file: the first name of an id counts.
abbrev pub put_user : Bytes → Option ℤ → List (ℤ × Bytes) → List (ℤ × Bytes)
put_user name none m = m
put_user name (some uid) m = if any (λ e. eqb_ℤ e.0 uid) m then m else m ++ ((uid, name) ∷ [])

abbrev pub user_line : List Bytes → List (ℤ × Bytes) → List (ℤ × Bytes)
user_line (name ∷ x ∷ uid ∷ fs) m = put_user name (atoi uid) m
user_line _ m = m

abbrev pub user_lines : List Bytes → List (ℤ × Bytes) → List (ℤ × Bytes)
user_lines [] m = m
user_lines (l ∷ ls) m = user_lines ls (user_line (split b':' l) m)

unfoldable pub passwd : Bytes → List (ℤ × Bytes)
passwd text = user_lines (split 10 text) []
