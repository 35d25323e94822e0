-- ===== src/Sshd.antt =====
-- internal/sshd/sshd.go: the text of the settings, the edits of sshd_config, and the loop of
-- `Apply` over the levels with its rollback. What sshd says to a file and whether a file can be
-- written are parameters. Texts are in UTF-8.
pub mod Render
pub mod Strip
pub mod Inline
pub mod Ports
pub mod Apply
mod Tests
use ssh_vpn.Common.{
  ℕ, zero, suc, ◌+◌, Bytes, codes, has_prefix, ltb, leb, ◌==◌, if◌then◌else◌, length, take, drop,
  get_elem?, Bool, true, false, not, ◌&&◌, ◌||◌, List, [], ◌∷◌, ◌++◌, map, Option, none, some, ℤ,
  pos, leb_ℤ, ltb_ℤ, eqb_ℤ,
}
use ssh_vpn.Common.Text.{itoa, index, split, join, trim_space, trim_prefix}
use ssh_vpn.Common.Text.Lines.{unlines}
use ssh_vpn.Config.{SshConfig}
use ssh_vpn.Config.Ports.{sort}

abbrev pub dash : Bytes
dash = 0xE2 ∷ 0x80 ∷ 0x94 ∷ []

-- `markBegin` and `markEnd`, with the name put in.
abbrev pub mark_begin : Bytes → Bytes
mark_begin name =
    codes "# >>> SSH-VPN managed (" ++ (name ++ (codes ") " ++ (dash ++ codes " do not edit >>>")))

abbrev pub mark_end : Bytes → Bytes
mark_end name = codes "# <<< SSH-VPN managed (" ++ (name ++ codes ") <<<")

abbrev pub port_comment : Bytes
port_comment = codes "#sshvpn# "

-- `header`
abbrev pub header : List Bytes
header =
    (codes "# Managed by SSH-VPN (sshfortress) "
      ++ (dash ++ codes " https://github.com/SandBaad/SSH-VPN"))
    ∷ codes "# Edit /etc/sshfortress/config.yaml and run `sshfortress apply` instead."
    ∷ []
    ∷ []

-- One round of the inner loop of `stripBlocks`: the text without the first block, if it has one.
abbrev pub past_newline : Bytes → ℕ → ℕ
past_newline s k = elim (get_elem? s k) [ none ↦ k | some c ↦ (if c == 10 then suc k else k) ]

abbrev pub cut_block : Bytes → ℕ → Bytes → Option ℕ → Option Bytes
cut_block s i mark none = none
cut_block s i mark (some j) = some (take i s ++ drop (past_newline s (i + j + length mark)) s)

abbrev pub from_begin : Bytes → Bytes → Option ℕ → Option Bytes
from_begin s mark none = none
from_begin s mark (some i) = cut_block s i mark (index (drop i s) mark)

unfoldable pub strip_once : Bytes → Bytes → Option Bytes
strip_once name s = from_begin s (mark_end name) (index s (mark_begin name))

-- The inner loop. A round takes a block away, so as many rounds as bytes are enough.
unfoldable pub strip_loop : ℕ → Bytes → Bytes → Bytes
unfolding strip_once
strip_loop zero name s = s
strip_loop (suc fuel) name s = elim (strip_once name s) [
  | none ↦ s
  | some rest ↦ strip_loop fuel name rest
]

unfoldable pub strip_blocks : Bytes → Bytes
unfolding strip_loop
strip_blocks s =
    let t = strip_loop (suc (length s)) (codes "global") s in
    strip_loop (suc (length t)) (codes "match") t

-- `strings.HasSuffix(body, "\n")`
unfoldable pub ends_line : Bytes → Bool
ends_line [] = false
ends_line (c ∷ []) = c == 10
ends_line (c ∷ d ∷ s) = ends_line (d ∷ s)

abbrev pub with_newline : Bytes → Bytes
with_newline [] = []
with_newline (c ∷ s) = if ends_line (c ∷ s) then c ∷ s else (c ∷ s) ++ (10 ∷ [])

-- A block between its marks.
unfoldable pub block : Bytes → List Bytes → Bytes
unfolding unlines
block name ls = unlines (mark_begin name ∷ ls) ++ (mark_end name ++ (10 ∷ []))

unfoldable pub with_inline_blocks : Bytes → List Bytes → List Bytes → Bytes
unfolding block ends_line
with_inline_blocks body global match_block =
    block (codes "global") (header ++ global)
    ++ (with_newline body ++ block (codes "match") match_block)

abbrev pub is_blank : ℕ → Bool
is_blank c = c == 32 || c == 9

abbrev pub is_digit : ℕ → Bool
is_digit c = leb b'0' c && leb c b'9'

unfoldable pub skip : (ℕ → Bool) → Bytes → Bytes
skip p [] = []
skip p (c ∷ s) = let rest = skip p s in if p c then rest else c ∷ s

abbrev pub starts : (ℕ → Bool) → Bytes → Bool
starts p [] = false
starts p (c ∷ s) = p c

abbrev pub only_end : Bytes → Bool
only_end [] = true
only_end (c ∷ s) = false

-- Behind the word `Port`: blanks, digits, blanks.
unfoldable pub port_value : Bytes → Bool
unfolding skip
port_value s =
    let number = skip is_blank s in
    starts is_blank s && starts is_digit number && only_end (skip is_blank (skip is_digit number))

-- `portLineRe` on one line.
unfoldable pub is_port_line : Bytes → Bool
unfolding skip port_value
is_port_line l =
    let s = skip is_blank l in
    has_prefix s (codes "Port") && port_value (trim_prefix s (codes "Port"))

unfoldable pub comment_line : Bytes → Bytes
unfolding is_port_line
comment_line l = if is_port_line l then port_comment ++ l else l

unfoldable pub comment_ports : Bytes → Bytes
unfolding comment_line
comment_ports b = join 10 (map comment_line (split 10 b))

unfoldable pub uncomment_line : Bytes → Bytes
uncomment_line l = trim_prefix l port_comment

unfoldable pub uncomment_ports : Bytes → Bytes
unfolding uncomment_line
uncomment_ports b = join 10 (map uncomment_line (split 10 b))

-- The main file that `Apply` writes where sshd reads no drop-in files.
unfoldable pub installed : Bytes → List Bytes → List Bytes → Bytes
unfolding with_inline_blocks comment_ports strip_blocks
installed orig global match_block =
    with_inline_blocks (comment_ports (strip_blocks orig)) global match_block

-- The main file that `Remove` writes.
unfoldable pub restored : Bytes → Bytes
unfolding uncomment_ports strip_blocks
restored b = uncomment_ports (strip_blocks b)
