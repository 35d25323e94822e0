-- ===== src/Gateway/Peek.antt =====
-- internal/gateway/sniff.go and gateway.go: the loops that peek until `classify` knows enough, by
-- the list of what their turns see. The answer is `none` where the list ends before the loop does.
use ssh_vpn.Common.{
  ℕ, ◌≤◌, Bytes, length, take, leb, ◌==◌, if◌then◌else◌, Bool, true, false, not, ◌||◌, List, [],
  ◌∷◌, Option, none, some,
}
use ssh_vpn.Gateway.Sniff.{Kind, classify}
use ssh_vpn.Gateway.Request.{HeaderError, timed_out, too_large, socket, Peeked, waiting, broken}
pub mod Settled

-- What a loop answers: a kind; `errTimeout`, whose kind no caller looks at; or another error.
pub data Sniffed : Type 0 where
  classified : Kind → Sniffed
  silent : Sniffed
  lost : Sniffed

abbrev pub of_error : HeaderError → Sniffed
of_error timed_out = silent
of_error too_large = lost
of_error socket = lost

abbrev pub buf_len : ℕ
buf_len = 16

-- One turn on `n` bytes that wait, with what the later turns answer.
abbrev pub peek_turn : ℕ → Bool → Kind × Bool → Option Sniffed → Option Sniffed
peek_turn n over (k, more) later =
    if not more || n == buf_len then some (classified k) else if over then some silent else later

-- `peekClassify`
unfoldable pub peek_classify : List Peeked → Option Sniffed
peek_classify [] = none
peek_classify (broken e ∷ ps) = some (of_error e)
peek_classify (waiting b over ∷ ps) = peek_turn (length b) over (classify b) (peek_classify ps)

-- `br.Peek`: the bytes that are buffered, and an error where they are fewer than asked for.
pub record Buffered : Type 0 where
  pub bytes : Bytes
  pub error : Option HeaderError

abbrev pub short_turn : Option HeaderError → Option Sniffed → Option Sniffed
short_turn none later = later
short_turn (some e) later = some silent

abbrev pub reader_turn : Bytes → Option HeaderError → Kind × Bool → Option Sniffed → Option Sniffed
reader_turn [] (some e) known later = some (of_error e)
reader_turn b error (k, more) later =
    if not more || leb 16 (length b) then some (classified k) else short_turn error later

-- `classifyReader`
unfoldable pub classify_reader : List Buffered → Option Sniffed
classify_reader [] = none
classify_reader (t ∷ ts) = reader_turn (t.bytes) (t.error) (classify (t.bytes)) (classify_reader ts)
