-- ===== src/Gateway/Request.antt =====
-- internal/gateway/sniff.go: the request headers of the HTTP handshakes, how they are read from
-- the raw socket and from a buffered reader, and the answer of internal/gateway/ws.go to them. The
-- address parser of package net and the hash of `wsAccept` are parameters.
pub mod Reading
pub mod Names
use ssh_vpn.Common.{
  ℕ, zero, suc, ◌+◌, ◌*◌, Bytes, codes, bytes_eq, ltb, ◌==◌, if◌then◌else◌, length, take, drop,
  Bool, true, false, not, ◌&&◌, List, [], ◌∷◌, ◌++◌, Option, none, some,
}
use ssh_vpn.Common.Text.{
  trim_space, to_lower, to_upper, index, split, cut, fields, unix_lines, trim_right,
}

-- `Headers` is a Go map, in the order of its first writes.
pub record Request : Type 0 where
  pub method : Bytes
  pub target : Bytes
  pub headers : List (Bytes × Bytes)

-- `v, ok := m[k]`
unfoldable pub find : Bytes → List (Bytes × Bytes) → Option Bytes
find k [] = none
find k ((j, v) ∷ rest) = if bytes_eq j k then some v else find k rest

unfoldable pub or_empty : Option Bytes → Bytes
or_empty none = []
or_empty (some v) = v

-- `r.Headers[k]`
unfoldable pub at : Bytes → Request → Bytes
unfolding find or_empty
at k r = or_empty (find k r.headers)

unfoldable pub header : Bytes → Request → Bytes
unfolding at
header k r = at (to_lower k) r

abbrev pub first_of : List Bytes → Bytes
first_of [] = []
first_of (p ∷ ps) = p

-- `net.ParseIP`, and `String` on its result.
module _ (parse_ip : Bytes → Option Bytes) where
  abbrev pub parsed : Bytes → Option Bytes
  parsed [] = none
  parsed (b ∷ v) = parse_ip (b ∷ v)

  unfoldable pub from_forwarded : Bytes → Bytes
  from_forwarded [] = []
  from_forwarded (b ∷ v) = or_empty (parse_ip (trim_space (first_of (split b',' (b ∷ v)))))

  -- The loop over the headers of the networks in front.
  unfoldable pub first_address : List Bytes → Request → Bytes
  first_address [] r = from_forwarded (at (codes "x-forwarded-for") r)
  first_address (h ∷ hs) r =
      let rest = first_address hs r in
      elim (parsed (trim_space (at h r))) [ none ↦ rest | some ip ↦ ip ]

  unfoldable pub client_ip : Request → Bytes
  unfolding first_address
  client_ip r =
      first_address (codes "cf-connecting-ip" ∷ codes "true-client-ip" ∷ codes "x-real-ip" ∷ []) r

-- `strings.EqualFold` is equality of the lower case on ASCII text.
unfoldable pub is_websocket : Request → Bool
unfolding header
is_websocket r = bytes_eq (to_lower (trim_space (header (codes "upgrade") r))) (codes "websocket")

abbrev pub max_header : ℕ
max_header = 16 * 1024

abbrev pub blank_crlf : Bytes
blank_crlf = 13 ∷ 10 ∷ 13 ∷ 10 ∷ []

abbrev pub blank_lf : Bytes
blank_lf = 10 ∷ 10 ∷ []

-- The end of the header block, with `none` for -1: by the first blank line with carriage returns,
-- or else by the first without.
abbrev pub end_of : Option ℕ → Option ℕ → Option ℕ
end_of (some i) lf = some (i + 4)
end_of none (some i) = some (i + 2)
end_of none none = none

unfoldable pub header_end : Bytes → Option ℕ
header_end b = end_of (index b blank_crlf) (index b blank_lf)

-- One line behind the first: the first value of a name is kept.
abbrev pub put_new : Option Bytes → Bytes → Bytes → List (Bytes × Bytes) → List (Bytes × Bytes)
put_new none k v hs = hs ++ ((k, trim_space v) ∷ [])
put_new (some old) k v hs = hs

abbrev pub put_header : Bytes → Option (Bytes × Bytes) → List (Bytes × Bytes) → List (Bytes × Bytes)
put_header k none hs = hs
put_header k (some (_, v)) hs = put_new (find k hs) k v hs

abbrev pub name_of : Option (Bytes × Bytes) → Bytes
name_of none = []
name_of (some (k, v)) = to_lower (trim_space k)

unfoldable pub add_line : Bytes → List (Bytes × Bytes) → List (Bytes × Bytes)
unfolding find
add_line l hs = put_header (name_of (cut b':' l)) (cut b':' l) hs

unfoldable pub add_lines : List Bytes → List (Bytes × Bytes) → List (Bytes × Bytes)
unfolding add_line
add_lines [] hs = hs
add_lines (l ∷ ls) hs = add_lines ls (add_line l hs)

abbrev pub second_of : List Bytes → Bytes
second_of [] = []
second_of (p ∷ ps) = first_of ps

abbrev pub request_of : List Bytes → Request
request_of [] = record { method = []; target = []; headers = [] }
request_of (l ∷ ls) = record {
  method = to_upper (first_of (fields l));
  target = second_of (fields l);
  headers = add_lines ls [];
}

unfoldable pub parse_header : Bytes → Request
unfolding add_lines
parse_header b = request_of (split 10 (unix_lines b))

pub data HeaderError : Type 0 where
  too_large timed_out : HeaderError
  socket : HeaderError

-- What one turn of the loop of `readHeaderExact` peeks: the bytes that wait, at most 16 KiB of
-- them, and whether the deadline is over afterwards; or an error of the socket.
pub data Peeked : Type 0 where
  waiting : Bytes → Bool → Peeked
  broken : HeaderError → Peeked

-- The result, and the number of bytes that were taken from the socket.
pub data Header : Type 0 where
  got : Request → ℕ → Header
  failed : HeaderError → Header

abbrev pub consume : Bytes → Bool → ℕ → Header
consume b read end = if read then got (parse_header (take end b)) end else failed socket

-- One turn: with the end of the header, or without.
abbrev pub turn : Bytes → Bool → Bool → Option ℕ → Option Header → Option Header
turn b over read (some end) later = some (consume b read end)
turn b over read none later =
    if length b == max_header
    then some (failed too_large)
    else if over
    then some (failed timed_out)
    else later

-- `readHeaderExact`, by the list of what its turns peek; `read` says whether `io.ReadFull` of the
-- header succeeds. The answer is `none` where the list ends before the loop does.
unfoldable pub read_header_exact : Bool → List Peeked → Option Header
unfolding parse_header header_end
read_header_exact read [] = none
read_header_exact read (broken e ∷ ps) = some (failed e)
read_header_exact read (waiting b over ∷ ps) =
    turn b over read (header_end b) (read_header_exact read ps)

-- `bytes.TrimRight(line, "\r\n")` is empty
unfoldable pub is_blank : Bytes → Bool
is_blank [] = true
is_blank (c ∷ l) = (if c == 13 then true else c == 10) && is_blank l

-- `readHeaderBuffered`, by the lines that `ReadSlice` returns, each with its newline, or `none`
-- where it fails; `raw` is what was read before.
unfoldable pub read_header_buffered : Bytes → List (Option Bytes) → Option Header
unfolding is_blank parse_header
read_header_buffered raw [] = none
read_header_buffered raw (none ∷ ls) = some (failed socket)
read_header_buffered raw (some line ∷ ls) =
    let all = raw ++ line in
    let later = read_header_buffered all ls in
    if ltb max_header (length all)
    then some (failed too_large)
    else if is_blank line && ltb (length line) (length all)
    then some (got (parse_header all) (length all))
    else later

abbrev pub crlf : Bytes
crlf = 13 ∷ 10 ∷ []

abbrev pub ws_guid : Bytes
ws_guid = codes "258EAFA5-E914-47DA-95CA-C5AB0DC85B11"

-- SHA-1 and the standard encoding of base64.
module _ (sha1 : Bytes → Bytes) (base64 : Bytes → Bytes) where
  unfoldable pub ws_accept : Bytes → Bytes
  ws_accept key = base64 (sha1 (trim_space key ++ ws_guid))

  abbrev pub accept_line : Bytes → Bytes
  accept_line [] = []
  accept_line (k ∷ key) = codes "Sec-WebSocket-Accept: " ++ ws_accept (k ∷ key) ++ crlf

  abbrev pub protocol_line : Bytes → Bytes
  protocol_line [] = []
  protocol_line (p ∷ ps) =
      codes "Sec-WebSocket-Protocol: " ++ trim_space (first_of (split b',' (p ∷ ps))) ++ crlf

  unfoldable pub upgrade_response : Request → Bytes
  unfolding header ws_accept
  upgrade_response r =
      if bytes_eq (r.method) (codes "CONNECT")
      then codes "HTTP/1.1 200 Connection established" ++ crlf ++ crlf
      else codes "HTTP/1.1 101 Switching Protocols"
        ++ crlf
        ++ codes "Upgrade: websocket"
        ++ crlf
        ++ codes "Connection: Upgrade"
        ++ crlf
        ++ accept_line (header (codes "sec-websocket-key") r)
        ++ protocol_line (header (codes "sec-websocket-protocol") r)
        ++ crlf
