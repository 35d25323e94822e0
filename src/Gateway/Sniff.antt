-- ===== src/Gateway/Sniff.antt =====
-- internal/gateway/sniff.go: what the first bytes of a connection say, and the loops that read
-- until they say enough.
pub mod Stable
use ssh_vpn.Common.{
  ℕ, zero, suc, ◌/◌, ◌*◌, ◌%◌, bit_and, Bytes, codes, has_prefix, ltb, leb, ◌==◌, if◌then◌else◌,
  length, take, Bool, true, false, not, ◌&&◌, ◌||◌, List, [], ◌∷◌, ◌++◌, Option, none, some, any,
}

pub data Kind : Type 0 where
  unknown ssh http tls ws_frame : Kind

abbrev pub http_methods : List Bytes
http_methods =
    codes "GET"
    ∷ codes "POST"
    ∷ codes "PUT"
    ∷ codes "HEAD"
    ∷ codes "DELETE"
    ∷ codes "OPTIONS"
    ∷ codes "PATCH"
    ∷ codes "CONNECT"
    ∷ codes "TRACE"
    ∷ codes "PROPFIND"
    ∷ codes "PROPPATCH"
    ∷ codes "MKCOL"
    ∷ codes "COPY"
    ∷ codes "MOVE"
    ∷ codes "LOCK"
    ∷ codes "UNLOCK"
    ∷ codes "ACL"
    ∷ codes "PURGE"
    ∷ codes "SEARCH"
    ∷ codes "REPORT"
    ∷ codes "BMOVE"
    ∷ codes "DEBUG"
    ∷ []

-- The cases of both `switch` statements on the opcode.
abbrev pub is_opcode : ℕ → Bool
is_opcode op = op == 0 || op == 1 || op == 2 || op == 8 || op == 9 || op == 10

unfoldable pub is_ws_frame_start : Bytes → Bool
is_ws_frame_start [] = false
is_ws_frame_start (a ∷ []) = false
is_ws_frame_start (a ∷ b ∷ r) =
    if not (bit_and a 0x70 == 0)
    then false
    else if is_opcode (bit_and a 0x0F)
    then not (bit_and b 0x80 == 0)
    else false

abbrev pub ssh_prefix : Bytes
ssh_prefix = codes "SSH-"

-- `len(b) < len(tok) && strings.HasPrefix(tok, b)`
unfoldable pub starts_token : Bytes → Bytes → Bool
starts_token b tok = ltb (length b) (length tok) && has_prefix tok b

-- The loop over the methods: the kind where one matches, and whether one may still.
unfoldable pub scan_methods : Bytes → List Bytes → Bool → Kind × Bool
scan_methods b [] prefix = (unknown, prefix)
scan_methods b (m ∷ ms) prefix =
    let tok = m ++ (b' ' ∷ []) in
    let rest = scan_methods b ms (if starts_token b tok then true else prefix) in
    if has_prefix b tok then (http, false) else rest

is_one_ws_byte : Bytes → Bool
is_one_ws_byte [] = false
is_one_ws_byte (a ∷ []) = bit_and a 0x70 == 0 && is_opcode (bit_and a 0x0F)
is_one_ws_byte (a ∷ b ∷ r) = false

after_methods : Bytes → Kind × Bool → Kind × Bool
after_methods b (http, more) = (http, false)
after_methods b (k, true) = (unknown, true)
after_methods b (k, false) =
    if is_ws_frame_start b
    then (ws_frame, false)
    else if is_one_ws_byte b
    then (unknown, true)
    else (unknown, false)

-- What `classify` does with a first byte that is not that of a TLS record.
pub classify_text : Bytes → Kind × Bool
unfolding is_one_ws_byte after_methods
classify_text b =
    if starts_token b ssh_prefix
    then (unknown, true)
    else if has_prefix b ssh_prefix
    then (ssh, false)
    else after_methods b (scan_methods b http_methods false)

-- The kind, and whether the bytes so far are a prefix of something that would be recognised.
unfoldable pub classify : Bytes → Kind × Bool
unfolding classify_text
classify [] = (unknown, true)
classify (a ∷ r) = if a == 0x16 then (tls, false) else classify_text (a ∷ r)
