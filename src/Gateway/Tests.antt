-- ===== src/Gateway/Tests.antt =====
-- Runs of the models of internal/gateway.
use ssh_vpn.Common.{
  ℕ, has_prefix, All, IsByte, false, List, [], ◌∷◌, ◌++◌, Bytes, codes, none, some, ◌≡◌, inr, refl,
  arith,
}
use ssh_vpn.Gateway.Sniff.{http, classify, starts_token, scan_methods}
use ssh_vpn.Gateway.Sniff.Stable.{classify-append, classify_long}
use ssh_vpn.Gateway.Ws.{Conn, oversized, next_frame}
use ssh_vpn.Gateway.Ws.Data.{masked_frame}
use ssh_vpn.Gateway.Ws.Reads.{Carries, read_pieces, read_pieces-Carries, next_frame-Carries}
use ssh_vpn.Gateway.Ws.Control.{Replied, next_frame-Replied, next_frame_oversized}

get_classified : classify (codes "GET /") ≡ (http, false)
unfolding classify starts_token has_prefix scan_methods
get_classified = refl

classify-append_example : classify (codes "GET /" ++ codes " HTTP/1.1") ≡ (http, false)
classify-append_example = classify-append (codes "GET /") (codes " HTTP/1.1") get_classified

classify_long_example : (classify (codes "UNSUPPORTED")).1 ≡ false
classify_long_example = classify_long (codes "UNSUPPORTED") (omega arith)

abbrev key : Bytes
key = 17 ∷ 34 ∷ 51 ∷ 68 ∷ []

abbrev hello : Bytes
hello = codes "hello"

abbrev at_start : Bytes → Conn
at_start input = record {
  input = input;
  output = [];
  room = 8;
  remaining = 0;
  masked = false;
  mask = 0 ∷ 0 ∷ 0 ∷ 0 ∷ [];
  mask_pos = 0;
  closed = false;
}

key_bytes : All IsByte key
key_bytes = (omega arith, (omega arith, (omega arith, (omega arith, tt))))

hello_bytes : All IsByte hello
hello_bytes = (omega arith, (omega arith, (omega arith, (omega arith, (omega arith, tt)))))

abbrev said : Conn
said = at_start (masked_frame 2 key hello ++ codes "next")

said-Carries : ((next_frame said).1 ≡ none) × Carries (next_frame said).0 hello (codes "next")
said-Carries =
    next_frame-Carries said 0x82 key hello (codes "next") (omega arith) (omega arith) refl key_bytes
      (omega arith, (omega arith, (omega arith, (omega arith, tt)))) hello_bytes (inr refl)

next_frame-Carries_example :
    ((next_frame said).1 ≡ none) × Carries (next_frame said).0 hello (codes "next")
next_frame-Carries_example =
    next_frame-Carries said 0x82 key hello (codes "next") (omega arith) (omega arith) refl key_bytes
      (omega arith, (omega arith, (omega arith, (omega arith, tt)))) hello_bytes (inr refl)

abbrev sizes : List (ℕ × ℕ)
sizes = (2, 10) ∷ (100, 1) ∷ []

read_pieces-Carries_example :
    (left : Bytes) × (hello ≡ (read_pieces sizes (next_frame said).0).1 ++ left)
    × Carries (read_pieces sizes (next_frame said).0).0 left (codes "next")
read_pieces-Carries_example =
    read_pieces-Carries sizes (next_frame said).0 hello (codes "next") said-Carries.1

abbrev pinged : Conn
pinged = at_start (masked_frame 9 key hello ++ codes "next")

next_frame-Replied_example :
    Replied 9 hello pinged (next_frame pinged)
    × ((next_frame pinged).0.input ≡ codes "next")
    × ((next_frame pinged).0.remaining ≡ 0)
next_frame-Replied_example =
    next_frame-Replied pinged 9 key hello (codes "next") (omega arith) (omega arith) refl
      (omega arith) key_bytes hello_bytes refl

-- A ping that claims 300 bytes and has sent two of them.
abbrev flooded : Conn
flooded = at_start (0x89 ∷ 254 ∷ 1 ∷ 44 ∷ (key ++ codes "hi"))

next_frame_oversized_example :
    ((next_frame flooded).1 ≡ some oversized)
    × ((next_frame flooded).0.input ≡ codes "hi")
    × ((next_frame flooded).0.output ≡ [])
next_frame_oversized_example =
    next_frame_oversized flooded 9 300 key (codes "hi") (omega arith) (omega arith) refl
      (omega arith) (omega arith) refl
