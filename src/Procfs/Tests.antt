-- ===== src/Procfs/Tests.antt =====
-- Runs of the model of internal/procfs.
use ssh_vpn.Common.{arith, true, List, Bytes, codes, [], ◌∷◌, ◌++◌, some, negsuc, ◌≡◌, refl}
use ssh_vpn.Common.Text.{cut, fields}
use ssh_vpn.Udpgw.Proto.{v4}
use ssh_vpn.Procfs.{stat, atoi_value, parse_stat, start_offset, parse_uint, uint_from}
use ssh_vpn.Procfs.Tcp.{parse_hex_addr, decode_hex, host_words}
use ssh_vpn.Procfs.Name.{Lacks, parse_stat-name}

abbrev odd_name : Bytes
odd_name = codes "a) (b"

abbrev behind_name : Bytes
behind_name = codes " S 1 7 7 0 -1 8 9 0 6 0 5 9 0 0 20 0 1 0 777 3 4"

behind_name-Lacks : Lacks b')' behind_name
behind_name-Lacks = ground arith

abbrev later_fields : List Bytes
later_fields =
    codes "7"
    ∷ codes "7"
    ∷ codes "0"
    ∷ codes "-1"
    ∷ codes "8"
    ∷ codes "9"
    ∷ codes "0"
    ∷ codes "6"
    ∷ codes "0"
    ∷ codes "5"
    ∷ codes "9"
    ∷ codes "0"
    ∷ codes "0"
    ∷ codes "20"
    ∷ codes "0"
    ∷ codes "1"
    ∷ codes "0"
    ∷ codes "777"
    ∷ codes "3"
    ∷ codes "4"
    ∷ []

behind_fields : fields behind_name ≡ codes "S" ∷ codes "1" ∷ later_fields
unfolding fields
behind_fields = refl

parse_stat-name_example :
    parse_stat ((codes "17 " ++ (b'(' ∷ odd_name)) ++ (b')' ∷ behind_name))
    ≡ stat (record {
      comm = odd_name;
      ppid = atoi_value (codes "1");
      start_ticks = (parse_uint 10 64 (codes "777")).0;
    })
parse_stat-name_example =
    parse_stat-name (codes "17 ") odd_name behind_name (codes "S") (codes "1") (codes "777")
      later_fields (refl, (refl, (refl, tt))) behind_name-Lacks behind_fields refl

-- After two years and eleven months of uptime the offset of a new process wraps around.
offset_wraps : start_offset 9223372037 ≡ negsuc 92233720367095515
unfolding start_offset
offset_wraps = refl

loopback :
    parse_hex_addr true (codes "0100007F:1F90")
    ≡ some (record { addr = v4 (127 ∷ 0 ∷ 0 ∷ 1 ∷ []); port = 8080 })
unfolding parse_hex_addr cut decode_hex host_words parse_uint uint_from
loopback = refl
