-- ===== src/Firewall/Policy.antt =====
-- What the rules decide, against what the comment at the top of the source promises.
use ssh_vpn.Common.{
  Bytes, codes, bytes_eq, All, All-append, if-both, Option, none, some, if◌then◌else◌, Bool, true,
  false, ◌&&◌, ◌||◌, any, map, List, [], ◌∷◌, ◌++◌, append_assoc, ℤ, pos, eqb_ℤ, ◌≡◌, refl, ap, ◌∙◌,
  arith,
}
use ssh_vpn.Common.Text.{itoa, join}
use ssh_vpn.Config.{Config}
use ssh_vpn.Firewall.{
  Rule, local_ports, local_udp_dns, local_tcp_dns, local_reject, smtp_reject, return_all, words,
  chunks, allowed, rules,
}
use ssh_vpn.Firewall.Chunks.{concat, chunks-IsCut, IsCut}

pub data Protocol : Type 0 where
  tcp udp other : Protocol

-- A packet that a VPN user sends: whether it leaves by the loopback interface, and where to.
pub record Packet : Type 0 where
  pub local : Bool
  pub protocol : Protocol
  pub port : ℤ

abbrev pub is_tcp : Protocol → Bool
is_tcp tcp = true
is_tcp _ = false

abbrev pub is_udp : Protocol → Bool
is_udp udp = true
is_udp _ = false

abbrev pub member : ℤ → List ℤ → Bool
member p ps = any (eqb_ℤ p) ps

pub data Verdict : Type 0 where
  returned rejected : Verdict

-- What iptables documents of the words of a rule: pairs of an option and its value, each of which
-- a packet must meet, with the target behind `-j`. How iptables reads a list of ports is a
-- parameter.
module _ (ports_of : Bytes → List ℤ) where
  abbrev pub meets_protocol : Bytes → Protocol → Bool
  meets_protocol name p =
      if bytes_eq name (codes "tcp")
      then is_tcp p
      else if bytes_eq name (codes "udp")
      then is_udp p
      else false

  unfoldable pub condition : Bytes → Bytes → Packet → Bool
  unfolding bytes_eq
  condition option value k =
      if bytes_eq option (codes "-o")
      then k.local && bytes_eq value (codes "lo")
      else if bytes_eq option (codes "-p")
      then meets_protocol value k.protocol
      else if bytes_eq option (codes "--dport") || bytes_eq option (codes "--dports")
      then member k.port (ports_of value)
      else bytes_eq option (codes "-m") || bytes_eq option (codes "-j")

  unfoldable pub meets : List Bytes → Packet → Bool
  unfolding condition
  meets [] k = true
  meets (option ∷ []) k = false
  meets (option ∷ value ∷ ws) k = condition option value k && meets ws k

  unfoldable pub jump_of : List Bytes → Option Verdict
  unfolding bytes_eq
  jump_of [] = none
  jump_of (option ∷ []) = none
  jump_of (option ∷ value ∷ ws) =
      let rest = jump_of ws in
      if bytes_eq option (codes "-j")
      then (if bytes_eq value (codes "REJECT")
          then some rejected
          else if bytes_eq value (codes "RETURN")
          then some returned
          else none)
      else rest

  abbrev pub or_later : Option Verdict → Verdict → Verdict
  or_later none later = later
  or_later (some v) later = v

  -- The first rule that a packet meets decides; the end of a chain returns.
  unfoldable pub verdict : List (List Bytes) → Packet → Verdict
  unfolding meets jump_of
  verdict [] k = returned
  verdict (ws ∷ rules) k =
      let later = verdict rules k in if meets ws k then or_later (jump_of ws) later else later

-- What the words of each rule come to.
abbrev matches : Rule → Packet → Bool
matches (local_ports ps) k = k.local && is_tcp k.protocol && member k.port ps
matches local_udp_dns k = k.local && is_udp k.protocol && eqb_ℤ k.port (pos 53)
matches local_tcp_dns k = k.local && is_tcp k.protocol && eqb_ℤ k.port (pos 53)
matches local_reject k = k.local
matches smtp_reject k = is_tcp k.protocol && eqb_ℤ k.port (pos 25)
matches return_all k = true

abbrev target : Rule → Verdict
target local_reject = rejected
target smtp_reject = rejected
target _ = returned

decided : List Rule → Packet → Verdict
decided [] k = returned
decided (r ∷ rs) k = let rest = decided rs k in if matches r k then target r else rest

-- Services of this server are out of reach but for DNS and the ports that are let through, and mail
-- goes nowhere, as far as the configuration asks for it.
abbrev pub local_policy : Bool → Packet → Verdict
local_policy granted k =
    if is_tcp k.protocol && granted
    then returned
    else if (is_tcp k.protocol || is_udp k.protocol) && eqb_ℤ k.port (pos 53)
    then returned
    else rejected

abbrev pub mail_policy : Bool → Packet → Verdict
mail_policy block k =
    if block && is_tcp k.protocol && eqb_ℤ k.port (pos 25) then rejected else returned

unfoldable pub policy : Config → Packet → Verdict
policy c k =
    if c.firewall.block_local && k.local
    then local_policy (member k.port (allowed c)) k
    else mail_policy (c.firewall.block_smtp) k

any-append : (p : ℤ) (ps qs : List ℤ) → member p (ps ++ qs) ≡ (member p ps || member p qs)
any-append p [] qs = refl
any-append p (q ∷ ps) qs = ground (arith, any-append p ps qs)

decided-ports :
    (pss : List (List ℤ)) (rs : List Rule) (k : Packet)
    → decided (map local_ports pss ++ rs) k ≡ (
        if k.local && is_tcp k.protocol && member k.port (concat pss)
        then returned
        else decided rs k)
unfolding decided concat
decided-ports [] rs k = ground arith
decided-ports (ps ∷ pss) rs k =
    ground (arith, decided-ports pss rs k, any-append k.port ps (concat pss))

-- The rules that follow those for the ports.
decided-tail :
    (granted mail : Bool) (k : Packet)
    → (if k.local && is_tcp k.protocol && granted
        then returned
        else decided
            ((local_udp_dns ∷ local_tcp_dns ∷ local_reject ∷ [])
              ++ (if mail then smtp_reject ∷ [] else [])
              ++ (return_all ∷ []))
            k)
      ≡ (if k.local then local_policy granted k else mail_policy mail k)
unfolding decided
decided-tail free true k = ground arith
decided-tail free false k = ground arith

by_local :
    (local mail : Bool) (ps : List ℤ) (k : Packet)
    → decided
        ((if local
            then map local_ports (chunks ps) ++ (local_udp_dns ∷ local_tcp_dns ∷ local_reject ∷ [])
            else [])
          ++ (if mail then smtp_reject ∷ [] else [])
          ++ (return_all ∷ []))
        k
      ≡ (if local && k.local then local_policy (member k.port ps) k else mail_policy mail k)
unfolding IsCut
by_local true mail ps k =
    let dns = local_udp_dns ∷ local_tcp_dns ∷ local_reject ∷ [] in
    let mails = if mail then smtp_reject ∷ [] else [] in
    ap (λ rs. decided (rs ++ (return_all ∷ [])) k)
      (append_assoc (map local_ports (chunks ps)) dns mails)
    ∙ ap (λ rs. decided rs k)
        (append_assoc (map local_ports (chunks ps)) (dns ++ mails) (return_all ∷ []))
    ∙ decided-ports (chunks ps) ((dns ++ mails) ++ (return_all ∷ [])) k
    ∙ ap
        (λ qs.
          if k.local && is_tcp k.protocol && member k.port qs
          then returned
          else decided ((dns ++ mails) ++ (return_all ∷ [])) k)
        (chunks-IsCut ps).0
    ∙ decided-tail (member k.port ps) mail k
by_local false true ps k = unfold decided in ground arith
by_local false false ps k = unfold decided in ground arith

rules-policy : (c : Config) (k : Packet) → decided (rules c) k ≡ policy c k
unfolding rules policy
rules-policy c k = by_local (c.firewall.block_local) (c.firewall.block_smtp) (allowed c) k

module _ (ports_of : Bytes → List ℤ) (dns : ports_of (codes "53") ≡ pos 53 ∷ [])
    (smtp : ports_of (codes "25") ≡ pos 25 ∷ []) where
  -- iptables reads back the ports of a rule.
  abbrev Reads : Rule → Type 0
  Reads (local_ports ps) = ports_of (join b',' (map itoa ps)) ≡ ps
  Reads _ = Unit {0}

  meets-matches : (r : Rule) (k : Packet) → Reads r → meets ports_of (words r) k ≡ matches r k
  unfolding meets words
  meets-matches (local_ports ps) k e = rw e (ground arith)
  meets-matches local_udp_dns k e = rw dns (ground arith)
  meets-matches local_tcp_dns k e = rw dns (ground arith)
  meets-matches local_reject k e = ground arith
  meets-matches smtp_reject k e = rw smtp (ground arith)
  meets-matches return_all k e = refl

  jump_of-target : (r : Rule) → jump_of ports_of (words r) ≡ some (target r)
  unfolding jump_of words
  jump_of-target (local_ports ps) = refl
  jump_of-target local_udp_dns = refl
  jump_of-target local_tcp_dns = refl
  jump_of-target local_reject = refl
  jump_of-target smtp_reject = refl
  jump_of-target return_all = refl

  verdict-decided :
      (rs : List Rule) (k : Packet)
      → All Reads rs
      → verdict ports_of (map words rs) k ≡ decided rs k
  unfolding verdict decided
  verdict-decided [] k h = refl
  verdict-decided (r ∷ rs) k h =
      rw (meets-matches r k h.0, jump_of-target r, verdict-decided rs k h.1) refl

  ports-Reads :
      (pss : List (List ℤ)) (rs : List Rule)
      → All (λ ps. ports_of (join b',' (map itoa ps)) ≡ ps) pss
      → All Reads rs
      → All Reads (map local_ports pss ++ rs)
  ports-Reads [] rs h k = k
  ports-Reads (ps ∷ pss) rs h k = (h.0, ports-Reads pss rs h.1 k)

  rules-Reads :
      (c : Config)
      → All (λ ps. ports_of (join b',' (map itoa ps)) ≡ ps) (chunks (allowed c))
      → All Reads (rules c)
  unfolding rules
  rules-Reads c h =
      let locals =
        if c.firewall.block_local
        then map local_ports (chunks (allowed c))
          ++ (local_udp_dns ∷ local_tcp_dns ∷ local_reject ∷ [])
        else [] in
      let mails = if c.firewall.block_smtp then smtp_reject ∷ [] else [] in
      All-append Reads (locals ++ mails) (return_all ∷ [])
        (All-append Reads locals mails
          (if-both (All Reads) (c.firewall.block_local) _ _
            (λ _. ports-Reads (chunks (allowed c)) _ h (tt, (tt, (tt, tt)))) (λ _. tt))
          (if-both (All Reads) (c.firewall.block_smtp) _ _ (λ _. (tt, tt)) (λ _. tt)))
        (tt, tt)

  -- Read as iptables documents its words, the rules decide on every packet as the policy says: a
  -- local packet is let through where its port is allowed or it is DNS and rejected otherwise, if
  -- local services are blocked; mail is rejected, if that is asked for; everything else is let
  -- through. It is assumed that iptables reads back the two fixed ports and the lists of ports that
  -- the rules of this configuration have.
  pub verdict-rules :
      (c : Config) (k : Packet)
      → All (λ ps. ports_of (join b',' (map itoa ps)) ≡ ps) (chunks (allowed c))
      → verdict ports_of (map words (rules c)) k ≡ policy c k
  verdict-rules c k h = verdict-decided (rules c) k (rules-Reads c h) ∙ rules-policy c k
