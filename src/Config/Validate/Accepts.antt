-- ===== src/Config/Validate/Accepts.antt =====
-- `Validate` accepts exactly the configurations that a description without a program accepts.
use ssh_vpn.Common.{
  ℤ, pos, Bytes, codes, bytes_eq_iff, Bool, true, false, List, [], ◌∷◌, ◌++◌, map, All, Option,
  none, some, ◌≤ℤ◌, ◌⊎◌, inl, inr, ◌↔◌, ◌≡◌, refl, sym, ap, ◌∙◌, subst, arith,
}
use ssh_vpn.Config.{Config}
use ssh_vpn.Config.Ports.{contains}
use ssh_vpn.Config.Validate.{
  Section, ssh_ports, udpgw_ports, gateway_ports, ConfigError, used_twice, check, Owners, owner_of,
  claim, claim_if, and_then, claims, ◌orelse◌, count_colons, mode_error, policy_error,
  startups_error, validate,
}

abbrev pub IsPort : ℤ → Type 0
IsPort p = (pos 1 ≤ℤ p) × (p ≤ℤ pos 65535)

-- No member of the list stands in `seen` or before itself.
abbrev pub Fresh : List ℤ → List ℤ → Type 0
Fresh seen [] = Unit {0}
Fresh seen (p ∷ ps) = (contains seen p ≡ false) × Fresh (p ∷ seen) ps

-- The ports of an enabled component.
abbrev pub active : Bool → List ℤ → List ℤ
active true ps = ps
active false ps = []

-- The ports the daemon would listen on, with `sshd`'s first.
abbrev pub listened : Config → List ℤ
listened c =
    c.ssh.ports
    ++ (active (c.gateway.enabled) (c.gateway.ports) ++ active (c.udpgw.enabled) (c.udpgw.ports))

pub record IsValid (c : Config) : Type 0 where
  ssh : All IsPort (c.ssh.ports)
  udpgw : All IsPort (c.udpgw.ports)
  gateway : All IsPort (c.gateway.ports)
  mode : (c.udpgw.mode ≡ codes "builtin") ⊎ (c.udpgw.mode ≡ codes "badvpn")
  policy : (c.limiter.policy ≡ codes "oldest") ⊎ (c.limiter.policy ≡ codes "newest")
  startups : (count_colons (c.ssh.max_startups) ≡ 2) ⊎ (count_colons (c.ssh.max_startups) ≡ 0)
  once : Fresh [] (listened c)

check_iff : (s : Section) (ps : List ℤ) → (check s ps ≡ none) ↔ All IsPort ps
unfolding check
check_iff s [] = ((λ _. tt), (λ _. refl))
check_iff s (p ∷ ps) = ground (arith, check_iff s ps)

mode_error_iff :
    (m : Bytes) → (mode_error m ≡ none) ↔ ((m ≡ codes "builtin") ⊎ (m ≡ codes "badvpn"))
unfolding mode_error
mode_error_iff m = ground (arith, bytes_eq_iff m (codes "builtin"), bytes_eq_iff m (codes "badvpn"))

policy_error_iff :
    (m : Bytes) → (policy_error m ≡ none) ↔ ((m ≡ codes "oldest") ⊎ (m ≡ codes "newest"))
unfolding policy_error
policy_error_iff m =
    ground (arith, bytes_eq_iff m (codes "oldest"), bytes_eq_iff m (codes "newest"))

startups_error_iff :
    (s : Bytes) → (startups_error s ≡ none) ↔ ((count_colons s ≡ 2) ⊎ (count_colons s ≡ 0))
unfolding startups_error
startups_error_iff s = ground arith

orelse_iff : (a b : Option ConfigError) → ((a orelse b) ≡ none) ↔ ((a ≡ none) × (b ≡ none))
unfolding ◌orelse◌
orelse_iff none b = ((λ e. (refl, e)), (λ h. h.1))
orelse_iff (some e) b = ((λ h. absurd (cc)), (λ h. absurd (cc)))

ports_of : Owners → List ℤ
ports_of o = map (λ e. e.0) o

owner_of_iff : (p : ℤ) (o : Owners) → (owner_of p o ≡ none) ↔ (contains (ports_of o) p ≡ false)
unfolding owner_of contains ports_of
owner_of_iff p [] = ((λ _. refl), (λ _. refl))
owner_of_iff p ((q, s) ∷ o) = ground (arith, owner_of_iff p o)

-- The ports of `ps` put on `seen`, the last one first.
after : List ℤ → List ℤ → List ℤ
after [] seen = seen
after (p ∷ ps) seen = after ps (p ∷ seen)

Fresh-append_iff :
    (seen ps qs : List ℤ) → Fresh seen (ps ++ qs) ↔ (Fresh seen ps × Fresh (after ps seen) qs)
unfolding after
Fresh-append_iff seen [] qs = ((λ h. (tt, h)), (λ h. h.1))
Fresh-append_iff seen (p ∷ ps) qs = (
  (λ h. let both = (Fresh-append_iff (p ∷ seen) ps qs).0 h.1 in ((h.0, both.0), both.1)),
  (λ h. (h.0.0, (Fresh-append_iff (p ∷ seen) ps qs).1 (h.0.1, h.1))),
)

-- A claim that goes through, with the owners it leaves.
Claimed : ConfigError ⊎ Owners → List ℤ → Type 0
Claimed r ports = (o : Owners) × (r ≡ inr o) × (ports_of o ≡ ports)

claim-Fresh :
    (s : Section) (ps : List ℤ) (o : Owners)
    → Fresh (ports_of o) ps
    → Claimed (claim s ps o) (after ps (ports_of o))
unfolding claim Claimed after ports_of
claim-Fresh s [] o h = (o, refl, refl)
claim-Fresh s (p ∷ ps) o h =
    rw ((owner_of_iff p o).1 h.0, claim) (claim-Fresh s ps ((p, s) ∷ o) h.1)

claim-inr :
    (s : Section) (ps : List ℤ) (o o' : Owners) → claim s ps o ≡ inr o' → Fresh (ports_of o) ps
unfolding claim ports_of
claim-inr s [] o o' h = tt
claim-inr s (p ∷ ps) o o' h = by_owner (owner_of p o) refl h (claim-inr s ps ((p, s) ∷ o) o')
  where
    by_owner :
        (prev : Option Section)
        → owner_of p o ≡ prev
        → elim prev [ some q ↦ inl (used_twice p q s) | none ↦ claim s ps ((p, s) ∷ o) ] ≡ inr o'
        → (claim s ps ((p, s) ∷ o) ≡ inr o' → Fresh (p ∷ ports_of o) ps)
        → Fresh (ports_of o) (p ∷ ps)
    by_owner none e h ih = ((owner_of_iff p o).0 e, ih h)
    by_owner (some prev) e h ih = absurd (cc)

claim_if-active :
    (b : Bool) (s : Section) (ps : List ℤ) (o : Owners)
    → claim_if b s ps o ≡ claim s (active b ps) o
unfolding claim_if claim
claim_if-active true s ps o = refl
claim_if-active false s ps o = refl

and_then-inr :
    (r : ConfigError ⊎ Owners) (rest : Owners → Option ConfigError)
    → and_then r rest ≡ none
    → (o : Owners) × (r ≡ inr o) × (rest o ≡ none)
unfolding and_then
and_then-inr (inl e) rest h = absurd (cc)
and_then-inr (inr o) rest h = (o, refl, h)

claims-Fresh : (c : Config) → Fresh [] (listened c) → claims c ≡ none
unfolding claims and_then Claimed ports_of
claims-Fresh c h =
    let gate = active (c.gateway.enabled) (c.gateway.ports) in
    let udp = active (c.udpgw.enabled) (c.udpgw.ports) in
    let cut = (Fresh-append_iff [] (c.ssh.ports) (gate ++ udp)).0 h in
    let cut' = (Fresh-append_iff (after (c.ssh.ports) []) gate udp).0 cut.1 in
    let (o1, e1, k1) = claim-Fresh ssh_ports (c.ssh.ports) [] cut.0 in
    let (o2, e2, k2) =
      claim-Fresh gateway_ports gate o1 (subst (λ s. Fresh s gate) (sym k1) cut'.0) in
    let (o3, e3, k3) =
      claim-Fresh udpgw_ports udp o2
        (subst (λ s. Fresh s udp) (sym (k2 ∙ ap (after gate) k1)) cut'.1) in
    rw (e1, claims, and_then)
      (rw (claim_if-active (c.gateway.enabled) gateway_ports (c.gateway.ports) o1 ∙ e2)
        (rw (claim_if-active (c.udpgw.enabled) udpgw_ports (c.udpgw.ports) o2 ∙ e3) refl))

claim-after :
    (s : Section) (ps : List ℤ) (o o' : Owners)
    → claim s ps o ≡ inr o'
    → ports_of o' ≡ after ps (ports_of o)
unfolding Claimed
claim-after s ps o o' h =
    let (made, e, k) = claim-Fresh s ps o (claim-inr s ps o o' h) in
    ap ports_of (inr-inj o' made (sym h ∙ e)) ∙ k
  where
    inr-inj : (a b : Owners) → Path (ConfigError ⊎ Owners) (inr a) (inr b) → a ≡ b
    inr-inj a b e = cc

claims-none : (c : Config) → claims c ≡ none → Fresh [] (listened c)
unfolding claims ports_of
claims-none c h =
    let gate = active (c.gateway.enabled) (c.gateway.ports) in
    let udp = active (c.udpgw.enabled) (c.udpgw.ports) in
    let (o1, e1, h1) = and_then-inr (claim ssh_ports (c.ssh.ports) []) _ h in
    let (o2, e2, h2) =
      and_then-inr (claim_if (c.gateway.enabled) gateway_ports (c.gateway.ports) o1) _ h1 in
    let (o3, e3, h3) =
      and_then-inr (claim_if (c.udpgw.enabled) udpgw_ports (c.udpgw.ports) o2) _ h2 in
    let f2 = sym (claim_if-active (c.gateway.enabled) gateway_ports (c.gateway.ports) o1) ∙ e2 in
    let f3 = sym (claim_if-active (c.udpgw.enabled) udpgw_ports (c.udpgw.ports) o2) ∙ e3 in
    let k1 = claim-after ssh_ports (c.ssh.ports) [] o1 e1 in
    let k2 = claim-after gateway_ports gate o1 o2 f2 in
    (Fresh-append_iff [] (c.ssh.ports) (gate ++ udp)).1 (
      claim-inr ssh_ports (c.ssh.ports) [] o1 e1,
      (Fresh-append_iff (after (c.ssh.ports) []) gate udp).1 (
        subst (λ s. Fresh s gate) k1 (claim-inr gateway_ports gate o1 o2 f2),
        subst (λ s. Fresh s udp) (k2 ∙ ap (after gate) k1) (claim-inr udpgw_ports udp o2 o3 f3),
      ),
    )

-- `Validate` returns no error for exactly the configurations with: every port of the three
-- lists in 1 to 65535; the mode `builtin` or `badvpn`; the policy `oldest` or `newest`; no
-- colon or two in `max_startups`; and no port listed twice among `sshd`'s and those of the
-- enabled ones of gateway and udpgw.
pub validate_iff : (c : Config) → (validate c ≡ none) ↔ IsValid c
unfolding validate
validate_iff c = (sound, complete)
  where
    sound : validate c ≡ none → IsValid c
    sound h =
        let s1 = (orelse_iff (check ssh_ports (c.ssh.ports)) _).0 h in
        let s2 = (orelse_iff (check udpgw_ports (c.udpgw.ports)) _).0 s1.1 in
        let s3 = (orelse_iff (check gateway_ports (c.gateway.ports)) _).0 s2.1 in
        let s4 = (orelse_iff (mode_error (c.udpgw.mode)) _).0 s3.1 in
        let s5 = (orelse_iff (policy_error (c.limiter.policy)) _).0 s4.1 in
        let s6 = (orelse_iff (startups_error (c.ssh.max_startups)) _).0 s5.1 in
        record {
          ssh = (check_iff ssh_ports (c.ssh.ports)).0 s1.0;
          udpgw = (check_iff udpgw_ports (c.udpgw.ports)).0 s2.0;
          gateway = (check_iff gateway_ports (c.gateway.ports)).0 s3.0;
          mode = (mode_error_iff (c.udpgw.mode)).0 s4.0;
          policy = (policy_error_iff (c.limiter.policy)).0 s5.0;
          startups = (startups_error_iff (c.ssh.max_startups)).0 s6.0;
          once = claims-none c s6.1;
        }

    complete : IsValid c → validate c ≡ none
    complete v = (orelse_iff (check ssh_ports (c.ssh.ports)) _).1 (
      (check_iff ssh_ports (c.ssh.ports)).1 (v.ssh),
      (orelse_iff (check udpgw_ports (c.udpgw.ports)) _).1 (
        (check_iff udpgw_ports (c.udpgw.ports)).1 (v.udpgw),
        (orelse_iff (check gateway_ports (c.gateway.ports)) _).1 (
          (check_iff gateway_ports (c.gateway.ports)).1 (v.gateway),
          (orelse_iff (mode_error (c.udpgw.mode)) _).1 (
            (mode_error_iff (c.udpgw.mode)).1 (v.mode),
            (orelse_iff (policy_error (c.limiter.policy)) _).1 (
              (policy_error_iff (c.limiter.policy)).1 (v.policy),
              (orelse_iff (startups_error (c.ssh.max_startups)) (claims c)).1 (
                (startups_error_iff (c.ssh.max_startups)).1 (v.startups),
                claims-Fresh c (v.once),
              ),
            ),
          ),
        ),
      ),
    )
