-- ===== src/Gateway/Handle/Rounds.antt =====
-- The stretches in which `handle` talks with the client come to an end.
use ssh_vpn.Common.{
  ℕ, suc, ◌-◌, ◌≤◌, ◌<◌, Bytes, ltb, ltb→lt, false, Option, none, some, if-both, arith,
}
use ssh_vpn.Gateway.Sniff.{unknown, ssh, http, tls, ws_frame}
use ssh_vpn.Gateway.Request.{Request}
use ssh_vpn.Gateway.Peek.{Sniffed, classified, silent, lost}
use ssh_vpn.Gateway.Front.{Peer}
use ssh_vpn.Gateway.Handle.{
  World, Talk, arrived, plain, greeting, secure, Outcome, talk_on, give_up, rounds, first_kind,
  plain_kind, plain_round, secure_request, secure_kind, converse,
}

-- How many stretches of talk are left at most.
unfoldable pub talk_rank : Talk → ℕ
talk_rank arrived = 7
talk_rank (plain n p) = 5 - n
talk_rank greeting = 6
talk_rank (secure n p) = 5 - n

unfoldable pub outcome_rank : Outcome → ℕ
unfolding talk_rank
outcome_rank (talk_on k) = suc (talk_rank k)
outcome_rank _ = 0

first_kind-rank : (w : World) (s : Sniffed) → outcome_rank (first_kind w s) ≤ 7
unfolding first_kind outcome_rank
first_kind-rank w lost = omega arith
first_kind-rank w silent = omega arith
first_kind-rank w (classified ssh) = omega arith
first_kind-rank w (classified http) = omega arith
first_kind-rank w (classified tls) = omega arith
first_kind-rank w (classified ws_frame) = omega arith
first_kind-rank w (classified unknown) = omega arith

plain_kind-rank :
    (n : ℕ) (p : Peer) (s : Sniffed) → n < rounds → outcome_rank (plain_kind n p s) ≤ 5 - n
unfolding plain_kind outcome_rank
plain_kind-rank n p lost h = omega arith
plain_kind-rank n p silent h = omega arith
plain_kind-rank n p (classified ssh) h = omega arith
plain_kind-rank n p (classified http) h = omega arith
plain_kind-rank n p (classified tls) h = omega arith
plain_kind-rank n p (classified ws_frame) h = omega arith
plain_kind-rank n p (classified unknown) h = omega arith

module _ (parse_ip : Bytes → Option Bytes) (w : World) where
  plain_round-rank :
      (n : ℕ) (p : Peer) (r : Option Request)
      → n < rounds
      → outcome_rank (plain_round parse_ip w n p r) ≤ 5 - n
  unfolding plain_round outcome_rank
  plain_round-rank n p none h = omega arith
  plain_round-rank n p (some r) h =
      if-both {A = Outcome} (λ o. outcome_rank o ≤ 5 - n) (w.written) _ (give_up false)
        (λ _. plain_kind-rank n _ (w.sniffed) h) (λ _. omega arith)

  secure_request-rank :
      (n : ℕ) (p : Peer) (r : Option Request)
      → n < rounds
      → outcome_rank (secure_request parse_ip w n p r) ≤ 5 - n
  unfolding secure_request outcome_rank
  secure_request-rank n p none h = omega arith
  secure_request-rank n p (some r) h =
      if-both {A = Outcome} (λ o. outcome_rank o ≤ 5 - n) (w.written) _ (give_up false)
        (λ _. omega arith) (λ _. omega arith)

  secure_kind-rank :
      (n : ℕ) (p : Peer) (s : Sniffed)
      → n < rounds
      → outcome_rank (secure_kind parse_ip w n p s) ≤ 5 - n
  unfolding secure_kind outcome_rank
  secure_kind-rank n p lost h = omega arith
  secure_kind-rank n p silent h = omega arith
  secure_kind-rank n p (classified ssh) h = omega arith
  secure_kind-rank n p (classified http) h = secure_request-rank n p (w.request) h
  secure_kind-rank n p (classified tls) h = omega arith
  secure_kind-rank n p (classified ws_frame) h = omega arith
  secure_kind-rank n p (classified unknown) h = omega arith

  -- The loops of four rounds end.
  pub converse-rank : (k : Talk) → outcome_rank (converse parse_ip w k) ≤ talk_rank k
  unfolding converse outcome_rank
  converse-rank arrived = first_kind-rank w (w.sniffed)
  converse-rank (plain n p) =
      if-both {A = Outcome} (λ o. outcome_rank o ≤ 5 - n) (ltb n rounds) _ (give_up false)
        (λ h. plain_round-rank n p (w.request) (ltb→lt n rounds h)) (λ _. omega arith)
  converse-rank greeting =
      if-both {A = Outcome} (λ o. outcome_rank o ≤ 6) (w.secured) _ (give_up false)
        (λ _. omega arith) (λ _. omega arith)
  converse-rank (secure n p) =
      if-both {A = Outcome} (λ o. outcome_rank o ≤ 5 - n) (ltb n rounds) _ (give_up false)
        (λ h. secure_kind-rank n p (w.sniffed) (ltb→lt n rounds h)) (λ _. omega arith)
