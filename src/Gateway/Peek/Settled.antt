-- ===== src/Gateway/Peek/Settled.antt =====
-- However the bytes of a connection arrive, the sniffing loop answers what the whole start says.
use ssh_vpn.Common.{
  ℕ, if-both, ◌||◌, not, ◌≤◌, Bytes, length, length-append, ◌==◌, Bool, true, false, List, [], ◌∷◌,
  ◌++◌, append-nil, Option, some, ◌≡◌, refl, ap, ◌∙◌, arith, Bool-cases, inl, inr,
}
use ssh_vpn.Gateway.Sniff.{Kind, classify}
use ssh_vpn.Gateway.Sniff.Stable.{classify-append}
use ssh_vpn.Gateway.Request.{HeaderError, timed_out, too_large, socket, Peeked, waiting, broken}
use ssh_vpn.Gateway.Request.Reading.{has_end}
use ssh_vpn.Gateway.Peek.{silent, of_error, Sniffed, classified, peek_turn, peek_classify, buf_len}

-- Each peek shows a part of the start, from its first byte on.
unfoldable pub Peeks : Bytes → List Peeked → Type 0
Peeks start [] = Unit {0}
Peeks start (broken e ∷ ps) = Peeks start ps
Peeks start (waiting b over ∷ ps) = ((rest : Bytes) × (start ≡ b ++ rest)) × Peeks start ps

-- A part that is as long as the buffer is all of it.
whole : (start b rest : Bytes) → length start ≤ length b → start ≡ b ++ rest → start ≡ b
whole start b [] h e = e ∙ append-nil b
whole start b (x ∷ rest) h e = absurd (omega (arith, ap length e, length-append b (x ∷ rest)))

turn-Settled :
    (start b rest : Bytes) (over : Bool) (known : Kind × Bool) (later : Option Sniffed) (k : Kind)
    → length start ≤ buf_len
    → classify b ≡ known
    → start ≡ b ++ rest
    → (later ≡ some (classified k) → (classify start).0 ≡ k)
    → peek_turn (length b) over known later ≡ some (classified k)
    → (classify start).0 ≡ k
turn-Settled start b rest over (j, false) later k fits known split more e =
    ap (λ s. (classify s).0) split ∙ ap (λ r. r.0) (classify-append b rest known) ∙ cc
turn-Settled start b rest true (j, true) later k fits known split more e =
    elim (Bool-cases (length b == buf_len)) [
      | inl full ↦
          ap (λ s. (classify s).0) (whole start b rest (ground arith) split)
          ∙ ap (λ r. r.0) known
          ∙ cc (rw full at e)
      | inr short ↦ absurd (cc (rw short at e))
    ]
turn-Settled start b rest false (j, true) later k fits known split more e =
    elim (Bool-cases (length b == buf_len)) [
      | inl full ↦
          ap (λ s. (classify s).0) (whole start b rest (ground arith) split)
          ∙ ap (λ r. r.0) known
          ∙ cc (rw full at e)
      | inr short ↦ more (rw short at e)
    ]

settled_by :
    (start : Bytes) (ps : List Peeked) (k : Kind)
    → length start ≤ buf_len
    → Peeks start ps
    → peek_classify ps ≡ some (classified k)
    → (classify start).0 ≡ k
unfolding peek_classify Peeks
settled_by start [] k fits seen e = absurd (cc)
settled_by start (broken x ∷ ps) k fits seen e = broken_turn x e
  where
    broken_turn :
        (x : HeaderError) → some (of_error x) ≡ some (classified k) → (classify start).0 ≡ k
    broken_turn timed_out e = absurd (cc)
    broken_turn too_large e = absurd (cc)
    broken_turn socket e = absurd (cc)
settled_by start (waiting b over ∷ ps) k fits ((rest, split), seen) e =
    turn-Settled start b rest over (classify b) (peek_classify ps) k fits refl split
      (settled_by start ps k fits seen) e

turn-some :
    (n : ℕ) (over : Bool) (known : Kind × Bool) (later : Option Sniffed) (more : Bool)
    → (over || more) ≡ true
    → (more ≡ true → (s : Sniffed) × (later ≡ some s))
    → (s : Sniffed) × (peek_turn n over known later ≡ some s)
turn-some n true (k, m) later more e f =
    if-both (λ (o : Option Sniffed). (s : Sniffed) × (o ≡ some s)) (not m || n == buf_len) _ _
      (λ _. (classified k, refl)) (λ _. (silent, refl))
turn-some n false (k, m) later more e f =
    if-both (λ (o : Option Sniffed). (s : Sniffed) × (o ≡ some s)) (not m || n == buf_len) _ later
      (λ _. (classified k, refl)) (λ _. f e)

answers : (ps : List Peeked) → has_end ps ≡ true → (s : Sniffed) × (peek_classify ps ≡ some s)
unfolding peek_classify has_end
answers [] e = absurd (cc)
answers (broken x ∷ ps) e = (of_error x, refl)
answers (waiting b over ∷ ps) e =
    turn-some (length b) over (classify b) (peek_classify ps) (has_end ps) e (answers ps)

-- In whatever pieces the first 16 bytes of a connection arrive, `peekClassify` has an answer once the
-- socket breaks or the deadline is over; and where that is a kind, it is the one that `classify`
-- gives to those bytes as a whole.
pub peek_classify-Settled :
    (start : Bytes) (ps : List Peeked)
    → length start ≤ buf_len
    → Peeks start ps
    → has_end ps ≡ true
    → (s : Sniffed) × (peek_classify ps ≡ some s)
      × ((k : Kind) → s ≡ classified k → (classify start).0 ≡ k)
peek_classify-Settled start ps fits seen e =
    let (s, answered) = answers ps e in
    (s, answered, λ k h. settled_by start ps k fits seen (answered ∙ ap some h))
