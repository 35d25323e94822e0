-- ===== src/Procfs/Name.antt =====
-- The name of a process, whatever it holds.
use ssh_vpn.Common.{
  ℕ, zero, suc, ◌<◌, Bytes, ◌==◌, length, get_elem?, All, List, false, [], ◌∷◌, ◌++◌, none, some,
  ◌≡◌, refl, ap, ◌∙◌, arith,
}
use ssh_vpn.Common.Text.{cut, fields}
use ssh_vpn.Procfs.{
  stat, atoi_value, parse_uint, or_here, last_cut, stat_of, with_rest, with_name, parse_stat,
}

abbrev pub Lacks : ℕ → Bytes → Type 0
Lacks c s = All (λ x. (x == c) ≡ false) s

get_elem?-lt : (xs : List Bytes) (n : ℕ) {x : Bytes} → get_elem? xs n ≡ some x → n < length xs
get_elem?-lt [] n e = absurd (cc)
get_elem?-lt (y ∷ ys) zero e = omega arith
get_elem?-lt (y ∷ ys) (suc n) e = omega (arith, get_elem?-lt ys n e)

last_cut-Lacks : (c : ℕ) (s : Bytes) → Lacks c s → last_cut c s ≡ none
unfolding last_cut
last_cut-Lacks c [] h = refl
last_cut-Lacks c (x ∷ s) h = ap (or_here c x s) (last_cut-Lacks c s h.1) ∙ rw h.0 refl

last_cut-append : (c : ℕ) (b t : Bytes) → Lacks c t → last_cut c (b ++ (c ∷ t)) ≡ some (b, t)
unfolding last_cut
last_cut-append c [] t h = ap (or_here c c t) (last_cut-Lacks c t h) ∙ ground arith
last_cut-append c (x ∷ b) t h = ap (or_here c x (b ++ (c ∷ t))) (last_cut-append c b t h)

cut-append : (c : ℕ) (b t : Bytes) → Lacks c b → cut c (b ++ (c ∷ t)) ≡ some (b, t)
unfolding cut
cut-append c [] t h = ground arith
cut-append c (x ∷ b) t h = rw (h.0, cut-append c b t h.1) refl

at_name :
    (before comm behind : Bytes)
    → Lacks b'(' before
    → Lacks b')' behind
    → parse_stat ((before ++ (b'(' ∷ comm)) ++ (b')' ∷ behind)) ≡ stat_of comm (fields behind)
unfolding parse_stat
at_name before comm behind hb ha =
    ap with_rest (last_cut-append b')' (before ++ (b'(' ∷ comm)) behind ha)
    ∙ ap (with_name behind) (cut-append b'(' before comm hb)

-- Where the fields behind the name are a state, a parent and others, the 18th of which is a start
-- time, `parseStat` gives back the name that the kernel put in brackets, whatever bytes the name
-- has, spaces and brackets too, with the numbers that the parent and the start time stand for.
pub parse_stat-name :
    (before comm behind state parent ticks : Bytes) (more : List Bytes)
    → Lacks b'(' before
    → Lacks b')' behind
    → fields behind ≡ state ∷ parent ∷ more
    → get_elem? more 17 ≡ some ticks
    → parse_stat ((before ++ (b'(' ∷ comm)) ++ (b')' ∷ behind))
      ≡ stat (record {
        comm = comm;
        ppid = atoi_value parent;
        start_ticks = (parse_uint 10 64 ticks).0;
      })
unfolding stat_of
parse_stat-name before comm behind state parent ticks more hb ha f t =
    at_name before comm behind hb ha ∙ ap (stat_of comm) f ∙ ground (arith, get_elem?-lt more 17 t)
