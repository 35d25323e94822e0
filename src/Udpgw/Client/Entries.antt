-- ===== src/Udpgw/Client/Entries.antt =====
-- The map of a client under `delete`, insertion and the filters of `reapFlows`.
use ssh_vpn.Common.{
  ℕ, suc, ◌+◌, List, [], ◌∷◌, ◌++◌, none, some, ◌==◌, length, get_elem?, ◌≡◌, ◌≢◌, refl, sym, ap,
  ◌∙◌, arith, get_elem?-append, inl, inr, Bool-cases, ==_iff,
}
use ssh_vpn.Common.Assoc.{lookup, erase, insert}
use ssh_vpn.Udpgw.Flow.{Flow}
use ssh_vpn.Udpgw.Client.{stale, fresh, is_stale}
use ssh_vpn.Udpgw.Client.Owned.{IsOpen, Opens, Fresh, Distinct, Apart, count_open, open_value}

pub lookup-Opens :
    (objs : List Flow) (k i : ℕ) (m : List (ℕ × ℕ))
    → Opens objs m
    → lookup k m ≡ some i
    → IsOpen objs k i
unfolding lookup
lookup-Opens objs k i [] o e = absurd (cc)
lookup-Opens objs k i ((l, j) ∷ m) (p, o) e = elim (Bool-cases (l == k)) [
  | inl hit ↦
      let same : j ≡ i = ground (arith, rw hit at e) in
      let (f, q, a, u) = p in (f, cc (q, ap (get_elem? objs) same), a ∙ (==_iff l k).0 hit, u)
  | inr miss ↦ lookup-Opens objs k i m o (rw miss at e)
]

pub lookup-Fresh : (k : ℕ) (m : List (ℕ × ℕ)) → Fresh k m → lookup k m ≡ none
unfolding lookup
lookup-Fresh k [] f = refl
lookup-Fresh k ((j, i) ∷ m) f = ground (arith, lookup-Fresh k m)

pub Fresh-of_lookup : (k : ℕ) (m : List (ℕ × ℕ)) → lookup k m ≡ none → Fresh k m
unfolding lookup
Fresh-of_lookup k [] e = tt
Fresh-of_lookup k ((j, i) ∷ m) e = ground (arith, Fresh-of_lookup k m)

pub Fresh-erase_self : (k : ℕ) (m : List (ℕ × ℕ)) → Fresh k (erase k m)
unfolding erase
Fresh-erase_self k [] = tt
Fresh-erase_self k ((j, i) ∷ m) = ground (arith, Fresh-erase_self k m)

pub Fresh-erase : (j k : ℕ) (m : List (ℕ × ℕ)) → Fresh j m → Fresh j (erase k m)
unfolding erase
Fresh-erase j k [] f = tt
Fresh-erase j k ((l, i) ∷ m) f = ground (arith, Fresh-erase j k m)

pub Distinct-erase : (k : ℕ) (m : List (ℕ × ℕ)) → Distinct m → Distinct (erase k m)
unfolding erase
Distinct-erase k [] d = tt
Distinct-erase k ((l, i) ∷ m) (f, d) = ground (arith, Distinct-erase k m, Fresh-erase l k m f)

pub Opens-erase :
    (objs : List Flow) (k : ℕ) (m : List (ℕ × ℕ)) → Opens objs m → Opens objs (erase k m)
unfolding erase
Opens-erase objs k [] o = tt
Opens-erase objs k ((l, i) ∷ m) (p, o) = elim (Bool-cases (l == k)) [
  | inl hit ↦ rw hit (Opens-erase objs k m o)
  | inr miss ↦ rw miss (p, Opens-erase objs k m o)
]

erase-Fresh : (k : ℕ) (m : List (ℕ × ℕ)) → Fresh k m → erase k m ≡ m
unfolding erase
erase-Fresh k [] f = refl
erase-Fresh k ((l, i) ∷ m) f = ground (arith, erase-Fresh k m)

pub length-erase_exact :
    (k i : ℕ) (m : List (ℕ × ℕ))
    → Distinct m
    → lookup k m ≡ some i
    → suc (length (erase k m)) ≡ length m
unfolding lookup erase
length-erase_exact k i [] d e = absurd (cc)
length-erase_exact k i ((l, j) ∷ m) (f, d) e =
    ground (arith, length-erase_exact k i m d, ap (length {A = ℕ × ℕ}) (erase-Fresh l m f))

pub insert-Opens :
    (objs : List Flow) (k i : ℕ) (m : List (ℕ × ℕ))
    → IsOpen objs k i
    → Opens objs m
    → Opens objs (insert k i m)
unfolding insert
insert-Opens objs k i [] p o = (p, tt)
insert-Opens objs k i ((l, j) ∷ m) p (q, o) = elim (Bool-cases (l == k)) [
  | inl hit ↦ rw hit (p, o)
  | inr miss ↦ rw miss (q, insert-Opens objs k i m p o)
]

Fresh-insert : (j k i : ℕ) (m : List (ℕ × ℕ)) → k ≢ j → Fresh j m → Fresh j (insert k i m)
unfolding insert
Fresh-insert j k i [] ne f = (ne, tt)
Fresh-insert j k i ((l, o) ∷ m) ne f = ground (arith, Fresh-insert j k i m)

pub Distinct-insert :
    (k i : ℕ) (m : List (ℕ × ℕ)) → Fresh k m → Distinct m → Distinct (insert k i m)
unfolding insert
Distinct-insert k i [] f d = (tt, tt)
Distinct-insert k i ((l, j) ∷ m) (ne, f) (g, d) =
    ground (arith, Distinct-insert k i m f d, Fresh-insert l k i m (λ e. ne (sym e)) g)

pub Opens-append :
    (objs : List Flow) (g : Flow) (m : List (ℕ × ℕ)) → Opens objs m → Opens (objs ++ (g ∷ [])) m
Opens-append objs g [] o = tt
Opens-append objs g ((k, i) ∷ m) ((f, e, a, u), o) =
    ((f, get_elem?-append objs (g ∷ []) i e, a, u), Opens-append objs g m o)

pub count_open-append :
    (objs : List Flow) (g : Flow) → count_open (objs ++ (g ∷ [])) ≡ count_open objs + open_value g
count_open-append [] g = omega arith
count_open-append (f ∷ objs) g = omega (arith, count_open-append objs g)

-- The two halves of `reapFlows` split the map: nothing of a closed entry stays.
pub Fresh-fresh :
    (objs : List Flow) (t k : ℕ) (m : List (ℕ × ℕ)) → Fresh k m → Fresh k (fresh objs t m)
unfolding fresh
Fresh-fresh objs t k [] f = tt
Fresh-fresh objs t k ((l, i) ∷ m) f = ground (arith, Fresh-fresh objs t k m)

pub Fresh-stale :
    (objs : List Flow) (t k : ℕ) (m : List (ℕ × ℕ)) → Fresh k m → Fresh k (stale objs t m)
unfolding stale
Fresh-stale objs t k [] f = tt
Fresh-stale objs t k ((l, i) ∷ m) f = ground (arith, Fresh-stale objs t k m)

pub Distinct-fresh :
    (objs : List Flow) (t : ℕ) (m : List (ℕ × ℕ)) → Distinct m → Distinct (fresh objs t m)
unfolding fresh
Distinct-fresh objs t [] d = tt
Distinct-fresh objs t ((l, i) ∷ m) (f, d) =
    ground (arith, Distinct-fresh objs t m d, Fresh-fresh objs t l m f)

pub Distinct-stale :
    (objs : List Flow) (t : ℕ) (m : List (ℕ × ℕ)) → Distinct m → Distinct (stale objs t m)
unfolding stale
Distinct-stale objs t [] d = tt
Distinct-stale objs t ((l, i) ∷ m) (f, d) =
    ground (arith, Distinct-stale objs t m d, Fresh-stale objs t l m f)

pub Opens-fresh :
    (objs os : List Flow) (t : ℕ) (m : List (ℕ × ℕ)) → Opens os m → Opens os (fresh objs t m)
unfolding fresh
Opens-fresh objs os t [] o = tt
Opens-fresh objs os t ((l, i) ∷ m) (p, o) = elim (Bool-cases (is_stale objs t i)) [
  | inl old ↦ rw old (Opens-fresh objs os t m o)
  | inr new ↦ rw new (p, Opens-fresh objs os t m o)
]

pub Opens-stale :
    (objs os : List Flow) (t : ℕ) (m : List (ℕ × ℕ)) → Opens os m → Opens os (stale objs t m)
unfolding stale
Opens-stale objs os t [] o = tt
Opens-stale objs os t ((l, i) ∷ m) (p, o) = elim (Bool-cases (is_stale objs t i)) [
  | inl old ↦ rw old (p, Opens-stale objs os t m o)
  | inr new ↦ rw new (Opens-stale objs os t m o)
]

Apart-cons :
    (es : List (ℕ × ℕ)) (k i : ℕ) (ks : List (ℕ × ℕ))
    → Fresh k es
    → Apart es ks
    → Apart es ((k, i) ∷ ks)
Apart-cons [] k i ks f a = tt
Apart-cons ((l, j) ∷ es) k i ks (ne, f) (g, a) = (((λ e. ne (sym e)), g), Apart-cons es k i ks f a)

pub Apart-stale-fresh :
    (objs : List Flow) (t : ℕ) (m : List (ℕ × ℕ))
    → Distinct m
    → Apart (stale objs t m) (fresh objs t m)
unfolding stale fresh
Apart-stale-fresh objs t [] d = tt
Apart-stale-fresh objs t ((l, i) ∷ m) (f, d) = elim (Bool-cases (is_stale objs t i)) [
  | inl old ↦ rw old (Fresh-fresh objs t l m f, Apart-stale-fresh objs t m d)
  | inr new ↦ rw new (
      Apart-cons (stale objs t m) l i (fresh objs t m) (Fresh-stale objs t l m f)
        (Apart-stale-fresh objs t m d))
]

pub length-stale-fresh :
    (objs : List Flow) (t : ℕ) (m : List (ℕ × ℕ))
    → length (stale objs t m) + length (fresh objs t m) ≡ length m
unfolding stale fresh
length-stale-fresh objs t [] = omega arith
length-stale-fresh objs t ((l, i) ∷ m) = ground (arith, length-stale-fresh objs t m)
