-- ===== src/Common/Text/Lines.antt =====
-- Texts as lines, and searches for a mark that has no newline.
use ssh_vpn.Common.Tests.{◌==◌}
use ssh_vpn.Common.Encoding.{Bytes, has_prefix}
use ssh_vpn.Common.Lists.{length, All, length-append}
use ssh_vpn.Common.Text.{index}
use ssh_vpn.Common.Text.Index.{here_or, index-here_or}
use Prim.Native.Nat.{ℕ, suc, ◌+◌, ◌<◌}
use mathlib.Core.Path.{◌≡◌, refl, sym, ap, ap₂, ◌∙◌}
use mathlib.Core.Bool.{Bool, true, false, not, ◌&&◌}
use mathlib.Core.List.{List, [], ◌∷◌, ◌++◌, append_assoc}
use mathlib.Core.Option.{Option, none, some}
use native.Mathlib.Omega.{arith}

-- Each line with its newline.
unfoldable pub unlines : List Bytes → Bytes
unlines [] = []
unlines (l ∷ ls) = l ++ (10 ∷ unlines ls)

pub unlines-append : (ls ms : List Bytes) → unlines (ls ++ ms) ≡ unlines ls ++ unlines ms
unfolding unlines
unlines-append [] ms = refl
unlines-append (l ∷ ls) ms =
    ap (λ s. l ++ (10 ∷ s)) (unlines-append ls ms)
    ∙ sym (append_assoc l (10 ∷ unlines ls) (unlines ms))

unfoldable pub one_line : Bytes → Bool
one_line [] = true
one_line (c ∷ l) = not (c == 10) && one_line l

abbrev pub OneLine : Bytes → Type 0
OneLine l = one_line l ≡ true

pub OneLine-cons : (c : ℕ) (l : Bytes) → OneLine (c ∷ l) → ((c == 10) ≡ false) × OneLine l
unfolding one_line
OneLine-cons c l h = (ground arith, ground arith)

has_prefix_line : (l m r : Bytes) → OneLine m → has_prefix (l ++ (10 ∷ r)) m ≡ has_prefix l m
unfolding has_prefix
has_prefix_line l [] r h = refl
has_prefix_line [] (p ∷ ps) r h = ground (arith, (OneLine-cons p ps h).0)
has_prefix_line (c ∷ l) (p ∷ ps) r h =
    ap (λ b. c == p && b) (has_prefix_line l ps r (OneLine-cons p ps h).1)

abbrev pub shift : ℕ → Option ℕ → Option ℕ
shift n none = none
shift n (some i) = some (n + i)

shift-here_or : (n : ℕ) (o : Option ℕ) → here_or false (shift n o) ≡ shift (suc n) o
unfolding here_or
shift-here_or n none = refl
shift-here_or n (some i) = ap some (omega arith)

shift-one : (o : Option ℕ) → here_or false o ≡ shift 1 o
unfolding here_or
shift-one none = refl
shift-one (some i) = ap some (omega arith)

shift_twice : (m n : ℕ) (o : Option ℕ) → shift m (shift n o) ≡ shift (m + n) o
shift_twice m n none = refl
shift_twice m n (some i) = ap some (omega arith)

pub shift-zero : (o : Option ℕ) → shift 0 o ≡ o
shift-zero none = refl
shift-zero (some i) = ap some (omega arith)

-- What `none` says of the first place and of the others.
here_or-none : (b : Bool) (o : Option ℕ) → here_or b o ≡ none → (b ≡ false) × (o ≡ none)
unfolding here_or
here_or-none true o e = absurd (cc)
here_or-none false none e = (refl, refl)
here_or-none false (some i) e = absurd (cc)

index-nil : (m : Bytes) → index [] m ≡ none → has_prefix [] m ≡ false
unfolding index has_prefix
index-nil [] e = absurd (cc)
index-nil (p ∷ ps) e = refl

-- A mark that a line does not have is searched for behind the line.
pub index-line :
    (l m r : Bytes)
    → OneLine m
    → index l m ≡ none
    → index (l ++ (10 ∷ r)) m ≡ shift (suc (length l)) (index r m)
index-line [] m r h e =
    index-here_or 10 r m
    ∙ ap (λ b. here_or b (index r m)) (has_prefix_line [] m r h ∙ index-nil m e)
    ∙ shift-one (index r m)
index-line (c ∷ l) m r h e =
    let (here, behind) =
      here_or-none (has_prefix (c ∷ l) m) (index l m) (sym (index-here_or c l m) ∙ e) in
    index-here_or c (l ++ (10 ∷ r)) m
    ∙ ap₂ here_or (has_prefix_line (c ∷ l) m r h ∙ here) (index-line l m r h behind)
    ∙ shift-here_or (suc (length l)) (index r m)

pub length-unlines_cons :
    (l : Bytes) (ls : List Bytes) → length (unlines (l ∷ ls)) ≡ suc (length l) + length (unlines ls)
unfolding unlines
length-unlines_cons l ls = omega (arith, length-append l (10 ∷ unlines ls))

-- The same for lines.
pub index-unlines :
    (ls : List Bytes) (m r : Bytes)
    → OneLine m
    → All (λ l. index l m ≡ none) ls
    → index (unlines ls ++ r) m ≡ shift (length (unlines ls)) (index r m)
unfolding unlines
index-unlines [] m r h free = sym (shift-zero (index r m))
index-unlines (l ∷ ls) m r h free =
    ap (λ s. index s m) (append_assoc l (10 ∷ unlines ls) r)
    ∙ index-line l m (unlines ls ++ r) h free.0
    ∙ ap (shift (suc (length l))) (index-unlines ls m r h free.1)
    ∙ shift_twice (suc (length l)) (length (unlines ls)) (index r m)
    ∙ ap (λ n. shift n (index r m)) (sym (length-unlines_cons l ls))

pub has_prefix_self : (m r : Bytes) → has_prefix (m ++ r) m ≡ true
unfolding has_prefix
has_prefix_self [] r = refl
has_prefix_self (c ∷ m) r = ground (arith, has_prefix_self m r)

-- A mark is found where it stands first.
pub index_self : (m r : Bytes) → 0 < length m → index (m ++ r) m ≡ some 0
unfolding here_or
index_self [] r h = absurd (omega arith)
index_self (c ∷ m) r h =
    index-here_or c (m ++ r) (c ∷ m)
    ∙ ap (λ b. here_or b (index (m ++ r) (c ∷ m))) (has_prefix_self (c ∷ m) r)
