-- ===== src/Sshd/Strip.antt =====
-- One round of `stripBlocks` takes a block away.
use ssh_vpn.Common.{
  ℕ, zero, suc, ◌+◌, Bytes, ◌==◌, if◌then◌else◌, length, length-append, drop, take-append,
  drop-append, get_elem?, All, List, [], ◌∷◌, ◌++◌, append_assoc, Option, none, some, ◌≡◌, refl,
  sym, ap, ap₂, ◌∙◌, arith,
}
use ssh_vpn.Common.Text.{index}
use ssh_vpn.Common.Text.Lines.{unlines, OneLine, index-unlines, index_self, shift}
use ssh_vpn.Sshd.{mark_begin, mark_end, past_newline, cut_block, from_begin, strip_once, strip_loop}

get_elem?-seam : (xs : Bytes) (y : ℕ) (ys : Bytes) → get_elem? (xs ++ (y ∷ ys)) (length xs) ≡ some y
get_elem?-seam [] y ys = refl
get_elem?-seam (x ∷ xs) y ys = get_elem?-seam xs y ys

drop-seam : (xs : Bytes) (y : ℕ) (ys : Bytes) → drop (suc (length xs)) (xs ++ (y ∷ ys)) ≡ ys
drop-seam [] y ys = refl
drop-seam (x ∷ xs) y ys = drop-seam xs y ys

-- A block `b` with its end mark `e`, cut out with the newline behind it.
cut_at_seams :
    (u b e r : Bytes)
    → cut_block (u ++ (b ++ (e ++ (10 ∷ r)))) (length u) e (some (length b)) ≡ some (u ++ r)
cut_at_seams u b e r = ap some (ap₂ (◌++◌) (take-append (length u) u _ refl) behind)
  where
    whole : u ++ (b ++ (e ++ (10 ∷ r))) ≡ (u ++ (b ++ e)) ++ (10 ∷ r)
    whole =
        ap (λ s. u ++ s) (sym (append_assoc b e (10 ∷ r))) ∙ sym (append_assoc u (b ++ e) (10 ∷ r))

    size : length u + length b + length e ≡ length (u ++ (b ++ e))
    size = omega (arith, length-append u (b ++ e), length-append b e)

    newline :
        (t : Option ℕ)
        → t ≡ some 10
        → (k : ℕ) → elim t [ none ↦ k | some c ↦ (if c == 10 then suc k else k) ] ≡ suc k
    newline none h k = absurd (cc)
    newline (some c) h k = ground (arith)

    past :
        past_newline (u ++ (b ++ (e ++ (10 ∷ r)))) (length u + length b + length e)
        ≡ suc (length (u ++ (b ++ e)))
    past =
        ap₂ past_newline whole size
        ∙ newline _ (get_elem?-seam (u ++ (b ++ e)) 10 r) (length (u ++ (b ++ e)))

    behind :
        drop
          (past_newline (u ++ (b ++ (e ++ (10 ∷ r)))) (length u + length b + length e))
          (u ++ (b ++ (e ++ (10 ∷ r))))
        ≡ r
    behind = ap₂ drop past whole ∙ drop-seam (u ++ (b ++ e)) 10 r

-- Neither mark of a block stands in a line.
unfoldable pub NoMark : Bytes → Bytes → Type 0
NoMark name l = (index l (mark_begin name) ≡ none) × (index l (mark_end name) ≡ none)

module _ (name : Bytes) (one_begin : OneLine (mark_begin name)) (one_end : OneLine (mark_end name))
    (apart : index (mark_begin name) (mark_end name) ≡ none) where
  abbrev inner : List Bytes → Bytes
  inner gs = unlines (mark_begin name ∷ gs)

  abbrev around : List Bytes → List Bytes → Bytes → Bytes
  around ls gs r = unlines ls ++ (inner gs ++ (mark_end name ++ (10 ∷ r)))

  pub index-begin :
      (ls gs : List Bytes) (r : Bytes)
      → All (λ l. index l (mark_begin name) ≡ none) ls
      → index (around ls gs r) (mark_begin name) ≡ some (length (unlines ls))
  unfolding unlines
  index-begin ls gs r free =
      index-unlines ls (mark_begin name) _ one_begin free
      ∙ ap (shift (length (unlines ls))) (
          ap (λ s. index s (mark_begin name)) (append_assoc (mark_begin name) (10 ∷ unlines gs) _)
          ∙ index_self (mark_begin name) _ (omega arith))
      ∙ ap some (omega arith)

  index-end :
      (gs : List Bytes) (r : Bytes)
      → All (λ l. index l (mark_end name) ≡ none) gs
      → index (inner gs ++ (mark_end name ++ (10 ∷ r))) (mark_end name) ≡ some (length (inner gs))
  index-end gs r free =
      index-unlines (mark_begin name ∷ gs) (mark_end name) _ one_end (apart, free)
      ∙ ap (shift (length (inner gs))) (index_self (mark_end name) (10 ∷ r) (omega arith))
      ∙ ap some (omega arith)

  -- One round takes the first block away.
  pub strip_once-block :
      (ls gs : List Bytes) (r : Bytes)
      → All (λ l. index l (mark_begin name) ≡ none) ls
      → All (λ l. index l (mark_end name) ≡ none) gs
      → strip_once name (around ls gs r) ≡ some (unlines ls ++ r)
  unfolding strip_once
  strip_once-block ls gs r before inside =
      ap (from_begin (around ls gs r) (mark_end name)) (index-begin ls gs r before)
      ∙ ap (cut_block (around ls gs r) (length (unlines ls)) (mark_end name)) (
          ap (λ s. index s (mark_end name)) (drop-append (length (unlines ls)) (unlines ls) _ refl)
          ∙ index-end gs r inside)
      ∙ cut_at_seams (unlines ls) (inner gs) (mark_end name) r

  rounds : ℕ → Bytes → Option Bytes → Bytes
  rounds fuel s o = elim o [ none ↦ s | some rest ↦ strip_loop fuel name rest ]

  strip_loop-round :
      (fuel : ℕ) (s : Bytes) → strip_loop (suc fuel) name s ≡ rounds fuel s (strip_once name s)
  unfolding strip_loop rounds
  strip_loop-round fuel s = refl

  pub strip_loop-done :
      (fuel : ℕ) (s : Bytes) → index s (mark_begin name) ≡ none → strip_loop fuel name s ≡ s
  unfolding rounds strip_once
  strip_loop-done zero s e = unfold strip_loop in refl
  strip_loop-done (suc fuel) s e =
      strip_loop-round fuel s ∙ ap (λ o. rounds fuel s (from_begin s (mark_end name) o)) e

  -- The loop takes the only block away.
  pub strip_loop-block :
      (fuel : ℕ) (ls gs : List Bytes) (r : Bytes)
      → All (λ l. index l (mark_begin name) ≡ none) ls
      → All (λ l. index l (mark_end name) ≡ none) gs
      → index (unlines ls ++ r) (mark_begin name) ≡ none
      → strip_loop (suc fuel) name (around ls gs r) ≡ unlines ls ++ r
  unfolding rounds
  strip_loop-block fuel ls gs r before inside rest =
      strip_loop-round fuel (around ls gs r)
      ∙ ap (rounds fuel (around ls gs r)) (strip_once-block ls gs r before inside)
      ∙ strip_loop-done fuel (unlines ls ++ r) rest
