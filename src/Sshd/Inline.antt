-- ===== src/Sshd/Inline.antt =====
-- The two blocks of `withInlineBlocks` in a file, and the file without them.
use ssh_vpn.Common.{
  ℕ, suc, ◌<◌, Bytes, codes, has_prefix, length, All, All-append, true, List, [], ◌∷◌, ◌++◌,
  append_assoc, append-nil, none, ◌≡◌, refl, sym, ap, ◌∙◌, arith,
}
use ssh_vpn.Common.Text.{index}
use ssh_vpn.Common.Text.Lines.{unlines, unlines-append, OneLine, index-unlines, shift, one_line}
use ssh_vpn.Sshd.Strip.{NoMark, strip_loop-done, strip_loop-block}
use ssh_vpn.Sshd.{
  mark_begin, mark_end, header, strip_loop, strip_blocks, ends_line, with_newline, block,
  with_inline_blocks,
}

abbrev global : Bytes
global = codes "global"

abbrev matched : Bytes
matched = codes "match"

-- A line that has none of the four marks.
unfoldable pub IsPlain : Bytes → Type 0
IsPlain l = NoMark global l × NoMark matched l

module _ {A : Type 0} {P Q : A → Type 0} (f : (x : A) → P x → Q x) where
  pub All-map : (xs : List A) → All P xs → All Q xs
  All-map [] h = tt
  All-map (x ∷ xs) h = (f x h.0, All-map xs h.1)

-- Lines without a mark have it nowhere.
index-lines_none :
    (m : Bytes) (ls : List Bytes)
    → OneLine m
    → 0 < length m
    → All (λ l. index l m ≡ none) ls
    → index (unlines ls) m ≡ none
index-lines_none m ls h some_byte free =
    ap (λ s. index s m) (sym (append-nil (unlines ls)))
    ∙ index-unlines ls m [] h free
    ∙ ap (shift (length (unlines ls))) (empty m some_byte)
  where
    empty : (m : Bytes) → 0 < length m → index [] m ≡ none
    empty [] h = absurd (omega arith)
    empty (c ∷ m) h = unfold index has_prefix in refl

ends_line-append : (s t : Bytes) → ends_line t ≡ true → ends_line (s ++ t) ≡ true
unfolding ends_line
ends_line-append [] t h = h
ends_line-append (c ∷ []) [] h = absurd (cc)
ends_line-append (c ∷ []) (d ∷ t) h = h
ends_line-append (c ∷ d ∷ s) t h = ends_line-append (d ∷ s) t h

ends_line-unlines : (ls : List Bytes) → ends_line (10 ∷ unlines ls) ≡ true
unfolding unlines ends_line
ends_line-unlines [] = refl
ends_line-unlines (l ∷ ls) = ends_line-append (10 ∷ l) (10 ∷ unlines ls) (ends_line-unlines ls)

with_newline-unlines : (ls : List Bytes) → with_newline (unlines ls) ≡ unlines ls
with_newline-unlines [] = unfold unlines in refl
with_newline-unlines (l ∷ ls) =
    ended (unlines (l ∷ ls))
      (unfold unlines in ends_line-append l (10 ∷ unlines ls) (ends_line-unlines ls))
  where
    ended : (s : Bytes) → ends_line s ≡ true → with_newline s ≡ s
    ended [] h = refl
    ended (c ∷ s) h = rw h refl

-- A block before a rest, as the lemmas on `strip_once` want it.
block-append :
    (name : Bytes) (gs : List Bytes) (r : Bytes)
    → block name gs ++ r ≡ unlines (mark_begin name ∷ gs) ++ (mark_end name ++ (10 ∷ r))
unfolding block
block-append name gs r =
    append_assoc (unlines (mark_begin name ∷ gs)) (mark_end name ++ (10 ∷ [])) r
    ∙ ap (λ s. unlines (mark_begin name ∷ gs) ++ s) (append_assoc (mark_end name) (10 ∷ []) r)

block-unlines :
    (name : Bytes) (gs : List Bytes)
    → block name gs ≡ unlines ((mark_begin name ∷ gs) ++ (mark_end name ∷ []))
unfolding block unlines
block-unlines name gs = sym (unlines-append (mark_begin name ∷ gs) (mark_end name ∷ []))

header-IsPlain : All IsPlain header
unfolding IsPlain NoMark index has_prefix
header-IsPlain = (
  ((refl, refl), (refl, refl)),
  ((((refl, refl), (refl, refl))), (((refl, refl), (refl, refl)), tt)),
)

-- The text behind the first block: the lines of the file, and the second block.
behind_global : List Bytes → List Bytes → Bytes
behind_global ls ms = unlines ls ++ block matched ms

behind_global-clean :
    (ls ms : List Bytes)
    → All IsPlain ls
    → All IsPlain ms
    → index (behind_global ls ms) (mark_begin global) ≡ none
unfolding behind_global IsPlain NoMark
behind_global-clean ls ms hl hm =
    let free = λ (l : Bytes) (h : IsPlain l). h.0.0 in
    ap (λ s. index s (mark_begin global))
      (ap (λ s. unlines ls ++ s) (block-unlines matched ms)
        ∙ sym (unlines-append ls ((mark_begin matched ∷ ms) ++ (mark_end matched ∷ []))))
    ∙ index-lines_none (mark_begin global)
        (ls ++ ((mark_begin matched ∷ ms) ++ (mark_end matched ∷ []))) (unfold one_line in refl)
        (omega arith)
        (All-append _ ls ((mark_begin matched ∷ ms) ++ (mark_end matched ∷ [])) (All-map free ls hl)
          (All-append _ (mark_begin matched ∷ ms) (mark_end matched ∷ [])
            (unfold index has_prefix in refl, All-map free ms hm)
            (unfold index has_prefix in refl, tt)))

strip_global :
    (n : ℕ) (ls gs ms : List Bytes)
    → All IsPlain ls
    → All IsPlain gs
    → All IsPlain ms
    → strip_loop (suc n) global (with_inline_blocks (unlines ls) gs ms) ≡ behind_global ls ms
unfolding with_inline_blocks behind_global unlines IsPlain NoMark
strip_global n ls gs ms hl hg hm =
    ap (strip_loop (suc n) global) (
      ap (λ s. block global (header ++ gs) ++ (s ++ block matched ms)) (with_newline-unlines ls)
      ∙ block-append global (header ++ gs) (behind_global ls ms))
    ∙ strip_loop-block global (unfold one_line in refl) (unfold one_line in refl)
        (unfold index has_prefix in refl) n [] (header ++ gs) (behind_global ls ms) tt
        (All-map (λ l h. h.0.1) (header ++ gs) (All-append IsPlain header gs header-IsPlain hg))
        (behind_global-clean ls ms hl hm)

strip_matched :
    (n : ℕ) (ls ms : List Bytes)
    → All IsPlain ls
    → All IsPlain ms
    → strip_loop (suc n) matched (behind_global ls ms) ≡ unlines ls
unfolding behind_global block IsPlain NoMark
strip_matched n ls ms hl hm =
    let free = All-map (λ (l : Bytes) (h : IsPlain l). h.1.0) ls hl in
    strip_loop-block matched (unfold one_line in refl) (unfold one_line in refl)
      (unfold index has_prefix in refl) n ls ms [] free (All-map (λ l h. h.1.1) ms hm)
      (ap (λ s. index s (mark_begin matched)) (append-nil (unlines ls))
        ∙ index-lines_none (mark_begin matched) ls (unfold one_line in refl) (omega arith) free)
    ∙ append-nil (unlines ls)

-- `stripBlocks` on what `withInlineBlocks` made of the lines of a file gives the file back, if no
-- line of the file or of the settings has one of the four marks.
pub strip_blocks-with_inline_blocks :
    (ls gs ms : List Bytes)
    → All IsPlain ls
    → All IsPlain gs
    → All IsPlain ms
    → strip_blocks (with_inline_blocks (unlines ls) gs ms) ≡ unlines ls
unfolding strip_blocks
strip_blocks-with_inline_blocks ls gs ms hl hg hm =
    let text = with_inline_blocks (unlines ls) gs ms in
    ap (λ t. strip_loop (suc (length t)) matched t) (strip_global (length text) ls gs ms hl hg hm)
    ∙ strip_matched (length (behind_global ls ms)) ls ms hl hm

-- A file that has no mark is left as it is.
pub strip_blocks-plain : (ls : List Bytes) → All IsPlain ls → strip_blocks (unlines ls) ≡ unlines ls
unfolding strip_blocks IsPlain NoMark
strip_blocks-plain ls h =
    let text = unlines ls in
    let first =
      strip_loop-done global (unfold one_line in refl) (unfold one_line in refl)
        (unfold index has_prefix in refl) (suc (length text)) text
        (index-lines_none (mark_begin global) ls (unfold one_line in refl) (omega arith)
          (All-map (λ l k. k.0.0) ls h)) in
    ap (λ t. strip_loop (suc (length t)) matched t) first
    ∙ strip_loop-done matched (unfold one_line in refl) (unfold one_line in refl)
        (unfold index has_prefix in refl) (suc (length text)) text
        (index-lines_none (mark_begin matched) ls (unfold one_line in refl) (omega arith)
          (All-map (λ l k. k.1.0) ls h))
