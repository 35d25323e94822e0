-- ===== src/Sshd/Ports.antt =====
-- The commented `Port` lines, and what `Remove` makes of a file that `Apply` has written.
use ssh_vpn.Common.{
  ℕ, Bytes, has_prefix, ◌==◌, length, drop-append, All, false, List, [], ◌∷◌, ◌++◌, map, ◌≡◌, refl,
  ap, ap₂, ◌∙◌, Bool-cases, inl, inr, if-both,
}
use ssh_vpn.Common.Text.{split, join, put_first, trim_prefix}
use ssh_vpn.Common.Text.Lines.{unlines, one_line, OneLine, OneLine-cons, has_prefix_self}
use ssh_vpn.Sshd.{
  port_comment, is_port_line, comment_line, comment_ports, uncomment_line, uncomment_ports,
  strip_blocks, with_inline_blocks, installed, restored,
}
use ssh_vpn.Sshd.Inline.{IsPlain, All-map, strip_blocks-with_inline_blocks, strip_blocks-plain}

split-line : (l r : Bytes) → OneLine l → split 10 (l ++ (10 ∷ r)) ≡ l ∷ split 10 r
unfolding split
split-line [] r h = refl
split-line (c ∷ l) r h =
    let (other, rest) = OneLine-cons c l h in rw (other, split-line l r rest) refl

join-cons : (p q : Bytes) (ps : List Bytes) → join 10 (p ∷ q ∷ ps) ≡ p ++ (10 ∷ join 10 (q ∷ ps))
unfolding join
join-cons p q ps = refl

split-put_first :
    (c : ℕ) (ps : List Bytes) → (q : Bytes) × (qs : List Bytes) × (put_first c ps ≡ q ∷ qs)
split-put_first c [] = (c ∷ [], [], refl)
split-put_first c (p ∷ ps) = (c ∷ p, ps, refl)

split_cons : (s : Bytes) → (q : Bytes) × (qs : List Bytes) × (split 10 s ≡ q ∷ qs)
unfolding split
split_cons [] = ([], [], refl)
split_cons (c ∷ s) =
    if-both (λ (ps : List Bytes). (q : Bytes) × (qs : List Bytes) × (ps ≡ q ∷ qs)) (c == 10)
      ([] ∷ split 10 s) (put_first c (split 10 s)) (λ _. ([], split 10 s, refl))
      (λ _. split-put_first c (split 10 s))

module _ (f : Bytes → Bytes) (empty : f [] ≡ []) where
  abbrev edited : Bytes → Bytes
  edited s = join 10 (map f (split 10 s))

  join-edited :
      (p : Bytes) (ps : List Bytes) (q : Bytes) (qs : List Bytes)
      → ps ≡ q ∷ qs
      → join 10 (p ∷ map f ps) ≡ p ++ (10 ∷ join 10 (map f ps))
  join-edited p [] q qs e = absurd (cc)
  join-edited p (r ∷ rs) q qs e = join-cons p (f r) (map f rs)

  -- An edit of each line of a text.
  edited-unlines : (ls : List Bytes) → All OneLine ls → edited (unlines ls) ≡ unlines (map f ls)
  unfolding unlines split join
  edited-unlines [] h = empty
  edited-unlines (l ∷ ls) h =
      let (q, qs, e) = split_cons (unlines ls) in
      ap (λ ps. join 10 (map f ps)) (split-line l (unlines ls) h.0)
      ∙ join-edited (f l) (split 10 (unlines ls)) q qs e
      ∙ ap (λ s. f l ++ (10 ∷ s)) (edited-unlines ls h.1)

-- A line that `Apply` and `Remove` do not take for one of their own.
unfoldable pub Ordinary : Bytes → Type 0
Ordinary l = OneLine l × IsPlain l × IsPlain (comment_line l) × (has_prefix l port_comment ≡ false)

comment_line-OneLine : (l : Bytes) → OneLine l → OneLine (comment_line l)
unfolding comment_line
comment_line-OneLine l h =
    if-both OneLine (is_port_line l) (port_comment ++ l) l (λ _. commented h) (λ _. h)
  where
    commented : OneLine l → OneLine (port_comment ++ l)
    commented h = unfold one_line in h

uncomment_line-comment_line :
    (l : Bytes) → has_prefix l port_comment ≡ false → uncomment_line (comment_line l) ≡ l
unfolding comment_line uncomment_line trim_prefix
uncomment_line-comment_line l h = elim (Bool-cases (is_port_line l)) [
  | inl port ↦
      rw (port, has_prefix_self port_comment l)
        (drop-append (length port_comment) port_comment l refl)
  | inr other ↦ rw (other, h) refl
]

uncommented : (ls : List Bytes) → All Ordinary ls → map uncomment_line (map comment_line ls) ≡ ls
unfolding Ordinary
uncommented [] h = refl
uncommented (l ∷ ls) h = ap₂ (◌∷◌) (uncomment_line-comment_line l h.0.3) (uncommented ls h.1)

commented : (ls : List Bytes) → All Ordinary ls → All OneLine (map comment_line ls)
unfolding Ordinary
commented [] h = tt
commented (l ∷ ls) h = (comment_line-OneLine l h.0.0, commented ls h.1)

commented-IsPlain : (ls : List Bytes) → All Ordinary ls → All IsPlain (map comment_line ls)
unfolding Ordinary
commented-IsPlain [] h = tt
commented-IsPlain (l ∷ ls) h = (h.0.2, commented-IsPlain ls h.1)

comment_ports-unlines :
    (ls : List Bytes) → All OneLine ls → comment_ports (unlines ls) ≡ unlines (map comment_line ls)
unfolding comment_ports has_prefix
comment_ports-unlines ls h =
    edited-unlines comment_line (unfold comment_line is_port_line in refl) ls h

uncomment_ports-unlines :
    (ls : List Bytes)
    → All OneLine ls
    → uncomment_ports (unlines ls) ≡ unlines (map uncomment_line ls)
unfolding uncomment_ports has_prefix
uncomment_ports-unlines ls h =
    edited-unlines uncomment_line (unfold uncomment_line trim_prefix in refl) ls h

-- The same without drop-in files, on the lines of the settings.
pub restored-installed :
    (ls gs ms : List Bytes)
    → All Ordinary ls
    → All IsPlain gs
    → All IsPlain ms
    → restored (installed (unlines ls) gs ms) ≡ unlines ls
unfolding restored installed Ordinary
restored-installed ls gs ms hl hg hm =
    let one = All-map (λ (l : Bytes) (h : Ordinary l). h.0) ls hl in
    let plain = All-map (λ (l : Bytes) (h : Ordinary l). h.1) ls hl in
    ap (λ b. uncomment_ports (strip_blocks (with_inline_blocks (comment_ports b) gs ms)))
      (strip_blocks-plain ls plain)
    ∙ ap (λ b. uncomment_ports (strip_blocks (with_inline_blocks b gs ms)))
        (comment_ports-unlines ls one)
    ∙ ap uncomment_ports (
        strip_blocks-with_inline_blocks (map comment_line ls) gs ms (commented-IsPlain ls hl) hg hm)
    ∙ uncomment_ports-unlines (map comment_line ls) (commented ls hl)
    ∙ ap unlines (uncommented ls hl)

-- And with drop-in files, where the main file gets no block.
pub restored-comment_ports :
    (ls : List Bytes)
    → All Ordinary ls
    → restored (comment_ports (strip_blocks (unlines ls))) ≡ unlines ls
unfolding restored Ordinary
restored-comment_ports ls hl =
    let one = All-map (λ (l : Bytes) (h : Ordinary l). h.0) ls hl in
    let plain = All-map (λ (l : Bytes) (h : Ordinary l). h.1) ls hl in
    ap (λ b. uncomment_ports (strip_blocks (comment_ports b))) (strip_blocks-plain ls plain)
    ∙ ap (λ b. uncomment_ports (strip_blocks b)) (comment_ports-unlines ls one)
    ∙ ap uncomment_ports (strip_blocks-plain (map comment_line ls) (commented-IsPlain ls hl))
    ∙ uncomment_ports-unlines (map comment_line ls) (commented ls hl)
    ∙ ap unlines (uncommented ls hl)
