-- ===== src/Gateway/Request/Reading.antt =====
-- What `readHeaderExact` takes from the socket.
use ssh_vpn.Common.{
  false, if-both, ◌||◌, ◌==◌, ℕ, ◌+◌, Bytes, length, take, drop, Bool, true, List, [], ◌∷◌, ◌++◌,
  Option, none, some, ◌≤◌, ◌≡◌, refl, sym, ap, ◌∙◌, subst, ◌⊎◌, inl, inr, arith, take-append,
  drop-append, length-append,
}
use ssh_vpn.Common.Text.{index}
use ssh_vpn.Common.Text.Index.{Stands, index-Stands, index_first, index-none}
use ssh_vpn.Gateway.Request.{
  Header, failed, consume, too_large, timed_out, max_header, Request, blank_crlf, blank_lf,
  header_end, parse_header, Peeked, waiting, broken, got, read_header_exact, end_of, turn,
}

-- The blank line behind the first `i` bytes ends the header block: it is the first one with
-- carriage returns, or there is none of these and it is the first one without.
pub EndsAt : ℕ → Bytes → Bytes → Type 0
EndsAt i blank b =
    (blank ≡ blank_crlf × ((j : ℕ) → Stands j blank_crlf b → i ≤ j))
    ⊎ (blank ≡ blank_lf
        × ((j : ℕ) → ¬ Stands j blank_crlf b)
        × ((j : ℕ) → Stands j blank_lf b → i ≤ j))

-- The first `n` bytes are lines and the blank line that ends the block, and the rest stands behind.
pub Ends : ℕ → Bytes → Type 0
Ends n b =
    (lines rest blank : Bytes) × EndsAt (length lines) blank b
    × (b ≡ (lines ++ blank) ++ rest)
    × (take n b ≡ lines ++ blank)
    × (drop n b ≡ rest)

Stands-Ends :
    (i : ℕ) (blank b : Bytes) → EndsAt i blank b → Stands i blank b → Ends (i + length blank) b
unfolding Stands Ends
Stands-Ends i blank b kind (lines, rest, e, n) =
    let size = length-append lines blank ∙ ap (λ k. k + length blank) n in
    (
      lines,
      rest,
      blank,
      subst (λ (k : ℕ). EndsAt k blank b) (sym n) kind,
      e,
      ap (take (i + length blank)) e ∙ take-append (i + length blank) (lines ++ blank) rest size,
      ap (drop (i + length blank)) e ∙ drop-append (i + length blank) (lines ++ blank) rest size,
    )

end_of-Ends :
    (b : Bytes) (crlf lf : Option ℕ) (n : ℕ)
    → index b blank_crlf ≡ crlf
    → index b blank_lf ≡ lf
    → end_of crlf lf ≡ some n
    → Ends n b
unfolding EndsAt
end_of-Ends b (some i) lf n f g e =
    subst (λ k. Ends k b) (cc)
      (Stands-Ends i blank_crlf b (inl (refl, λ j. index_first b blank_crlf i j f))
        (index-Stands b blank_crlf i f))
end_of-Ends b none (some i) n f g e =
    subst (λ k. Ends k b) (cc)
      (Stands-Ends i blank_lf b
        (inr (refl, (λ j. index-none b blank_crlf j f), λ j. index_first b blank_lf i j g))
        (index-Stands b blank_lf i g))
end_of-Ends b none none n f g e = absurd (cc)

header_end-Ends : (b : Bytes) (n : ℕ) → header_end b ≡ some n → Ends n b
unfolding header_end
header_end-Ends b n e = end_of-Ends b (index b blank_crlf) (index b blank_lf) n refl refl e

-- One of the peeks showed the block that was taken, and the request is what it says.
pub Took : List Peeked → Request → ℕ → Type 0
Took [] r n = ⊥
Took (broken e ∷ ps) r n = ⊥
Took (waiting b over ∷ ps) r n = (Ends n b × (r ≡ parse_header (take n b))) ⊎ Took ps r n

turn-Took :
    (b : Bytes) (over : Bool) (end : Option ℕ) (ps : List Peeked) (r : Request) (n : ℕ)
    → header_end b ≡ end
    → (read_header_exact true ps ≡ some (got r n) → Took ps r n)
    → turn b over true end (read_header_exact true ps) ≡ some (got r n)
    → Took (waiting b over ∷ ps) r n
unfolding Took
turn-Took b over (some end) ps r n f later e = inl (header_end-Ends b n (f ∙ ap some (cc)), cc)
turn-Took b over none ps r n f later e = inr (later (ground (arith)))

got-Took :
    (ps : List Peeked) (r : Request) (n : ℕ)
    → read_header_exact true ps ≡ some (got r n)
    → Took ps r n
unfolding read_header_exact
got-Took [] r n e = absurd (cc)
got-Took (broken x ∷ ps) r n e = absurd (cc)
got-Took (waiting b over ∷ ps) r n e =
    turn-Took b over (header_end b) ps r n refl (got-Took ps r n) e

-- A turn finds the socket broken or the deadline over, as one does after a while.
unfoldable pub has_end : List Peeked → Bool
has_end [] = false
has_end (broken e ∷ ps) = true
has_end (waiting b over ∷ ps) = over || has_end ps

turn-some :
    (b : Bytes) (over read : Bool) (end : Option ℕ) (later : Option Header) (more : Bool)
    → (over || more) ≡ true
    → (more ≡ true → (h : Header) × (later ≡ some h))
    → (h : Header) × (turn b over read end later ≡ some h)
turn-some b over read (some end) later more e f = (consume b read end, refl)
turn-some b true read none later more e f =
    if-both (λ (o : Option Header). (h : Header) × (o ≡ some h)) (length b == max_header) _
      (some (failed timed_out)) (λ _. (failed too_large, refl)) (λ _. (failed timed_out, refl))
turn-some b false read none later more e f =
    if-both (λ (o : Option Header). (h : Header) × (o ≡ some h)) (length b == max_header) _ later
      (λ _. (failed too_large, refl)) (λ _. f e)

answers :
    (read : Bool) (ps : List Peeked)
    → has_end ps ≡ true
    → (h : Header) × (read_header_exact read ps ≡ some h)
unfolding read_header_exact has_end
answers read [] e = absurd (cc)
answers read (broken x ∷ ps) e = (failed x, refl)
answers read (waiting b over ∷ ps) e =
    turn-some b over read (header_end b) (read_header_exact read ps) (has_end ps) e
      (answers read ps)

-- Once the socket breaks or the deadline is over, `readHeaderExact` has an answer. Where that is a
-- request and `n` bytes were taken from the socket, a peek showed `n` bytes that end with the first
-- blank line that has carriage returns, or, where what was peeked has none of these, with the first
-- that has not; the request was parsed from these bytes, and those behind them stay unread.
pub read_header_exact-Took :
    (ps : List Peeked)
    → has_end ps ≡ true
    → (h : Header) × (read_header_exact true ps ≡ some h)
      × ((r : Request) (n : ℕ) → h ≡ got r n → Took ps r n)
read_header_exact-Took ps e =
    let (h, answered) = answers true ps e in
    (h, answered, λ r n k. got-Took ps r n (answered ∙ ap some k))
