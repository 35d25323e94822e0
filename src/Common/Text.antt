-- ===== src/Common/Text.antt =====
-- The functions of Go's `strings`, `bytes` and `strconv` that the sources use, on ASCII text.
pub mod Index
pub mod Lines
use ssh_vpn.Common.Tests.{ltb, leb, ◌==◌, if◌then◌else◌}
use ssh_vpn.Common.Encoding.{Bytes, bytes_eq, has_prefix}
use ssh_vpn.Common.Int.{ℤ, pos, negsuc}
use ssh_vpn.Common.Lists.{length, drop}
use Prim.Native.Nat.{ℕ, zero, suc, ◌+◌, ◌-◌, ◌*◌, ◌/◌, ◌%◌, ◌^◌}
use mathlib.Core.Bool.{Bool, true, false, ◌&&◌, ◌||◌}
use mathlib.Core.List.{List, [], ◌∷◌, ◌++◌, map}
use mathlib.Core.Option.{Option, none, some}

unfoldable pub is_space : ℕ → Bool
is_space b = (leb 9 b && leb b 13) || b == 32

unfoldable pub lower : ℕ → ℕ
lower b = if leb 65 b && leb b 90 then b + 32 else b

unfoldable pub trim_left : Bytes → Bytes
unfolding is_space
trim_left [] = []
trim_left (b ∷ bs) = let rest = trim_left bs in if is_space b then rest else b ∷ bs

abbrev pub keep : ℕ → Bytes → Bytes
keep b [] = if is_space b then [] else b ∷ []
keep b (r ∷ rs) = b ∷ r ∷ rs

unfoldable pub trim_right : Bytes → Bytes
trim_right [] = []
trim_right (b ∷ bs) = keep b (trim_right bs)

-- `strings.TrimSpace`
unfoldable pub trim_space : Bytes → Bytes
unfolding trim_left trim_right
trim_space s = trim_right (trim_left s)

-- `strings.ToLower` and `strings.ToUpper`
unfoldable pub to_lower : Bytes → Bytes
unfolding lower
to_lower s = map lower s

unfoldable pub to_upper : Bytes → Bytes
to_upper s = map (λ b. if leb 97 b && leb b 122 then b - 32 else b) s

-- `strings.Index` and `bytes.Index`, with `none` for -1.
unfoldable pub index : Bytes → Bytes → Option ℕ
index [] sub = if has_prefix [] sub then some 0 else none
index (c ∷ s) sub =
    let rest = index s sub in
    if has_prefix (c ∷ s) sub then some 0 else elim rest [ none ↦ none | some i ↦ some (suc i) ]

abbrev pub put_first : ℕ → List Bytes → List Bytes
put_first c [] = (c ∷ []) ∷ []
put_first c (part ∷ parts) = (c ∷ part) ∷ parts

-- `strings.Split` at a separator of one byte.
unfoldable pub split : ℕ → Bytes → List Bytes
split sep [] = [] ∷ []
split sep (c ∷ s) = let rest = split sep s in if c == sep then [] ∷ rest else put_first c rest

-- `strings.Join` with a separator of one byte.
unfoldable pub join : ℕ → List Bytes → Bytes
join sep [] = []
join sep (part ∷ []) = part
join sep (part ∷ next ∷ parts) = part ++ sep ∷ join sep (next ∷ parts)

-- `strings.Cut` at one byte, with `none` where it does not stand.
unfoldable pub cut : ℕ → Bytes → Option (Bytes × Bytes)
cut sep [] = none
cut sep (c ∷ s) =
    let rest = cut sep s in
    if c == sep then some ([], s) else elim rest [ none ↦ none | some p ↦ some (c ∷ p.0, p.1) ]

abbrev pub some_word : Bytes → List Bytes → List Bytes
some_word [] words = words
some_word (c ∷ word) words = (c ∷ word) ∷ words

-- The words of the text behind a word that was begun.
fields_from : Bytes → Bytes → List Bytes
unfolding is_space
fields_from begun [] = some_word begun []
fields_from begun (c ∷ s) =
    let ended = fields_from [] s in
    let longer = fields_from (begun ++ (c ∷ [])) s in
    if is_space c then some_word begun ended else longer

-- `strings.Fields`
unfoldable pub fields : Bytes → List Bytes
unfolding fields_from
fields s = fields_from [] s

-- `strings.ReplaceAll(s, "\r\n", "\n")`
unfoldable pub unix_lines : Bytes → Bytes
unix_lines [] = []
unix_lines (c ∷ []) = c ∷ []
unix_lines (c ∷ d ∷ s) =
    let kept = unix_lines (d ∷ s) in if c == 13 && d == 10 then kept else c ∷ kept

decimal_from : ℕ → ℕ → Bytes → Bytes
decimal_from zero n out = out
decimal_from (suc fuel) n out =
    let digits = (b'0' + n % 10) ∷ out in
    elim (ltb n 10) [ true ↦ digits | false ↦ decimal_from fuel (n / 10) digits ]

-- `strconv.Itoa` of a number that is not negative: a number has no more digits than its value, and
-- one for 0.
unfoldable pub decimal : ℕ → Bytes
unfolding decimal_from
decimal n = decimal_from (suc n) n []

-- `strconv.Itoa`
unfoldable pub itoa : ℤ → Bytes
unfolding decimal
itoa (pos n) = decimal n
itoa (negsuc n) = b'-' ∷ decimal (suc n)

-- `strings.HasSuffix s p`, arguments in that order.
unfoldable pub has_suffix : Bytes → Bytes → Bool
has_suffix s p = leb (length p) (length s) && bytes_eq (drop (length s - length p) s) p

-- `strings.TrimPrefix s p`, arguments in that order.
unfoldable pub trim_prefix : Bytes → Bytes → Bytes
trim_prefix s p = if has_prefix s p then drop (length p) s else s

number_from : Bytes → ℕ → Option ℕ
number_from [] n = some n
number_from (c ∷ s) n =
    let rest = number_from s (n * 10 + (c - b'0')) in
    if leb b'0' c && leb c b'9' then rest else none

-- The digits of a number, which are some.
unfoldable pub number : Bytes → Option ℕ
unfolding number_from
number [] = none
number (c ∷ s) = number_from (c ∷ s) 0

abbrev signed : Bool → Option ℕ → Option ℤ
signed minus none = none
signed true (some zero) = some (pos 0)
signed true (some (suc n)) = if leb (suc n) (2 ^ 63) then some (negsuc n) else none
signed false (some n) = if ltb n (2 ^ 63) then some (pos n) else none

-- `strconv.Atoi`, with `none` for an error.
unfoldable pub atoi : Bytes → Option ℤ
unfolding number
atoi [] = none
atoi (c ∷ s) =
    if c == b'-'
    then signed true (number s)
    else if c == b'+'
    then signed false (number s)
    else signed false (number (c ∷ s))
