-- ===== src/Gateway/Request/Names.antt =====
-- Repeated headers: the first line of a name counts.
use ssh_vpn.Common.{
  Bytes, bytes_eq, if◌then◌else◌, Bool, true, false, List, [], ◌∷◌, ◌++◌, Option, none, some, ◌≡◌,
  refl, sym, ap, ◌∙◌, Bool-cases, inl, inr, bytes_eq_iff,
}
use ssh_vpn.Common.Text.{cut, trim_space}
use ssh_vpn.Gateway.Request.{find, add_line, add_lines, put_header, put_new, name_of}

abbrev value_of : Bytes → Bytes → Option (Bytes × Bytes) → Option Bytes → Option Bytes
value_of k name none rest = rest
value_of k name (some (_, v)) rest = if bytes_eq name k then some (trim_space v) else rest

-- The trimmed value of the first line that has the name, if one has.
unfoldable pub first_value : Bytes → List Bytes → Option Bytes
first_value k [] = none
first_value k (l ∷ ls) = value_of k (name_of (cut b':' l)) (cut b':' l) (first_value k ls)

abbrev or_else : Option Bytes → Option Bytes → Option Bytes
or_else (some v) o = some v
or_else none o = o

find-append :
    (k name v : Bytes) (hs : List (Bytes × Bytes))
    → find k (hs ++ ((name, v) ∷ []))
      ≡ or_else (find k hs) (if bytes_eq name k then some v else none)
unfolding find
find-append k name v [] = refl
find-append k name v ((j, w) ∷ hs) = elim (Bool-cases (bytes_eq j k)) [
  | inl e ↦ rw e refl
  | inr e ↦ rw e (find-append k name v hs)
]

or_else-if :
    (o : Option Bytes) (b : Bool) (v rest : Option Bytes)
    → or_else (or_else o (if b then v else none)) rest
      ≡ or_else o (if b then or_else v rest else rest)
or_else-if (some x) b v rest = refl
or_else-if none true v rest = refl
or_else-if none false v rest = refl

find-put_new :
    (k name v : Bytes) (hs : List (Bytes × Bytes)) (o rest : Option Bytes)
    → find name hs ≡ o
    → or_else (find k (put_new o name v hs)) rest
      ≡ or_else (find k hs) (if bytes_eq name k then some (trim_space v) else rest)
find-put_new k name v hs none rest absent =
    rw (find-append k name (trim_space v) hs)
      (or_else-if (find k hs) (bytes_eq name k) (some (trim_space v)) rest)
find-put_new k name v hs (some old) rest there = elim (Bool-cases (bytes_eq name k)) [
  | inl same ↦
      let found = ap (λ n. find n hs) (sym ((bytes_eq_iff name k).0 same)) ∙ there in
      rw (same, found) refl
  | inr other ↦ rw other refl
]

-- What one line does to the value of a name.
find-put_header :
    (k name : Bytes) (line : Option (Bytes × Bytes)) (hs : List (Bytes × Bytes))
    (rest : Option Bytes)
    → or_else (find k (put_header name line hs)) rest
      ≡ or_else (find k hs) (value_of k name line rest)
find-put_header k name none hs rest = refl
find-put_header k name (some (j, v)) hs rest = find-put_new k name v hs (find name hs) rest refl

find-add_lines :
    (k : Bytes) (ls : List Bytes) (hs : List (Bytes × Bytes))
    → find k (add_lines ls hs) ≡ or_else (find k hs) (first_value k ls)
unfolding add_lines first_value add_line
find-add_lines k [] hs = or_none (find k hs)
  where
    or_none : (o : Option Bytes) → o ≡ or_else o none
    or_none none = refl
    or_none (some v) = refl
find-add_lines k (l ∷ ls) hs =
    find-add_lines k ls (add_line l hs)
    ∙ find-put_header k (name_of (cut b':' l)) (cut b':' l) hs (first_value k ls)

-- The value that the parsed headers have under a name is that of the first line that has the name,
-- spaces around it removed, and there is none where no line has it.
pub add_lines-first : (k : Bytes) (ls : List Bytes) → find k (add_lines ls []) ≡ first_value k ls
unfolding find
add_lines-first k ls = find-add_lines k ls []
