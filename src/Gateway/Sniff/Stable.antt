-- ===== src/Gateway/Sniff/Stable.antt =====
-- `classify` on growing input.
use ssh_vpn.Common.{
  ℕ, ◌≤◌, ◌<◌, Bytes, has_prefix, ◌==◌, length, Bool, true, false, List, [], ◌∷◌, ◌++◌, ◌≡◌, ◌≢◌,
  refl, arith, Bool-cases, inl, inr, if-both, All, length-append,
}
use ssh_vpn.Gateway.Sniff.{
  Kind, unknown, http, http_methods, is_ws_frame_start, ssh_prefix, starts_token, scan_methods,
  classify_text, classify, after_methods, is_one_ws_byte,
}

-- Both tests on a token are settled by the bytes at hand: more bytes change neither a hit nor a
-- mismatch.
pub has_prefix-append : (b tok r : Bytes) → has_prefix b tok ≡ true → has_prefix (b ++ r) tok ≡ true
unfolding has_prefix
has_prefix-append [] [] [] h = refl
has_prefix-append [] [] (x ∷ r) h = refl
has_prefix-append [] (t ∷ tok) r h = cc
has_prefix-append (c ∷ b) [] r h = refl
has_prefix-append (c ∷ b) (t ∷ tok) r h = ground (arith, has_prefix-append b tok r)

pub has_prefix-le : (b tok : Bytes) → has_prefix b tok ≡ true → length tok ≤ length b
unfolding has_prefix
has_prefix-le [] [] h = omega arith
has_prefix-le [] (t ∷ tok) h = cc
has_prefix-le (c ∷ b) [] h = omega arith
has_prefix-le (c ∷ b) (t ∷ tok) h = ground (arith, has_prefix-le b tok)

starts_token_long : (b tok : Bytes) → length tok ≤ length b → starts_token b tok ≡ false
unfolding starts_token
starts_token_long b tok h = ground arith

abbrev Mismatch : Bytes → Bytes → Type 0
Mismatch b tok = (has_prefix b tok ≡ false) × (starts_token b tok ≡ false)

Mismatch-append : (b tok r : Bytes) → Mismatch b tok → Mismatch (b ++ r) tok
unfolding has_prefix starts_token
Mismatch-append [] [] r h = cc (h.0)
Mismatch-append [] (t ∷ tok) r h = ground arith
Mismatch-append (c ∷ b) [] r h = cc (h.0)
Mismatch-append (c ∷ b) (t ∷ tok) r h = ground (arith, Mismatch-append b tok r)

-- How the loop over the methods can end; it ends with `maybe` wherever it has seen a candidate.
data Scanned (r : Kind × Bool) : Type 0 where
  hit : r ≡ (http, false) → Scanned r
  maybe : r ≡ (unknown, true) → Scanned r
  miss : r ≡ (unknown, false) → Scanned r

scan_cases : (b : Bytes) (ms : List Bytes) (p : Bool) → Scanned (scan_methods b ms p)
unfolding scan_methods
scan_cases b [] true = maybe refl
scan_cases b [] false = miss refl
scan_cases b (m ∷ ms) p =
    if-both Scanned (has_prefix b (m ++ (b' ' ∷ []))) _ _ (λ _. hit refl) (λ _. scan_cases b ms _)

scan_candidate : (b : Bytes) (ms : List Bytes) → scan_methods b ms true ≢ (unknown, false)
unfolding scan_methods
scan_candidate b [] e = cc
scan_candidate b (m ∷ ms) e = elim (Bool-cases (has_prefix b (m ++ (b' ' ∷ [])))) [
  | inl found ↦ cc (rw found at e)
  | inr other ↦ elim (Bool-cases (starts_token b (m ++ (b' ' ∷ [])))) [
    | inl part ↦ scan_candidate b ms (rw (other, part) at e)
    | inr none ↦ scan_candidate b ms (rw (other, none) at e)
  ]
]

scan_hit-append :
    (b r : Bytes) (ms : List Bytes) (p q : Bool)
    → scan_methods b ms p ≡ (http, false)
    → scan_methods (b ++ r) ms q ≡ (http, false)
unfolding scan_methods
scan_hit-append b r [] p q e = cc
scan_hit-append b r (m ∷ ms) p q e = elim (Bool-cases (has_prefix b (m ++ (b' ' ∷ [])))) [
  | inl found ↦ rw (has_prefix-append b (m ++ (b' ' ∷ [])) r found) refl
  | inr other ↦
      if-both (λ (x : Kind × Bool). x ≡ (http, false)) (has_prefix (b ++ r) (m ++ (b' ' ∷ []))) _ _
        (λ _. refl) (λ _. scan_hit-append b r ms _ _ (rw other at e))
]

scan_miss-append :
    (b r : Bytes) (ms : List Bytes)
    → scan_methods b ms false ≡ (unknown, false)
    → scan_methods (b ++ r) ms false ≡ (unknown, false)
unfolding scan_methods
scan_miss-append b r [] e = refl
scan_miss-append b r (m ∷ ms) e = elim (Bool-cases (has_prefix b (m ++ (b' ' ∷ [])))) [
  | inl found ↦ cc (rw found at e)
  | inr other ↦ elim (Bool-cases (starts_token b (m ++ (b' ' ∷ [])))) [
    | inl part ↦ absurd (scan_candidate b ms (rw (other, part) at e))
    | inr none ↦
        let (p, q) = Mismatch-append b (m ++ (b' ' ∷ [])) r (other, none) in
        rw (p, q) (scan_miss-append b r ms (rw (other, none) at e))
  ]
]

-- The tests behind the methods look at two bytes at most.
ws_tests-append :
    (b r : Bytes)
    → b ≢ []
    → is_ws_frame_start b ≡ false
    → is_one_ws_byte b ≡ false
    → (is_ws_frame_start (b ++ r) ≡ false) × (is_one_ws_byte (b ++ r) ≡ false)
unfolding is_ws_frame_start classify
ws_tests-append [] r ne w o = absurd (ne refl)
ws_tests-append (x ∷ []) [] ne w o = (w, o)
ws_tests-append (x ∷ []) (y ∷ r) ne w o = (ground arith, refl)
ws_tests-append (x ∷ y ∷ b) r ne w o = (w, refl)

ws_frame_start-append :
    (b r : Bytes) → is_ws_frame_start b ≡ true → is_ws_frame_start (b ++ r) ≡ true
unfolding is_ws_frame_start
ws_frame_start-append [] r h = cc
ws_frame_start-append (x ∷ []) r h = cc
ws_frame_start-append (x ∷ y ∷ b) r h = h

-- The part of `classify` behind the SSH tests, over any list of methods.
after_methods-append :
    (b r : Bytes) (ms : List Bytes) {k : Kind}
    → b ≢ []
    → after_methods b (scan_methods b ms false) ≡ (k, false)
    → after_methods (b ++ r) (scan_methods (b ++ r) ms false) ≡ (k, false)
unfolding classify
after_methods-append b r ms {k} ne e = by_scan (scan_cases b ms false)
  where
    by_scan :
        Scanned (scan_methods b ms false)
        → after_methods (b ++ r) (scan_methods (b ++ r) ms false) ≡ (k, false)
    by_scan (hit h) = rw (scan_hit-append b r ms false false h) (rw h at e)
    by_scan (maybe h) = cc (rw h at e)
    by_scan (miss h) = rw (scan_miss-append b r ms h) (elim (Bool-cases (is_ws_frame_start b)) [
      | inl frame ↦ rw (ws_frame_start-append b r frame) (rw (h, frame) at e)
      | inr none ↦ elim (Bool-cases (is_one_ws_byte b)) [
        | inl one ↦ cc (rw (h, after_methods, none, one) at e)
        | inr other ↦
            let (p, q) = ws_tests-append b r ne none other in
            rw (p, q) (rw (h, after_methods, none, other) at e)
      ]
    ])

classify_text-append :
    (b r : Bytes) {k : Kind}
    → b ≢ []
    → classify_text b ≡ (k, false)
    → classify_text (b ++ r) ≡ (k, false)
unfolding classify
classify_text-append b r ne e = elim (Bool-cases (starts_token b ssh_prefix)) [
  | inl part ↦ cc (rw part at e)
  | inr not_part ↦ elim (Bool-cases (has_prefix b ssh_prefix)) [
    | inl found ↦
        let long = has_prefix-append b ssh_prefix r found in
        rw (starts_token_long (b ++ r) ssh_prefix (has_prefix-le (b ++ r) ssh_prefix long), long)
          (rw (not_part, found) at e)
    | inr other ↦
        let (p, q) = Mismatch-append b ssh_prefix r (other, not_part) in
        rw (q, p) (after_methods-append b r http_methods ne (rw (not_part, other) at e))
  ]
]

-- A verdict is final: once `classify` asks for no more bytes, further bytes do not change the kind,
-- `unknown` included.
pub classify-append :
    (b r : Bytes) {k : Kind} → classify b ≡ (k, false) → classify (b ++ r) ≡ (k, false)
unfolding classify
classify-append [] r e = cc
classify-append (x ∷ b) r {k} e = elim (Bool-cases (x == 0x16)) [
  | inl record_byte ↦ rw record_byte (rw record_byte at e)
  | inr other ↦ rw other (classify_text-append (x ∷ b) r (λ h. cc) (rw other at e))
]

scan_long :
    (b : Bytes) (n : ℕ) (ms : List Bytes)
    → All (λ m. length m < n) ms
    → n ≤ length b
    → (scan_methods b ms false).1 ≡ false
unfolding scan_methods
scan_long b n [] a h = refl
scan_long b n (m ∷ ms) (p, a) h =
    let long =
      starts_token_long b (m ++ (b' ' ∷ [])) (omega (arith, length-append m (b' ' ∷ []))) in
    rw long (
      if-both (λ (x : Kind × Bool). x.1 ≡ false) (has_prefix b (m ++ (b' ' ∷ []))) _ _ (λ _. refl)
        (λ _. scan_long b n ms a h))

one_ws_byte_long : (b : Bytes) → 2 ≤ length b → is_one_ws_byte b ≡ false
unfolding classify
one_ws_byte_long [] h = refl
one_ws_byte_long (x ∷ []) h = absurd (omega arith)
one_ws_byte_long (x ∷ y ∷ b) h = refl

after_methods_long :
    (b : Bytes) (r : Kind × Bool) → 2 ≤ length b → r.1 ≡ false → (after_methods b r).1 ≡ false
unfolding classify
after_methods_long b (http, m) h e = refl
after_methods_long b (_, true) h e = cc
after_methods_long b (_, false) h e =
    if-both (λ (x : Kind × Bool). x.1 ≡ false) (is_ws_frame_start b) _ _ (λ _. refl)
      (λ _. rw (one_ws_byte_long b h) refl)

-- Ten bytes are always enough, so the 16 bytes that the callers look at never fall short.
pub classify_long : (b : Bytes) → 10 ≤ length b → (classify b).1 ≡ false
unfolding classify
classify_long [] h = absurd (omega arith)
classify_long (x ∷ b) h =
    if-both (λ (r : Kind × Bool). r.1 ≡ false) (x == 0x16) _ _ (λ _. refl)
      (λ _. rw (starts_token_long (x ∷ b) ssh_prefix (omega arith)) (
        if-both (λ (r : Kind × Bool). r.1 ≡ false) (has_prefix (x ∷ b) ssh_prefix) _ _ (λ _. refl)
          (λ _.
            after_methods_long (x ∷ b) (scan_methods (x ∷ b) http_methods false) (omega arith)
              (scan_long (x ∷ b) 10 http_methods (omega arith) h))))
