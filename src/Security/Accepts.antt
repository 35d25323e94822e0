-- ===== src/Security/Accepts.antt =====
-- What internal/security/sanitize.go accepts, described without a program.
use ssh_vpn.Common.{
  ℕ, ◌≤◌, Bytes, Bool, true, false, not, [], ◌∷◌, All, length, none, some, if◌then◌else◌, ◌≡◌, ◌≢◌,
  ◌↔◌, refl, arith, ◌⊎◌,
}
use ssh_vpn.Security.{
  all_name_chars, username_regex, is_reserved, invalid_name, reserved_name, validate_username,
  check_chars, validate_password,
}

abbrev pub IsLetter : ℕ → Type 0
IsLetter b = ((97 ≤ b) × (b ≤ 122)) ⊎ ((65 ≤ b) × (b ≤ 90))

abbrev pub IsNameChar : ℕ → Type 0
IsNameChar b = IsLetter b ⊎ (((48 ≤ b) × (b ≤ 57)) ⊎ ((b ≡ 95) ⊎ (b ≡ 45)))

-- A letter, then 2 to 31 letters, digits, underscores or hyphens.
abbrev pub IsName : Bytes → Type 0
IsName [] = ⊥
IsName (b ∷ bs) = IsLetter b × (2 ≤ length bs) × (length bs ≤ 31) × All IsNameChar bs

all_name_chars_iff : (bs : Bytes) → (all_name_chars bs ≡ true) ↔ All IsNameChar bs
unfolding all_name_chars
all_name_chars_iff [] = ((λ _. tt), (λ _. refl))
all_name_chars_iff (b ∷ bs) = ground (arith, all_name_chars_iff bs)

username_regex_iff : (s : Bytes) → (username_regex s ≡ true) ↔ IsName s
unfolding username_regex
username_regex_iff [] = ground arith
username_regex_iff (b ∷ bs) = ground (arith, all_name_chars_iff bs)

-- `ValidateUsername` accepts exactly the strings that are a letter and 2 to 31 letters, digits,
-- underscores or hyphens, and that are not reserved when folded to lower case.
pub validate_username_iff :
    (s : Bytes) → (validate_username s ≡ none) ↔ (IsName s × (is_reserved s ≡ false))
unfolding validate_username
validate_username_iff [] = ground arith
validate_username_iff (b ∷ bs) =
    let named = username_regex_iff (b ∷ bs) in
    let accepted = verdict (username_regex (b ∷ bs)) (is_reserved (b ∷ bs)) in
    ((λ h. (named.0 (accepted.0 h).0, (accepted.0 h).1)), (λ h. accepted.1 (named.1 h.0, h.1)))
  where
    verdict :
        (r x : Bool)
        → ((if not r then some invalid_name else if x then some reserved_name else none) ≡ none)
          ↔ ((r ≡ true) × (x ≡ false))
    verdict r x = ground arith

-- A printable character of ASCII that is no space, colon, quote, backquote or backslash.
abbrev pub IsAllowed : ℕ → Type 0
IsAllowed r = (33 ≤ r) × (r ≤ 126) × (r ≢ 58) × (r ≢ 34) × (r ≢ 39) × (r ≢ 92) × (r ≢ 96)

pub check_chars_iff : (rs : Bytes) → (check_chars rs ≡ none) ↔ All IsAllowed rs
unfolding check_chars
check_chars_iff [] = ((λ _. tt), (λ _. refl))
check_chars_iff (r ∷ rs) = ground (arith, check_chars_iff rs)

-- `ValidatePassword` accepts exactly the passwords of 6 to 128 printable ASCII characters with
-- no space, colon, quote, backquote or backslash.
pub validate_password_iff :
    (p : Bytes)
    → (validate_password p ≡ none) ↔ ((6 ≤ length p) × (length p ≤ 128) × All IsAllowed p)
unfolding validate_password
validate_password_iff p = ground (arith, check_chars_iff p)
