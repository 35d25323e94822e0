-- ===== src/Security.antt =====
-- internal/security: the checks of sanitize.go and the password generator of credentials.go.
-- Strings are bytes. A rune above 0x7e takes bytes above 0x7e, so the loop over runes of
-- `ValidatePassword` rejects the same strings as one over bytes.
pub mod Accepts
pub mod Generated
mod Tests
use ssh_vpn.Common.{
  ℕ, suc, zero, ltb, leb, ◌==◌, ℤ, pos, pos_part, ltb_ℤ, Bytes, codes, bytes_eq, Bool, true, false,
  not, ◌&&◌, ◌||◌, List, [], ◌∷◌, map, any, length, get_elem?, Option, none, some, if◌then◌else◌,
}
use ssh_vpn.Common.Text.{lower}

pub data UsernameError : Type 0 where
  empty_name : UsernameError
  invalid_name : UsernameError
  reserved_name : UsernameError

abbrev pub is_letter : ℕ → Bool
is_letter b = (leb 97 b && leb b 122) || (leb 65 b && leb b 90)

-- `[a-zA-Z0-9_-]`
abbrev pub is_name_char : ℕ → Bool
is_name_char b = is_letter b || (leb 48 b && leb b 57) || b == 95 || b == 45

unfoldable pub all_name_chars : Bytes → Bool
all_name_chars [] = true
all_name_chars (b ∷ bs) = is_name_char b && all_name_chars bs

-- `^[a-zA-Z][a-zA-Z0-9_-]{2,31}$`
unfoldable pub username_regex : Bytes → Bool
unfolding all_name_chars
username_regex [] = false
username_regex (b ∷ bs) =
    is_letter b && leb 2 (length bs) && leb (length bs) 31 && all_name_chars bs

unfoldable pub reserved : List Bytes
reserved =
    codes "root"
    ∷ codes "admin"
    ∷ codes "daemon"
    ∷ codes "bin"
    ∷ codes "sys"
    ∷ codes "sync"
    ∷ codes "games"
    ∷ codes "man"
    ∷ codes "mail"
    ∷ codes "news"
    ∷ codes "uucp"
    ∷ codes "proxy"
    ∷ codes "www-data"
    ∷ codes "nobody"
    ∷ codes "sshd"
    ∷ codes "systemd-network"
    ∷ codes "sshvpn"
    ∷ codes "ubuntu"
    ∷ codes "debian"
    ∷ codes "centos"
    ∷ codes "postgres"
    ∷ codes "mysql"
    ∷ []

unfoldable pub is_reserved : Bytes → Bool
unfolding reserved lower
is_reserved s = any (bytes_eq (map lower s)) reserved

unfoldable pub validate_username : Bytes → Option UsernameError
unfolding username_regex is_reserved
validate_username [] = some empty_name
validate_username (b ∷ bs) =
    if not (username_regex (b ∷ bs))
    then some invalid_name
    else if is_reserved (b ∷ bs)
    then some reserved_name
    else none

pub data PasswordError : Type 0 where
  too_short : PasswordError
  too_long : PasswordError
  not_printable : PasswordError
  disallowed : ℕ → PasswordError

-- `:`, `"`, `'`, `\` and the backquote.
abbrev pub is_disallowed : ℕ → Bool
is_disallowed r = r == 58 || r == 34 || r == 39 || r == 92 || r == 96

unfoldable pub check_chars : Bytes → Option PasswordError
check_chars [] = none
check_chars (r ∷ rs) =
    let rest = check_chars rs in
    if ltb r 33 || ltb 126 r
    then some not_printable
    else if is_disallowed r
    then some (disallowed r)
    else rest

unfoldable pub validate_password : Bytes → Option PasswordError
unfolding check_chars
validate_password password =
    if ltb (length password) 6
    then some too_short
    else if ltb 128 (length password)
    then some too_long
    else check_chars password

abbrev pub charset : Bytes
charset = codes "abcdefghijkmnopqrstuvwxyzABCDEFGHJKLMNPQRSTUVWXYZ23456789"

infixl 5 ◌>>=◌
abbrev pub ◌>>=◌ : {A B : Type 0} → Option A → (A → Option B) → Option B
none >>= f = none
some a >>= f = f a

-- The loop from index `i` on for `count` characters. `draw i` is what `rand.Int` returns at the
-- index, `none` an error; an index outside of the character set would panic.
unfoldable pub characters : (ℕ → Option ℕ) → ℕ → ℕ → Option Bytes
characters draw i zero = some []
characters draw i (suc count) = do
  n ← draw i
  c ← get_elem? charset n
  rest ← characters draw (suc i) count
  some (c ∷ rest)

unfoldable pub generate_random_password : (ℕ → Option ℕ) → ℤ → Option Bytes
unfolding characters
generate_random_password draw len =
    characters draw 0 (if ltb_ℤ len (pos 8) then 8 else pos_part len)
