-- ===== src/Security/Tests.antt =====
-- Runs of the models of internal/security.
use ssh_vpn.Common.{
  ℕ, ◌≤◌, ◌<◌, pos, ◌≤ℤ◌, Bytes, codes, false, All, length, Option, none, some, ◌≡◌, ◌↔◌, refl,
  arith,
}
use ssh_vpn.Security.{is_reserved, validate_username, validate_password, generate_random_password}
use ssh_vpn.Security.Accepts.{IsName, IsAllowed, validate_username_iff, validate_password_iff}
use ssh_vpn.Security.Generated.{generate_random_password-validate_password}

validate_username_iff_example :
    (validate_username (codes "al_ice-7") ≡ none)
    ↔ (IsName (codes "al_ice-7") × (is_reserved (codes "al_ice-7") ≡ false))
validate_username_iff_example = validate_username_iff (codes "al_ice-7")

validate_password_iff_example : (validate_password (codes "s3cret") ≡ none) ↔ (
    (6 ≤ length (codes "s3cret"))
    × (length (codes "s3cret") ≤ 128)
    × All IsAllowed (codes "s3cret"))
validate_password_iff_example = validate_password_iff (codes "s3cret")

abbrev draws : ℕ → Option ℕ
draws i = some 56

draws_low : (j : ℕ) → (n : ℕ) × (draws j ≡ some n) × (n < 57)
draws_low j = (56, refl, omega arith)

generate_random_password-validate_password_example :
    (pw : Bytes) × (generate_random_password draws (pos 10) ≡ some pw)
    × (pos 10 ≤ℤ pos 8 → length pw ≡ 8)
    × (pos 8 ≤ℤ pos 10 → pos (length pw) ≡ pos 10)
    × (validate_password pw ≡ none)
generate_random_password-validate_password_example =
    generate_random_password-validate_password draws (pos 10) draws_low (omega arith)
