-- ===== src/User/Account.antt =====
-- `UserRecord` of internal/store/store.go and `statusOf` of internal/user/manager.go. A time is
-- its nanoseconds since Go's zero time, so `IsZero` is being 0; a string is its list of bytes.
use ssh_vpn.Common.{
  ℕ, ◌+◌, ◌-◌, ◌%◌, ◌^◌, ltb, leb, ◌==◌, ℤ, pos, negsuc, pos_part, neg_part, leb_ℤ, ltb_ℤ, Bytes,
  codes, bytes_eq, Bool, not, ◌&&◌, ◌||◌, if◌then◌else◌,
}

pub record UserRecord : Type 0 where
  pub username : Bytes
  pub max_connections : ℤ
  pub expires_at : ℕ
  pub created_at : ℕ
  pub disabled : Bool
  pub lock_reason : Bytes
  pub notes : Bytes
  pub traffic_limit : ℤ
  pub traffic_used : ℤ
  pub last_seen : ℕ

abbrev pub lock_manual : Bytes
lock_manual = codes "manual"

abbrev pub lock_expired : Bytes
lock_expired = codes "expired"

abbrev pub lock_quota : Bytes
lock_quota = codes "quota"

unfoldable pub is_expired : UserRecord → ℕ → Bool
is_expired u now = not (u.expires_at == 0) && not (ltb now (u.expires_at))

unfoldable pub quota_exceeded : UserRecord → Bool
quota_exceeded u = ltb_ℤ (pos 0) (u.traffic_limit) && leb_ℤ (u.traffic_limit) (u.traffic_used)

pub data Status : Type 0 where
  active : Status
  expired : Status
  locked : Status
  quota : Status

unfoldable pub status_of : UserRecord → ℕ → Status
unfolding is_expired quota_exceeded
status_of u now =
    if u.disabled && bytes_eq (u.lock_reason) lock_quota
    then quota
    else if is_expired u now || (u.disabled && bytes_eq (u.lock_reason) lock_expired)
    then expired
    else if u.disabled
    then locked
    else if quota_exceeded u
    then quota
    else active

-- The value of an `int64` for an integer: modulo 2 ^ 64, from -2 ^ 63 on.
unfoldable pub int64 : ℤ → ℤ
int64 (pos n) = let m = n % 2 ^ 64 in if ltb m (2 ^ 63) then pos m else negsuc (2 ^ 64 - m - 1)
int64 (negsuc n) = let m = n % 2 ^ 64 in if ltb m (2 ^ 63) then negsuc m else pos (2 ^ 64 - m - 1)

abbrev pub difference : ℕ → ℕ → ℤ
difference m n = if leb n m then pos (m - n) else negsuc (n - m - 1)

-- `a + b` on `int64`.
unfoldable pub add_int64 : ℤ → ℤ → ℤ
unfolding int64
add_int64 a b = int64 (difference (pos_part a + pos_part b) (neg_part a + neg_part b))
