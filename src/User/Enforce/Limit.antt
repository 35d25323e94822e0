-- ===== src/User/Enforce/Limit.antt =====
-- The limit on simultaneous connections in internal/daemon/daemon.go.
use ssh_vpn.Common.{
  ℕ, ◌-◌, ◌≤◌, ◌<◌, pos, ltb_ℤ, Bytes, codes, bytes_eq, Bool, true, false, ◌&&◌, List, ◌++◌, length,
  length-take, length-drop, take, drop, take-append-drop, if◌then◌else◌, ◌≡◌, refl, arith,
}
use ssh_vpn.Config.{LimiterConfig}
use ssh_vpn.User.Account.{UserRecord, is_expired, quota_exceeded}
use ssh_vpn.User.Enforce.{disconnect, leave, victims, over_limit, action}
use ssh_vpn.User.Session.{Session}

-- The victims and the sessions left are the sessions, cut in two with exactly `limit` left: the
-- newest ones are cut off under the policy `newest`, the oldest ones under any other.
abbrev pub IsCut : Bool → ℕ → List Session → List Session → Type 0
IsCut true limit ss gone = (left : List Session) × (length left ≡ limit) × (left ++ gone ≡ ss)
IsCut false limit ss gone = (left : List Session) × (length left ≡ limit) × (gone ++ left ≡ ss)

victims-IsCut :
    (policy : Bytes) (limit : ℕ) (ss : List Session)
    → limit ≤ length ss
    → IsCut (bytes_eq policy (codes "newest")) limit ss (victims policy (length ss - limit) ss)
unfolding victims
victims-IsCut policy limit ss h = by_policy (bytes_eq policy (codes "newest"))
  where
    by_policy :
        (b : Bool)
        → IsCut b limit ss
            (if b then drop (length ss - (length ss - limit)) ss else take (length ss - limit) ss)
    by_policy true = (
      take (length ss - (length ss - limit)) ss,
      omega (arith, length-take (length ss - (length ss - limit)) ss),
      take-append-drop (length ss - (length ss - limit)) ss,
    )
    by_policy false = (
      drop (length ss - limit) ss,
      omega (arith, length-drop (length ss - limit) ss),
      take-append-drop (length ss - limit) ss,
    )

-- An account in good standing with more sessions than its limit, while the limiter is enabled,
-- has sessions disconnected such that exactly the limit is left: the newest of them go under
-- the policy `newest`, the oldest otherwise.
pub action-IsCut :
    (limiter : LimiterConfig) (now : ℕ) (u : UserRecord) (ss : List Session) (limit : ℕ)
    → u.disabled ≡ false
    → is_expired u now ≡ false
    → quota_exceeded u ≡ false
    → limiter.enabled ≡ true
    → u.max_connections ≡ pos limit
    → 0 < limit
    → limit < length ss
    → (gone : List Session) × (action limiter now u ss ≡ disconnect gone)
      × IsCut (bytes_eq (limiter.policy) (codes "newest")) limit ss gone
unfolding action over_limit
action-IsCut limiter now u ss limit d e q on m low high = (
  victims (limiter.policy) (length ss - limit) ss,
  rw (d, e, q, on, m, above) refl,
  victims-IsCut (limiter.policy) limit ss (omega arith),
)
  where
    above : (ltb_ℤ (pos 0) (pos limit) && ltb_ℤ (pos limit) (pos (length ss))) ≡ true
    above = ground arith

-- Where the limiter is off, or the account has no limit or no more sessions than its limit, no
-- session of an account in good standing is disconnected.
pub action-leave :
    (limiter : LimiterConfig) (now : ℕ) (u : UserRecord) (ss : List Session)
    → u.disabled ≡ false
    → is_expired u now ≡ false
    → quota_exceeded u ≡ false
    → over_limit limiter u ss ≡ false
    → action limiter now u ss ≡ leave
unfolding action
action-leave limiter now u ss d e q o = rw (d, e, q, o) refl
