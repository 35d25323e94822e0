-- ===== src/User/Bucket/Laws.antt =====
-- What an update leaves in the bucket.
use ssh_vpn.Common.{
  Bytes, bytes_eq, bytes_eq_iff, Bool, true, false, Option, none, some, ◌≡◌, refl, ◌⊎◌, inl, inr,
  if◌then◌else◌, arith,
}
use ssh_vpn.User.Account.{UserRecord}
use ssh_vpn.User.Bucket.{Bucket, UserError, store_answer, update_found, update_user}

pub bytes_eq_refl : (k : Bytes) → bytes_eq k k ≡ true
bytes_eq_refl k = ground (arith, bytes_eq_iff k k)

module _ {S : Type 0} (bucket : Bucket S) where
  -- What an update that answered `r` and left `t` has done: an error leaves the database alone; a
  -- record was made by `fn` from the stored one and is stored, with every other name as it was.
  abbrev pub Updated :
      S → Bytes → (UserRecord → UserError ⊎ UserRecord) → (UserError ⊎ UserRecord) × S → Type 0
  Updated s name fn (inl e, t) = t ≡ s
  Updated s name fn (inr u, t) =
      ((old : UserRecord) × ((bucket.get) s name ≡ some old) × (fn old ≡ inr u))
      × ((j : Bytes) → (bucket.get) t j ≡ (if bytes_eq name j then some u else (bucket.get) s j))

  pub update_user-Updated :
      (opens : Bool) (s : S) (name : Bytes) (fn : UserRecord → UserError ⊎ UserRecord)
      → Updated s name fn (update_user bucket opens s name fn)
  unfolding update_user update_found store_answer
  update_user-Updated false s name fn = refl
  update_user-Updated true s name fn = by_old ((bucket.get) s name) refl
    where
      by_answer :
          (old : UserRecord) (r : UserError ⊎ UserRecord)
          → (bucket.get) s name ≡ some old
          → fn old ≡ r
          → Updated s name fn (store_answer bucket s name r)
      by_answer old (inl x) e f = refl
      by_answer old (inr u) e f = ((old, e, f), λ j. (bucket.get-put) s name j u)

      by_old :
          (o : Option UserRecord)
          → (bucket.get) s name ≡ o
          → Updated s name fn (update_found bucket s name o fn)
      by_old none e = refl
      by_old (some old) e = by_answer old (fn old) e refl
