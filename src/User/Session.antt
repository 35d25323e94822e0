-- ===== src/User/Session.antt =====
-- `Session` and `ByUser` of internal/session/session.go.
use ssh_vpn.Common.{
  ℕ, Bytes, bytes_eq, Bool, true, false, List, [], ◌∷◌, ◌++◌, append_assoc, append-nil, ◌≡◌, refl,
  sym, ◌∙◌, if◌then◌else◌,
}

pub record Session : Type 0 where
  pub pid : ℕ
  pub monitor_pid : ℕ
  pub username : Bytes
  pub uid : ℕ
  pub client_ip : Bytes
  pub client_port : ℕ
  pub server_port : ℕ
  pub via : Bytes
  pub started_at : ℕ
  pub bytes : ℕ
  pub udpgw_ports : List ℕ

-- `map[string][]Session`: a missing name has the nil slice.
abbrev pub Groups : Type 0
Groups = Bytes → List Session

-- The loop of `ByUser`, on the map so far.
unfoldable pub group : Groups → List Session → Groups
group m [] = m
group m (s ∷ ss) =
    group (λ name. if bytes_eq (s.username) name then m name ++ (s ∷ []) else m name) ss

unfoldable pub by_user : List Session → Groups
unfolding group
by_user sessions = group (λ name. []) sessions

-- The sessions of one user, in their order.
unfoldable pub sessions_of : Bytes → List Session → List Session
sessions_of name [] = []
sessions_of name (s ∷ ss) =
    let rest = sessions_of name ss in if bytes_eq (s.username) name then s ∷ rest else rest

group-sessions_of :
    (m : Groups) (name : Bytes) (ss : List Session)
    → group m ss name ≡ m name ++ sessions_of name ss
unfolding group sessions_of
group-sessions_of m name [] = sym (append-nil (m name))
group-sessions_of m name (s ∷ ss) =
    group-sessions_of (λ name. if bytes_eq (s.username) name then m name ++ (s ∷ []) else m name)
      name ss
    ∙ put (bytes_eq (s.username) name)
  where
    put :
        (b : Bool)
        → (if b then m name ++ (s ∷ []) else m name) ++ sessions_of name ss
          ≡ m name ++ (if b then s ∷ sessions_of name ss else sessions_of name ss)
    put true = append_assoc (m name) (s ∷ []) (sessions_of name ss)
    put false = refl

pub by_user-sessions_of : (name : Bytes) (ss : List Session) → by_user ss name ≡ sessions_of name ss
unfolding by_user
by_user-sessions_of name ss = group-sessions_of (λ name. []) name ss
