-- ===== src/Daemon/Recent.antt =====
-- The events that the daemon keeps.
use ssh_vpn.Common.{
  ℕ, zero, suc, ◌+◌, ◌-◌, ◌≤◌, ltb, length, length-append, length-drop, drop, List, [], ◌∷◌, ◌++◌,
  append_assoc, append-nil, ◌≡◌, refl, sym, ap, ◌∙◌, arith, if-both, ltb→le,
}
use ssh_vpn.Daemon.{Event, Daemon, max_events, newest, event}

-- All of a log but what stands before its last 50 events.
unfoldable pub last_events : List Event → List Event
last_events es = drop (length es - max_events) es

drop_nothing : (n : ℕ) (xs : List Event) → n ≡ 0 → xs ≡ drop n xs
drop_nothing zero xs h = refl
drop_nothing (suc n) xs h = absurd (omega arith)

newest-last_events : (es : List Event) → newest es ≡ last_events es
unfolding last_events
newest-last_events es =
    if-both (λ (xs : List Event). xs ≡ drop (length es - max_events) es)
      (ltb max_events (length es)) _ es (λ _. refl)
      (λ few.
        drop_nothing (length es - max_events) es (omega (arith, ltb→le max_events (length es) few)))

drop_before : (n : ℕ) (xs ys : List Event) → n ≤ length xs → drop n xs ++ ys ≡ drop n (xs ++ ys)
drop_before zero xs ys h = refl
drop_before (suc n) [] ys h = absurd (omega arith)
drop_before (suc n) (x ∷ xs) ys h = drop_before n xs ys (omega arith)

drop_twice : (n m : ℕ) (xs : List Event) → n ≤ length xs → drop m (drop n xs) ≡ drop (n + m) xs
drop_twice zero m xs h = ap (λ k. drop k xs) (omega arith)
drop_twice (suc n) m [] h = absurd (omega arith)
drop_twice (suc n) m (x ∷ xs) h =
    drop_twice n m xs (omega arith) ∙ ap (λ k. drop k (x ∷ xs)) (next n m)
  where
    next : (n m : ℕ) → suc (n + m) ≡ suc n + m
    next n m = omega arith

-- What was cut off before makes no difference to the last events.
last_events-append :
    (es : List Event) (e : Event)
    → last_events (last_events es ++ (e ∷ [])) ≡ last_events (es ++ (e ∷ []))
unfolding last_events
last_events-append es e =
    let cut = length es - max_events in
    ap (λ xs. drop (length xs - max_events) xs) (drop_before cut es (e ∷ []) (omega arith))
    ∙ drop_twice cut _ (es ++ (e ∷ [])) (omega (arith, length-append es (e ∷ [])))
    ∙ ap (λ n. drop n (es ++ (e ∷ [])))
        (omega (arith, length-append es (e ∷ []), length-drop cut (es ++ (e ∷ []))))

unfoldable pub log : List Event → Daemon → Daemon
log [] d = d
log (e ∷ es) d = log es (event e d)

-- However many events a daemon logs, it keeps the last 50 of those it had and those it logs, in their
-- order.
pub log-last_events :
    (es old : List Event) (d : Daemon)
    → d.events ≡ last_events old
    → (log es d).events ≡ last_events (old ++ es)
unfolding log event
log-last_events [] old d h = h ∙ ap last_events (sym (append-nil old))
log-last_events (e ∷ es) old d h =
    log-last_events es (old ++ (e ∷ [])) (event e d) (
      newest-last_events (d.events ++ (e ∷ []))
      ∙ ap (λ xs. last_events (xs ++ (e ∷ []))) h
      ∙ last_events-append old e)
    ∙ ap last_events (append_assoc old (e ∷ []) es)
