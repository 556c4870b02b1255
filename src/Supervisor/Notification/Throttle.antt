-- ===== src/Supervisor/Notification/Throttle.antt =====
-- The toasts of src/supervisor/notification.rs over a delivery.
use gdut_net.Base.{
  ℕ, ◌+◌, ◌<◌, ◌≤◌, ◌≡◌, ◌⊎◌, refl, String, true, false, not, some, List, [], ◌∷◌, ◌++◌, any,
  retain, arith,
}
use gdut_net.Supervisor.Types.{ToastKey, heartbeat_error, redial_failing, notify}
use gdut_net.Supervisor.Notification.{
  NotificationLedger, key_eq, remove_first, find_delivery, pending, on_result, throttled,
  maybe_notify,
}

key_eq_refl : (key : ToastKey) → key_eq key key ≡ true
key_eq_refl heartbeat_error = refl
key_eq_refl redial_failing = refl

any-appended :
    (key : ToastKey) (ks : List ToastKey) → any (λ k. key_eq k key) (ks ++ key ∷ []) ≡ true
any-appended key [] = rw (key_eq_refl key) refl
any-appended key (k ∷ ks) = let h = any-appended key ks in ground arith

remove_first-appended :
    (key : ToastKey) (ks : List ToastKey)
    → any (λ k. key_eq k key) ks ≡ false
    → remove_first key (ks ++ key ∷ []) ≡ ks
unfolding remove_first
remove_first-appended key [] h = rw (key_eq_refl key) refl
remove_first-appended key (k ∷ ks) h = let rest = remove_first-appended key ks in ground arith

find_delivery-opened :
    (key : ToastKey) (now : ℕ) (ds : List (ToastKey × ℕ))
    → find_delivery key (retain (λ entry. not (key_eq entry.0 key)) ds ++ (key, now) ∷ [])
      ≡ some now
unfolding find_delivery retain
find_delivery-opened key now [] = rw (key_eq_refl key) refl
find_delivery-opened key now ((k, at) ∷ ds) =
    let rest = find_delivery-opened key now ds in ground arith

-- A toast that may be sent is sent. While its delivery is out, no toast of its key is sent. Once it
-- is delivered, at a time `done`, a toast of the key is sent again from 30 minutes after it on and
-- not before; where the delivery failed, the next one is sent as if the first had not been.
pub toast_throttled :
    (key : ToastKey) (title body : String) (sent done now : ℕ) (l : NotificationLedger)
    → pending key l ≡ false
    → throttled sent (find_delivery key l.delivered_at) ≡ false
    → done ≤ now
    → let flying = (maybe_notify key title body sent l).0 in
      let delivered = on_result key true done flying in
      ((maybe_notify key title body sent l).1 ≡ notify key title body ∷ [])
      × ((maybe_notify key title body now flying).1 ≡ [])
      × (on_result key false done flying ≡ l)
      × (((now < done + 1800000) × ((maybe_notify key title body now delivered).1 ≡ []))
          ⊎ ((done + 1800000 ≤ now)
              × ((maybe_notify key title body now delivered).1 ≡ notify key title body ∷ [])))
unfolding maybe_notify on_result throttled
toast_throttled key title body sent done now l idle open_ d =
    let flies = any-appended key l.in_flight in
    let removed = remove_first-appended key l.in_flight idle in
    let opened = find_delivery-opened key done l.delivered_at in ground arith
