-- ===== src/Manager/Access/Enters.antt =====
-- server/device.cpp: use and ask meet the specification of users and locks.
use mathlib.Core.Path.{fun_ext}
use device.Base.{
  ℕ, ◌≡◌, refl, sym, ap, ◌∙◌, inl, inr, arith, Bool, true, false, [], ◌∷◌, ◌==◌, ==_iff, length,
  Bytes, text, Result, ok, err, crash, Bool-cases, continue,
}
use device.Map.{NumberSet, number_key, has, insert, erase, has-insert, has-erase}
use device.Device.{
  Drivers, Device, use_device, use_if_needed, ask, ask_logged, log_message, ask_driver, log_answer,
}
use device.Device.Invariant.{IsSound}
use device.Manager.Access.{shared, held, joined, left, Enters, Asks, is_ok, first_user, view}

pub members-insert :
    (c : ℕ) (us : NumberSet)
    → ◌≡◌ {A = ℕ → Bool} (λ j. has j (insert c tt us)) (joined c (λ j. has j us))
members-insert c us = fun_ext (λ j. has-insert c j tt us)

pub members-erase :
    (c : ℕ) (us : NumberSet) → ◌≡◌ {A = ℕ → Bool} (λ j. has j (erase c us)) (left c (λ j. has j us))
members-erase c us = fun_ext (λ j. has-erase c j us)

-- Who uses already may enter again.
pub joined_self :
    (c : ℕ) (users : ℕ → Bool) → users c ≡ true → ◌≡◌ {A = ℕ → Bool} (joined c users) users
joined_self c users h = fun_ext (λ j. elim (Bool-cases (c == j)) [
  | inl e ↦ let k : users c ≡ users j = ap users ((==_iff c j).0 e) in rw e (sym h ∙ k)
  | inr e ↦ rw e refl
])

pub view-shared :
    {Opt Drv : Type 0} (d : Device Opt Drv)
    → d.locked ≡ false
    → view d ≡ shared (λ j. has j d.users)
unfolding view
view-shared d h = rw h refl

pub view-held :
    {Opt Drv : Type 0} (d : Device Opt Drv) → d.locked ≡ true → view d ≡ held (first_user d.users)
unfolding view
view-held d h = rw h refl

-- The owner is the only user.
pub owner_has :
    {Opt Drv : Type 0} (d : Device Opt Drv) (c : ℕ)
    → IsSound d
    → d.locked ≡ true
    → has c d.users ≡ (first_user d.users == c)
owner_has d c v h = go d.users (v.exclusive h)
  where
    go : (us : NumberSet) → length us ≡ 1 → has c us ≡ (first_user us == c)
    go [] e = absurd (omega arith)
    go ((j, u) ∷ []) e = unfold has in unfold first_user in ground arith
    go (u ∷ u' ∷ us) e = absurd (omega arith)

module _ {Opt Drv : Type 0} (c : ℕ) (d : Device Opt Drv) (v : IsSound d) where
  user-Enters : has c d.users ≡ true → Enters c (view d) true (view d)
  unfolding Enters
  user-Enters u = elim (Bool-cases d.locked) [
    | inl k ↦ rw (view-held d k) (ground (arith, owner_has d c v k), refl)
    | inr k ↦ rw (view-shared d k) (sym (ap shared (joined_self c (λ j. has j d.users) u)))
  ]

  stranger_refused : has c d.users ≡ false → Enters c (view d) false (view d)
  unfolding Enters
  stranger_refused u = elim (Bool-cases d.locked) [
    | inl k ↦ rw (view-held d k) (ground (arith, owner_has d c v k), refl)
    | inr k ↦ rw (view-shared d k) (u, refl)
  ]

  pub joined_shared :
      (e : Device Opt Drv)
      → d.locked ≡ false
      → e.locked ≡ false
      → e.users ≡ insert c tt d.users
      → view e ≡ shared (joined c (λ j. has j d.users))
  joined_shared e k l u =
      view-shared e l
      ∙ ap (λ (us : NumberSet). shared (λ j. has j us)) u
      ∙ ap shared (members-insert c d.users)

-- What follows `use` in ask leaves users and lock alone.
abbrev pub Keeps : {Opt Drv : Type 0} → Device Opt Drv → Device Opt Drv → Type 0
Keeps e e' = (e'.users ≡ e.users) × (e'.locked ≡ e.locked)

pub Keeps-view : {Opt Drv : Type 0} (e e' : Device Opt Drv) → Keeps e e' → view e' ≡ view e
unfolding view
Keeps-view e e' (u, l) = rw (u, l) refl

log_message-Keeps :
    {Opt Drv : Type 0} (pref msg : Bytes) (e : Device Opt Drv) → Keeps e (log_message pref msg e)
unfolding log_message
log_message-Keeps pref msg e = (ground arith, ground arith)

module _ {Opt Drv World : Type 0} (drivers : Drivers Opt Drv World) where
  ask_driver-Keeps :
      (msg : Bytes) (e : Device Opt Drv) (x : World) → Keeps e (ask_driver drivers msg (e, x)).1.0
  unfolding ask_driver
  ask_driver-Keeps msg e x = (ground arith, ground arith)

  log_answer-Keeps :
      (r : Result Bytes) (e : Device Opt Drv) (x : World)
      → Keeps e (log_answer drivers (r, (e, x))).1.0
  unfolding log_answer
  log_answer-Keeps (ok m) e x = log_message-Keeps _ m e
  log_answer-Keeps (err m) e x = log_message-Keeps _ m e
  log_answer-Keeps crash e x = (refl, refl)

  pub ask_logged-Keeps :
      (msg : Bytes) (e : Device Opt Drv) (x : World) → Keeps e (ask_logged drivers msg (e, x)).1.0
  unfolding ask_logged
  ask_logged-Keeps msg e x = elim (Bool-cases (length e.log_bufs == 0)) [
    | inl z ↦ rw z (ask_driver-Keeps msg e x)
    | inr z ↦ rw z (
        let e' = log_message (text ">> ") msg e in
        let s = ask_driver drivers msg (e', x) in
        let a = log_answer-Keeps s.0 s.1.0 s.1.1 in
        let b = ask_driver-Keeps msg e' x in
        let k = log_message-Keeps (text ">> ") msg e in (a.0 ∙ b.0 ∙ k.0, a.1 ∙ b.1 ∙ k.1))
  ]

module _ {Opt Drv World : Type 0} (drivers : Drivers Opt Drv World) (c : ℕ) (d : Device Opt Drv)
    (w : World) where
  -- The outcomes of `use`.
  pub data Used (s : Result (Unit {0}) × (Device Opt Drv × World)) : Type 0 where
    stays : has c d.users ≡ true → s ≡ (ok tt, (d, w)) → Used s
    refused : has c d.users ≡ false → d.locked ≡ true → is_ok s.0 ≡ false → s.1.0 ≡ d → Used s
    fails : has c d.users ≡ false → d.locked ≡ false → is_ok s.0 ≡ false → s.1.0 ≡ d → Used s
    joins :
        d.locked ≡ false
        → is_ok s.0 ≡ true
        → s.1.0.locked ≡ false
        → s.1.0.users ≡ insert c tt d.users
        → Used s

  pub use_device-Used : Used (use_device drivers c (d, w))
  unfolding use_device
  use_device-Used = elim (Bool-cases (has c d.users)) [
    | inl u ↦ stays u (rw u refl)
    | inr u ↦ elim (Bool-cases d.locked) [
      | inl k ↦ refused u k (ground arith) (ground arith)
      | inr k ↦ elim (Bool-cases (is_ok (use_device drivers c (d, w)).0)) [
        | inl o ↦ joins k (ground arith) (ground arith) (ground arith)
        | inr o ↦ fails u k (ground arith) (ground arith)
      ]
    ]
  ]

  pub Used-Enters :
      (s : Result (Unit {0}) × (Device Opt Drv × World))
      → IsSound d
      → Used s
      → Enters c (view d) (is_ok s.0) (view s.1.0)
  unfolding Enters
  Used-Enters s v (stays u e) = rw e (user-Enters c d v u)
  Used-Enters s v (refused u k o e) = rw (o, e) (stranger_refused c d v u)
  Used-Enters s v (fails u k o e) = rw (o, e) (stranger_refused c d v u)
  Used-Enters s v (joins k o l e) = rw (o, view-shared d k) (joined_shared c d v s.1.0 k l e)

  pub use_if_needed-Used : Used (use_if_needed drivers c (d, w))
  unfolding use_if_needed
  use_if_needed-Used = elim (Bool-cases (has c d.users)) [
    | inl u ↦ stays u (rw u refl)
    | inr u ↦ rw u use_device-Used
  ]

  pub ask-Asks :
      (msg : Bytes)
      → IsSound d
      → Asks c (view d) (is_ok (ask drivers c msg (d, w)).0) (view (ask drivers c msg (d, w)).1.0)
  unfolding ask Asks
  ask-Asks msg v = go (use_if_needed drivers c (d, w)) (Used-Enters _ v use_if_needed-Used)
    where
      asked :
          (e : Device Opt Drv) (x : World)
          → Enters c (view d) true (view e)
          → Asks c
              (view d)
              (is_ok (ask_logged drivers msg (e, x)).0)
              (view (ask_logged drivers msg (e, x)).1.0)
      asked e x h =
          rw (Keeps-view e (ask_logged drivers msg (e, x)).1.0 (ask_logged-Keeps drivers msg e x))
            (elim (Bool-cases (is_ok (ask_logged drivers msg (e, x)).0)) [
              | inl o ↦ rw o h
              | inr o ↦ rw o (inr h)
            ])

      go :
          (s : Result (Unit {0}) × (Device Opt Drv × World))
          → Enters c (view d) (is_ok s.0) (view s.1.0)
          → Asks c
              (view d)
              (is_ok (continue s (λ _. ask_logged drivers msg)).0)
              (view (continue s (λ _. ask_logged drivers msg)).1.0)
      go (ok a, (e, x)) h = asked e x h
      go (err m, (e, x)) h = inl h
      go (crash, (e, x)) h = inl h
