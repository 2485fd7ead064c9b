-- ===== src/Manager/Access/Lock.antt =====
-- server/device.cpp: lock meets the specification of users and locks.
use device.Base.{
  ℕ, ◌≡◌, ◌≢◌, refl, sym, ap, ◌∙◌, subst, inl, inr, arith, Bool, true, false, ◌==◌, ==_iff, length,
  Result, ok, err, crash, Bool-cases, continue,
}
use device.Map.{NumberSet, number_key, has, insert, has-insert, has_only}
use device.Map.Sets.{IsAscending, insert-IsAscending, second_user}
use device.Device.{Drivers, Device, use_if_needed, lock, set_locked}
use device.Device.Invariant.{IsSound}
use device.Device.Locking.{has_other}
use device.Manager.Access.{Access, shared, held, joined, Locks, is_ok, first_user, view}
use device.Manager.Access.Enters.{
  joined_self, joined_shared, view-shared, view-held, owner_has, use_if_needed-Used, stays, refused,
  fails, joins, Used,
}

stranger-Locks :
    {Opt Drv : Type 0} (c : ℕ) (d : Device Opt Drv)
    → IsSound d
    → has c d.users ≡ false
    → Locks c (view d) false (view d)
unfolding Locks
stranger-Locks c d v u = elim (Bool-cases d.locked) [
  | inl k ↦ rw (view-held d k) (ground (arith, owner_has d c v k), refl)
  | inr k ↦ rw (view-shared d k) (inl (u, refl))
]

module _ {Opt Drv World : Type 0} (drivers : Drivers Opt Drv World) (c : ℕ) (d : Device Opt Drv)
    (w : World) where
  pub Used-IsAscending :
      (s : Result (Unit {0}) × (Device Opt Drv × World))
      → IsAscending d.users
      → Used drivers c d w s
      → IsAscending s.1.0.users
  Used-IsAscending s v (stays u e) = rw e v
  Used-IsAscending s v (refused u k o e) = rw e v
  Used-IsAscending s v (fails u k o e) = rw e v
  Used-IsAscending s v (joins k o l e) = rw e (insert-IsAscending c d.users v)

  -- The connection is a user of the unlocked device `e`, and the other users are those of `d`.
  record Joined (e : Device Opt Drv) : Type 0 where
    member : has c e.users ≡ true
    others : (j : ℕ) → c ≢ j → has j e.users ≡ has j d.users
    distinct : IsAscending e.users
    entered : view e ≡ shared (joined c (λ j. has j d.users))

  set_locked-Locks :
      (e : Device Opt Drv) (x : World)
      → Joined e
      → Locks c
          (shared (λ j. has j d.users))
          (is_ok (set_locked drivers (e, x)).0)
          (view (set_locked drivers (e, x)).1.0)
  unfolding set_locked Locks view
  set_locked-Locks e x v = elim (Bool-cases (length e.users == 1)) [
    | inl one ↦
        let (u, only) = has_only c e.users v.member ((==_iff (length e.users) 1).0 one) in
        rw one (
          ap (λ (us : NumberSet). held (first_user us)) only,
          λ j ne.
              sym (v.others j ne)
              ∙ has_other e.users c j v.member ((==_iff (length e.users) 1).0 one) ne,
        )
    | inr more ↦
        let (j, ne, h) = second_user e.users c v.distinct v.member (λ k. ground arith) in
        rw more (inr (v.entered, j, ne, sym (v.others j ne) ∙ h))
  ]

  -- The owner takes the lock that it has.
  lock_again :
      IsSound d
      → has c d.users ≡ true
      → d.locked ≡ true
      → Locks c
          (view d)
          (is_ok (set_locked drivers (d, w)).0)
          (view (set_locked drivers (d, w)).1.0)
  unfolding set_locked Locks
  lock_again v u k =
      let one : (length d.users == 1) ≡ true = (==_iff (length d.users) 1).1 (v.exclusive k) in
      rw (one, view-held d k)
        (ground (arith, owner_has d c v k), view-held (record d { locked = true }) refl)

  -- What is thrown ends the call.
  thrown :
      (P : Bool → Access → Type 0) (s : Result (Unit {0}) × (Device Opt Drv × World))
      → is_ok s.0 ≡ false
      → P false (view s.1.0)
      → P
          (is_ok (continue s (λ _. set_locked drivers)).0)
          (view (continue s (λ _. set_locked drivers)).1.0)
  thrown P (ok a, s) o h = cc
  thrown P (err e, s) o h = h
  thrown P (crash, s) o h = h

  pub lock-Locks :
      IsSound d
      → IsAscending d.users
      → Locks c (view d) (is_ok (lock drivers c (d, w)).0) (view (lock drivers c (d, w)).1.0)
  unfolding lock
  lock-Locks v set = go (use_if_needed drivers c (d, w)) (use_if_needed-Used drivers c d w)
    where
      stay : has c d.users ≡ true → d.locked ≡ false → Joined d
      stay u k = record {
        member = u;
        others = λ j ne. refl;
        distinct = set;
        entered = view-shared d k ∙ ap shared (sym (joined_self c (λ j. has j d.users) u));
      }

      join :
          (e : Device Opt Drv)
          → d.locked ≡ false
          → e.locked ≡ false
          → e.users ≡ insert c tt d.users
          → Joined e
      join e k l u = record {
        member = ground (arith, has-insert c c tt d.users);
        others = λ j ne. ground (arith, has-insert c j tt d.users);
        distinct = subst IsAscending (sym u) (insert-IsAscending c d.users set);
        entered = joined_shared c d v e k l u;
      }

      refuse :
          (s : Result (Unit {0}) × (Device Opt Drv × World))
          → has c d.users ≡ false
          → is_ok s.0 ≡ false
          → s.1.0 ≡ d
          → Locks c
              (view d)
              (is_ok (continue s (λ _. set_locked drivers)).0)
              (view (continue s (λ _. set_locked drivers)).1.0)
      refuse s u o e = thrown (λ b t. Locks c (view d) b t) s o (rw e (stranger-Locks c d v u))

      go :
          (s : Result (Unit {0}) × (Device Opt Drv × World))
          → Used drivers c d w s
          → Locks c
              (view d)
              (is_ok (continue s (λ _. set_locked drivers)).0)
              (view (continue s (λ _. set_locked drivers)).1.0)
      go s (stays u e) = rw e (elim (Bool-cases d.locked) [
        | inl k ↦ lock_again v u k
        | inr k ↦ rw (view-shared d k) (set_locked-Locks d w (stay u k))
      ])
      go s (refused u k o e) = refuse s u o e
      go s (fails u k o e) = refuse s u o e
      go (ok a, (e, x)) (joins k o l u) = rw (view-shared d k) (set_locked-Locks e x (join e k l u))
      go (err m, (e, x)) (joins k o l u) = cc
      go (crash, (e, x)) (joins k o l u) = cc
