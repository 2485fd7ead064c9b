-- ===== src/Manager/Threads/Exclusive.antt =====
-- server/device.cpp: what a lock is worth among threads that go on in any order.
pub mod Moves
use device.Base.{
  ℕ, ◌≡◌, ◌≢◌, sym, ap, ◌∙◌, true, List, [], ◌∷◌, Bytes, inl, inr, Bool-cases, All, subst,
}
use device.Map.{number_key}
use device.Device.{Drivers, Device}
use device.Manager.{Libs}
use device.Manager.Access.Traces.{keeps_lock}
use device.Manager.Actions.{DeviceAction}
use device.Manager.Threads.{
  Pc, Threads, Event, calls, goes, is_returned, same_or_not, placed, placed_here, placed_other,
  begin, move, moved, step, interleave,
}
use device.Manager.Threads.Exclusive.Moves.{
  HeldBy, inside, outside, keeps, Stays, owner_moves, other_moves, owner_begins, other_begins,
}

module _ {Opt Drv World : Type 0} (libs : Libs Opt World) (drivers : Drivers Opt Drv World)
    (owner : ℕ) where
  -- The owner has the lock, it is the only user, and no other connection is behind the test of
  -- `locked`.
  pub record IsHeld (t : Threads Opt Drv World) : Type 0 where
    pub held : HeldBy owner t.device
    pub mine : inside (t.pc owner) ≡ true
    pub others : (j : ℕ) → j ≢ owner → outside (t.pc j) ≡ true

  moved-IsHeld_mine :
      (t : Threads Opt Drv World) (x : Pc × (Device Opt Drv × World))
      → IsHeld t
      → Stays libs drivers owner inside x
      → IsHeld (moved libs drivers t owner x)
  unfolding moved Stays
  moved-IsHeld_mine t (p, (d, w)) v (i, h) = record {
    held = h;
    mine = ap inside (placed_here t.pc owner p) ∙ i;
    others = λ j ne. ap outside (placed_other t.pc owner j p (λ e. ne (sym e))) ∙ v.others j ne;
  }

  moved-IsHeld_other :
      (t : Threads Opt Drv World) (c : ℕ) (x : Pc × (Device Opt Drv × World))
      → c ≢ owner
      → IsHeld t
      → Stays libs drivers owner outside x
      → IsHeld (moved libs drivers t c x)
  unfolding moved Stays
  moved-IsHeld_other t c (p, (d, w)) ne v (o, h) = record {
    held = h;
    mine = ap inside (placed_other t.pc c owner p ne) ∙ v.mine;
    others = λ j nj. elim (same_or_not c j) [
      | inl e ↦
          subst (λ i. outside (placed t.pc c p i) ≡ true) e (ap outside (placed_here t.pc c p) ∙ o)
      | inr e ↦ ap outside (placed_other t.pc c j p e) ∙ v.others j nj
    ];
  }

  goes-IsHeld :
      (c : ℕ) (t : Threads Opt Drv World) → IsHeld t → IsHeld (step libs drivers (goes c) t)
  unfolding step
  goes-IsHeld c t v = elim (same_or_not owner c) [
    | inl e ↦
        subst
          (λ i. IsHeld (moved libs drivers t i (move libs drivers i (t.pc i) (t.device, t.world))))
          e
          (moved-IsHeld_mine t _ v
            (owner_moves libs drivers owner (t.pc owner) t.device t.world v.mine v.held))
    | inr ne ↦
        let ne' : c ≢ owner = λ e. ne (sym e) in
        moved-IsHeld_other t c _ ne' v
          (other_moves libs drivers owner c (t.pc c) t.device t.world ne' (v.others c ne') v.held)
  ]

  calls-IsHeld :
      (c : ℕ) (a : DeviceAction) (msg : Bytes) (t : Threads Opt Drv World)
      → keeps_lock owner a c ≡ true
      → IsHeld t
      → IsHeld (moved libs drivers t c (begin libs drivers a c msg (t.device, t.world)))
  calls-IsHeld c a msg t k v = elim (same_or_not owner c) [
    | inl e ↦
        subst
          (λ i.
            keeps_lock owner a i ≡ true
            → IsHeld (moved libs drivers t i (begin libs drivers a i msg (t.device, t.world))))
          e
          (λ k'.
            moved-IsHeld_mine t _ v
              (owner_begins libs drivers owner a msg t.device t.world k' v.held))
          k
    | inr ne ↦
        let ne' : c ≢ owner = λ e. ne (sym e) in
        moved-IsHeld_other t c _ ne' v
          (other_begins libs drivers owner a c msg t.device t.world ne' k v.held)
  ]

  step-IsHeld :
      (e : Event) (t : Threads Opt Drv World)
      → keeps owner e ≡ true
      → IsHeld t
      → IsHeld (step libs drivers e t)
  unfolding step keeps
  step-IsHeld (goes c) t k v = goes-IsHeld c t v
  step-IsHeld (calls c a msg) t k v = elim (Bool-cases (is_returned (t.pc c))) [
    | inl e ↦ rw e (calls-IsHeld c a msg t k v)
    | inr e ↦ rw e v
  ]

  -- Once a connection holds the lock as the only user and no other thread is between its test of
  -- `locked` and the end of its call, nothing that the threads do in any order takes the lock away
  -- but `release` and `unlock` of the owner and a `close`: the owner stays the only user, and no other
  -- thread comes past the test, so none of them reaches the driver.
  pub interleave-IsHeld :
      (es : List Event) (t : Threads Opt Drv World)
      → IsHeld t
      → All (λ e. keeps owner e ≡ true) es
      → IsHeld (interleave libs drivers es t)
  unfolding interleave
  interleave-IsHeld [] t v k = v
  interleave-IsHeld (e ∷ es) t v (k, ks) =
      interleave-IsHeld es (step libs drivers e t) (step-IsHeld e t k v) ks
