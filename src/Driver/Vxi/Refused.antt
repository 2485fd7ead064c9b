-- ===== src/Driver/Vxi/Refused.antt =====
-- Driver_vxi::Driver_vxi in server/drv_vxi.cpp: the options that it refuses.
use device.Base.{
  ◌≡◌, refl, Bool, true, false, List, [], ◌∷◌, Bytes, text, beq, ◌||◌, err, ◌⊎◌, inl, inr,
}
use device.Driver.Setup.{Options}
use device.Driver.Vxi.{VxiCalls, VxiDoubles, vxi_options, new_vxi}

-- Whether a name is in the list.
unfoldable pub known : Bytes → List Bytes → Bool
known name [] = false
known name (n ∷ ns) = beq name n || known name ns

module _ {F World : Type 0} (opts : Options F) (doubles : VxiDoubles F)
    (calls : VxiCalls F World) where
  unknown_refused :
      (e : Bytes) (w : World)
      → opts.check_unknown vxi_options ≡ err e
      → new_vxi opts doubles calls w ≡ (err e, w)
  unfolding new_vxi
  unknown_refused e w h = rw h refl

  -- With the option lock_timeout or errpref, both documented, the constructor throws before it
  -- calls the library, whatever the values are. check_unknown throws if an option that exists is
  -- not in its list.
  pub new_vxi_refused :
      (w : World)
      → ((name : Bytes) (names : List Bytes)
          → opts.exists name ≡ true
          → known name names ≡ false
          → (e : Bytes) × (opts.check_unknown names ≡ err e))
      → (opts.exists (text "lock_timeout") ≡ true) ⊎ (opts.exists (text "errpref") ≡ true)
      → (e : Bytes) × (new_vxi opts doubles calls w ≡ (err e, w))
  unfolding known beq text
  new_vxi_refused w checks (inl h) =
      let (e, k) = checks (text "lock_timeout") vxi_options h refl in (e, unknown_refused e w k)
  new_vxi_refused w checks (inr h) =
      let (e, k) = checks (text "errpref") vxi_options h refl in (e, unknown_refused e w k)
