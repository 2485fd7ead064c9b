-- ===== src/Manager/Requests/Sweeps.antt =====
-- server/dev_manager.cpp: the loop of conn_close, which takes no lock, and a reload.
use device.Base.{
  some, ℕ, suc, ◌==◌, ◌≡◌, ◌≢◌, refl, sym, ap, ◌∙◌, arith, true, false, List, [], ◌∷◌, length,
  Bytes, ok, crash,
}
use device.Device.{Drivers, Device}
use device.Manager.{Libs, ConfLine}
use device.Manager.Conf.{copy_all, read_lines}
use device.Manager.Requests.{
  At, out, waits, sweeps, Store, Event, goes, leaves, reads, is_out, first_step, sweep_from,
  conf_opened, parsed, placed, at_end, map_assigned, swept, next_step, step, interleave,
}
use device.Manager.Requests.Fits.{placed_here, placed_other}
use device.Manager.Names.{delete_devices}
use device.Map.Names.{keys}
use device.Map.{Map, number_key, bytes_key}

module _ {Opt Drv World : Type 0} (libs : Libs Opt World) (drivers : Drivers Opt Drv World) where
  goes_at :
      (c : ℕ) (a : At Opt Drv) (s : Store Opt Drv World)
      → s.pos c ≡ a
      → step libs drivers (goes c) s ≡ next_step libs drivers c a s
  unfolding step
  goes_at c a s e = ap (λ x. next_step libs drivers c x s) e

  map_assigned_free :
      (c : ℕ) (ret : Map Bytes (Device Opt Drv)) (s : Store Opt Drv World)
      → (length s.holders == 0) ≡ true
      → map_assigned libs drivers c ret s
        ≡ at_end libs drivers c (ok []) (record s {
          devices = copy_all ret;
          reloads = suc s.reloads;
          world = delete_devices drivers s.devices s.world;
        })
  unfolding map_assigned
  map_assigned_free c ret s h = rw h refl

  swept_late :
      (c g : ℕ) (ns : List Bytes) (s : Store Opt Drv World)
      → (g == s.reloads) ≡ false
      → swept libs drivers c g ns s ≡ at_end libs drivers c crash s
  unfolding swept
  swept_late c g ns s h = rw h refl

  leaves_at :
      (c : ℕ) (s : Store Opt Drv World)
      → is_out (s.pos c) ≡ true
      → step libs drivers (leaves c) s ≡ first_step libs drivers (leaves c) s
  unfolding step
  leaves_at c s h = rw h refl

  reads_at :
      (c : ℕ) (s : Store Opt Drv World)
      → is_out (s.pos c) ≡ true
      → step libs drivers (reads c) s ≡ first_step libs drivers (reads c) s
  unfolding step
  reads_at c s h = rw h refl

  -- A thread is in the loop over the devices, its iterator into the map as it is, and another is
  -- about to assign the devices that it has read; no request has the shared lock.
  sweep_late :
      (c j : ℕ) (ns : List Bytes) (ret : Map Bytes (Device Opt Drv)) (s : Store Opt Drv World)
      → c ≢ j
      → s.pos c ≡ sweeps s.reloads ns
      → s.pos j ≡ waits ret
      → (length s.holders == 0) ≡ true
      → ((interleave libs drivers (goes j ∷ []) s).devices ≡ copy_all ret)
        × ((interleave libs drivers (goes j ∷ []) s).pos j ≡ out (ok []))
        × ((interleave libs drivers (goes j ∷ goes c ∷ []) s).pos c ≡ out crash)
  unfolding interleave next_step at_end
  sweep_late c j ns ret s ne at_c at_j free =
      let t : Store Opt Drv World = at_end libs drivers j (ok []) (record s {
        devices = copy_all ret;
        reloads = suc s.reloads;
        world = delete_devices drivers s.devices s.world;
      }) in
      let assigns : step libs drivers (goes j) s ≡ t =
        goes_at j (waits ret) s at_j ∙ map_assigned_free j ret s free in
      let there : t.pos c ≡ sweeps s.reloads ns =
        placed_other s.pos j c (out (ok [])) (λ e. ne (sym e)) ∙ at_c in
      (
        ap (λ (u : Store Opt Drv World). u.devices) assigns,
        ap (λ (u : Store Opt Drv World). u.pos j) assigns ∙ placed_here s.pos j (out (ok [])),
        ap (λ (u : Store Opt Drv World). (step libs drivers (goes c) u).pos c) assigns
            ∙ ap (λ (u : Store Opt Drv World). u.pos c)
                (goes_at c (sweeps s.reloads ns) t there
                  ∙ swept_late c s.reloads ns t (ground arith))
            ∙ placed_here t.pos c (out crash),
      )

  -- No thread is in a call on a device, and there are devices. A connection is closed, which begins
  -- the loop of conn_close over them; another thread reads a configuration without an error. Then
  -- the reload does not wait for the loop: it replaces the map and returns, and the loop goes on
  -- through a dangling iterator.
  pub sweep_replaced :
      (c j : ℕ) (name : Bytes) (d : Device Opt Drv) (ds ret : Map Bytes (Device Opt Drv))
      (ls : List ConfLine) (w' : World) (s : Store Opt Drv World)
      → c ≢ j
      → is_out (s.pos c) ≡ true
      → is_out (s.pos j) ≡ true
      → s.holders ≡ []
      → s.devices ≡ (name, d) ∷ ds
      → libs.read_file s.devfile s.world ≡ (some ls, w')
      → read_lines libs s.devfile ls [] ≡ ok ret
      → ((interleave libs drivers (leaves c ∷ reads j ∷ goes j ∷ []) s).devices ≡ copy_all ret)
        × ((interleave libs drivers (leaves c ∷ reads j ∷ goes j ∷ []) s).pos j ≡ out (ok []))
        × ((interleave libs drivers (leaves c ∷ reads j ∷ goes j ∷ goes c ∷ []) s).pos c
            ≡ out crash)
  unfolding interleave first_step sweep_from conf_opened parsed keys
  sweep_replaced c j name d ds ret ls w' s ne at_c at_j free some_devices file read =
      let s1 : Store Opt Drv World = record s {
        pos = placed s.pos c (sweeps s.reloads (name ∷ keys ds));
      } in
      let s2 : Store Opt Drv World = record s1 { world = w'; pos = placed s1.pos j (waits ret) } in
      let begins : step libs drivers (leaves c) s ≡ s1 =
        leaves_at c s at_c ∙ ap (λ m. sweep_from libs drivers c (keys m) s) some_devices in
      let apart : s1.pos j ≡ s.pos j = placed_other s.pos c j _ ne in
      let reading : step libs drivers (reads j) s1 ≡ s2 =
        reads_at j s1 (ap is_out apart ∙ at_j)
        ∙ ap (λ f. conf_opened libs drivers j f s1) file
        ∙ ap (λ r. parsed libs drivers j r (record s1 { world = w' })) read in
      let there : s2.pos c ≡ sweeps s.reloads (name ∷ keys ds) =
        placed_other s1.pos j c (waits ret) (λ e. ne (sym e)) ∙ placed_here s.pos c _ in
      let (a, b, x) =
        sweep_late c j (name ∷ keys ds) ret s2 ne there (placed_here s1.pos j (waits ret))
          (ap (λ h. length h == 0) free) in
      let on : (es : List Event)
          → interleave libs drivers (leaves c ∷ reads j ∷ es) s ≡ interleave libs drivers es s2 =
        λ es.
          ap (λ u. interleave libs drivers (reads j ∷ es) u) begins
          ∙ ap (interleave libs drivers es) reading in
      (
        ap (λ (u : Store Opt Drv World). u.devices) (on (goes j ∷ [])) ∙ a,
        ap (λ (u : Store Opt Drv World). u.pos j) (on (goes j ∷ [])) ∙ b,
        ap (λ (u : Store Opt Drv World). u.pos c) (on (goes j ∷ goes c ∷ [])) ∙ x,
      )
