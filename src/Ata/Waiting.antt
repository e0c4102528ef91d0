-- ===== src/Ata/Waiting.antt =====
-- The waits of the driver, on a controller that serves it.
use native.Mathlib.Decide.{ℕ_discrete}
use master_os.Base.{ℕ, zero, suc, ◌<◌, ◌≡◌, ◌≢◌, refl, ◌∙◌, arith, Bool, true}
use master_os.Ata.{Controller, wait_bsy_from, wait_drq_from, ata_wait_drq}
use master_os.Ata.Serving.{IsServing}

module _ {C : Controller} (h : IsServing C) where
  pub record Same (s s' : C.State) : Type 0 where
    pub position : h.position s' ≡ h.position s
    pub disk : h.disk s' ≡ h.disk s

  -- The driver may go on.
  pub record IsReady (s : C.State) (r : Bool × C.State) : Type 0 where
    pub ok : r.0 ≡ true
    pub free : h.busy r.1 ≡ 0
    pub same : Same s r.1

  IsReady-step :
      (s : C.State) (r : Bool × C.State) → IsReady (C.in_port_b 0x1F7 s).1 r → IsReady s r
  IsReady-step s r q = record {
    ok = q.ok;
    free = q.free;
    same = record {
      position = q.same.position ∙ h.status_position s;
      disk = q.same.disk ∙ h.status_disk s;
    };
  }

  pub wait_bsy_from-IsReady :
      (timeout : ℕ) (s : C.State) → h.busy s < timeout → IsReady s (wait_bsy_from C timeout s)
  unfolding wait_bsy_from
  wait_bsy_from-IsReady zero s lt = absurd (omega arith)
  wait_bsy_from-IsReady (suc timeout) s lt = elim (ℕ_discrete (h.busy s) 0) [
    | yes e ↦ rw (h.status_ready s e) (record {
      ok = refl;
      free = omega (arith, h.status_waits s);
      same = record { position = h.status_position s; disk = h.status_disk s };
    })
    | no ne ↦ rw (h.status_busy s ne) (
        IsReady-step s (wait_bsy_from C timeout (C.in_port_b 0x1F7 s).1)
          (wait_bsy_from-IsReady timeout (C.in_port_b 0x1F7 s).1 (omega (arith, h.status_waits s))))
  ]

  wait_drq_from-IsReady :
      (timeout : ℕ) (s : C.State)
      → h.busy s ≡ 0
      → (h.position s).left ≢ 0
      → IsReady s (wait_drq_from C (suc timeout) s)
  unfolding wait_drq_from
  wait_drq_from-IsReady timeout s e ne =
      rw (h.no_error s e, h.asks s e ne)
        (record {
          ok = refl;
          free = omega (arith, h.status_waits s);
          same = record { position = h.status_position s; disk = h.status_disk s };
        })

  pub ata_wait_drq-IsReady :
      (s : C.State) → h.busy s ≡ 0 → (h.position s).left ≢ 0 → IsReady s (ata_wait_drq C s)
  ata_wait_drq-IsReady = wait_drq_from-IsReady 99999
