-- ===== src/Relay/Run/Reload.antt =====
-- dnrd-2.20.3/src/sig.c, relay.c and master.c: a reload of the local database by a signal.
use dnrd.Prelude.{Bool, true, false, ◌||◌, ◌≡◌, refl, ap, ◌∙◌, List}
use dnrd.Master.{reset_master}
use dnrd.Master.Load.{Environment}
use dnrd.Master.Init.{Paths, Master, master_init, master_reinit}
use dnrd.Sig.{Signal, Signalled, sig_handlers, has_sighup, sig_handlers-master}
use dnrd.Relay.Run.{World, Woken, Phase, after_sleep}

reinit_lem :
    (out : Environment) (paths : Paths) (m m' : Master)
    → m' ≡ record m { master_reload = true }
    → m.master_onoff ≡ true
    → let fresh = record m { master_reload = true; db = reset_master m.db } in
      master_reinit out paths m' ≡ record (master_init out paths fresh) { master_reload = false }
unfolding master_reinit
reinit_lem out paths m m' e on = rw (e, master_reinit, on) refl

or_true : (b : Bool) → (b || true) ≡ true
or_true true = refl
or_true false = refl

-- With the master on, a SIGHUP among the signals makes the loop read the database anew: the master
-- is as after `master_init` on the database that `reset_master` leaves, and the queries, the cache and the servers stay.
pub after_sleep_reloads :
    (signals : List Signal) (out : Environment) (paths : Paths) (w : World)
    → has_sighup signals ≡ true
    → w.master.master_onoff ≡ true
    → let w' = after_sleep (Woken.interrupted signals out paths) w in
      let fresh = record w.master { master_reload = true; db = reset_master w.master.db } in
      (w'.master ≡ record (master_init out paths fresh) { master_reload = false })
      × (w'.asking ≡ w.asking)
      × (w'.phase ≡ Phase.waiting)
unfolding after_sleep
after_sleep_reloads signals out paths w hup on =
    let s0 : Signalled = record { opt_debug = w.opt_debug; master = w.master } in
    let asked : (sig_handlers signals s0).master ≡ record w.master { master_reload = true } =
      sig_handlers-master signals s0
      ∙ ap (λ (b : Bool). record w.master { master_reload = b })
          (rw hup (or_true w.master.master_reload)) in
    (reinit_lem out paths w.master (sig_handlers signals s0).master asked on, refl, refl)
