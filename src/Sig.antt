-- ===== src/Sig.antt =====
-- dnrd-2.20.3/src/sig.c: sig_handler. Every other signal ends the program.
use dnrd.Prelude.{ℕ, Bool, true, false, ◌||◌, ◌≡◌, refl, List, [], ◌∷◌, ◌==◌, if◌then◌else◌}
use dnrd.Master.Init.{Master}

pub data Signal : Type 0 where
  sigusr1 : Signal
  sighup : Signal

-- The variables that the handler sets.
pub record Signalled : Type 0 where
  pub opt_debug : ℕ
  pub master : Master

unfoldable pub sig_handler : Signal → Signalled → Signalled
sig_handler Signal.sigusr1 s = record s { opt_debug = if s.opt_debug == 0 then 3 else 0 }
sig_handler Signal.sighup s = record s { master = record s.master { master_reload = true } }

-- The signals that are pending when `pselect` lets them in.
unfoldable pub sig_handlers : List Signal → Signalled → Signalled
unfolding sig_handler
sig_handlers [] s = s
sig_handlers (g ∷ l) s = sig_handlers l (sig_handler g s)

abbrev pub has_sighup : List Signal → Bool
has_sighup [] = false
has_sighup (Signal.sigusr1 ∷ l) = has_sighup l
has_sighup (Signal.sighup ∷ l) = true

-- The signals leave the database, and ask for a reload where one of them is SIGHUP.
pub sig_handlers-master :
    (l : List Signal) (s : Signalled)
    → (sig_handlers l s).master
      ≡ record s.master { master_reload = s.master.master_reload || has_sighup l }
unfolding sig_handlers sig_handler
sig_handlers-master [] s = or_nothing s.master
  where
    or_nothing : (m : Master) → m ≡ record m { master_reload = m.master_reload || false }
    or_nothing m =
        elim m.master_reload
          as (λ b. record m { master_reload = b } ≡ record m { master_reload = b || false }) [
            | true ↦ refl
            | false ↦ refl
          ]
sig_handlers-master (Signal.sigusr1 ∷ l) s = sig_handlers-master l (sig_handler Signal.sigusr1 s)
sig_handlers-master (Signal.sighup ∷ l) s =
    after (sig_handlers-master l (sig_handler Signal.sighup s))
  where
    after :
        (sig_handlers l (sig_handler Signal.sighup s)).master
          ≡ record s.master { master_reload = true }
        → (sig_handlers l (sig_handler Signal.sighup s)).master
          ≡ record s.master { master_reload = s.master.master_reload || true }
    after e =
        elim s.master.master_reload
          as (λ b.
            (sig_handlers l (sig_handler Signal.sighup s)).master
            ≡ record s.master { master_reload = b || true }) [ true ↦ e | false ↦ e ]
