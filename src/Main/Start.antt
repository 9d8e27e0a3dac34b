-- ===== src/Main/Start.antt =====
-- dnrd-2.20.3/src/main.c: how the program comes to its loop, and what the loop keeps of its start.
use dnrd.Prelude.{
  ℕ, ◌<◌, ◌==◌, ◌||◌, Bool, true, false, Option, ◌≡◌, ◌≢◌, refl, List, [], ◌∷◌, some, arith, not,
  length, map, All,
}
use dnrd.Cache.{Cache}
use dnrd.Server.{Inf}
use dnrd.Server.Apart.{Apart}
use dnrd.Master.Load.{Environment}
use dnrd.Master.Init.{Paths}
use dnrd.Args.{Args}
use dnrd.Args.Start.{first_current, start_state}
use dnrd.Relay.Head.{IsHeaded}
use dnrd.Relay.Run.{World, Options, Event, run}
use dnrd.Relay.Run.Head.{run-IsHeaded}
use dnrd.Main.{
  Creds, Calls, kill_current, Process, init_socket, init_dnrd_uid, dnrd_root_sanity_check,
  start_world,
}

first_current-Apart : (h : ℕ) (i : Inf) → All (λ a. a ≢ h) i.srvlist → Apart h (first_current i)
unfolding first_current
first_current-Apart h i apart = go i.srvlist refl apart
  where
    go : (l : List ℕ) → i.srvlist ≡ l → All (λ a. a ≢ h) l → Apart h (first_current i)
    go [] e k = rw (e, first_current) ((λ f. absurd (ground (arith, f))), apart)
    go (a ∷ l) e k = rw (e, first_current) ((λ f. k.0 (ground (arith, f))), apart)

first_currents-Apart :
    (h : ℕ) (l : List Inf)
    → All (λ i. All (λ a. a ≢ h) i.srvlist) l
    → All (Apart h) (map first_current l) × (length (map first_current l) ≡ length l)
first_currents-Apart h [] k = (tt, refl)
first_currents-Apart h (i ∷ l) k =
    let (rest, long) = first_currents-Apart h l k.1 in
    ((first_current-Apart h i k.0, rest), ground (arith, long))

-- Over every sequence of events from the start of the program, the `current` of the list's head stays
-- the node that `main` has set, which is no server, so that nothing is sent to it; there are interfaces,
-- and the node is none of their servers.
pub started-IsHeaded :
    (head : ℕ) (out : Environment) (paths : Paths) (cache : Cache) (g : Args) (opts : Options)
    (l : List Event) (w : World)
    → 0 < length g.servers.inf_list
    → All (λ i. All (λ a. a ≢ head) i.srvlist) g.servers.inf_list
    → run opts l (start_world head out paths cache g) ≡ some w
    → IsHeaded head w.asking.state
unfolding start_world start_state
started-IsHeaded head out paths cache g opts l w some_inf apart e =
    let (all, long) = first_currents-Apart head g.servers.inf_list apart in
    run-IsHeaded head opts l (start_world head out paths cache g) w
      (record { head = refl; some_inf = rw long some_inf; untouched = (ground arith, all, refl) }) e

-- What the manuals say of the calls: `chroot` is for the superuser, and changes the root alone;
-- `setgroups` and `setuid` let him do what he asks for.
pub record IsDocumented (c : Calls) : Type 0 where
  pub chroots :
      (p q : Creds) → c.chroot p ≡ some q → (p.uid ≡ 0) × (q ≡ record p { in_root = true })
  pub drops : (p : Creds) → p.uid ≡ 0 → c.setgroups p ≡ some (record p { groups = [] })
  pub sets : (u : ℕ) (p : Creds) → p.uid ≡ 0 → c.setuid u p ≡ some (record p { uid = u })

-- The rights that are left.
abbrev pub dropped : Calls → ℕ → Creds
dropped c u = record { uid = u; gid = c.creds.gid; groups = []; in_root = true }

-- How the program gets its terminal, or none.
abbrev pub Terminal : Bool → Option Bool → Bool → Bool → Type 0
Terminal true fork got gets = (fork ≡ some true) × (gets ≡ false)
Terminal false fork got gets = gets ≡ got

-- The program comes to its loop, as this process.
abbrev pub Enters : Calls → Args → Process → Type 0
Enters c g p =
    (kill_current c ≡ true)
    × (c.can_write_pid ≡ true)
    × (c.sem_init ≡ true)
    × (dnrd_root_sanity_check c.root ≡ true)
    × (init_socket c ≡ some p.port)
    × (init_dnrd_uid c g.dnrd_user ≡ some p.creds.uid)
    × (c.creds.uid ≡ 0)
    × ((jailed : Creds) × (c.chroot c.creds ≡ some jailed))
    × (p.creds ≡ dropped c p.creds.uid)
    × Terminal (g.opt_debug == 0 || not g.gotterminal) c.fork g.gotterminal p.gotterminal
