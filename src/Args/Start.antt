-- ===== src/Args/Start.antt =====
-- dnrd-2.20.3/src/main.c with args.c: how main sets the current servers, and what the options have
-- made of them.
use dnrd.Prelude.{ℕ, ◌-◌, ◌^◌, ◌≡◌, ◌≢◌, refl, List, [], ◌∷◌, none, some, arith, map, All}
use dnrd.Cache.{Cache}
use dnrd.Server.{Srv, Inf, update}
use dnrd.Server.Active.{Active}
use dnrd.Server.Startup.{Servers}
use dnrd.Query.{Queries}
use dnrd.Udp.{State}
use dnrd.Udp.Send.Ends.{CurrentActive, is_in}
use dnrd.Args.Served.{HasServers, IsServed, parse_options-IsServed}
use dnrd.Args.{Args, System, Arg, parse_args}

-- `i->current = i->srvlist->next`. (For a list without servers that is its head, which is not
-- modelled; the theorem below says that there is none.)
unfoldable pub first_current : Inf → Inf
first_current i = elim i.srvlist [
  | [] ↦ record i { current = none }
  | ◌∷◌ a l ↦ record i { current = some a }
]

-- The state at the call of `run`: `head` is the node of the empty list of servers of the head of
-- `inf_list`, whose `inactive` is -1, in 64 bits.
unfoldable pub start_state : ℕ → Queries → Cache → Servers → State
unfolding first_current
start_state head queries cache s = record {
  queries = queries;
  cache = cache;
  inf_list = map first_current s.inf_list;
  head_current = some head;
  srv =
      update s.srv head (record { addr = 0; inactive = 2 ^ 64 - 1; send_count = 0; send_time = 0 });
}

-- The current server of an interface is there, active and one of its list.
abbrev pub HasCurrent : (ℕ → Srv) → Inf → Type 0
HasCurrent srv i = ((a : ℕ) × (i.current ≡ some a)) × CurrentActive srv i

first_current-HasCurrent :
    (srv : ℕ → Srv) (head : ℕ) (x : Srv) (i : Inf)
    → HasServers srv i
    → All (λ a. a ≢ head) i.srvlist
    → HasCurrent (update srv head x) (first_current i)
unfolding first_current
first_current-HasCurrent srv head x i h apart = go i.srvlist refl h apart
  where
    go :
        (l : List ℕ)
        → i.srvlist ≡ l
        → (l ≢ []) × All (Active srv) l
        → All (λ a. a ≢ head) l
        → HasCurrent (update srv head x) (first_current i)
    go [] e (some_server, act) apart = absurd (some_server refl)
    go (a ∷ l) e (some_server, act) apart =
        rw (e, first_current)
          (
            (a, refl),
            λ b same.
                (unfold is_in in ground (arith, e, same), ground (arith, same, act.0, apart.0)),
          )

all_current :
    (srv : ℕ → Srv) (head : ℕ) (x : Srv) (l : List Inf)
    → All (HasServers srv) l
    → All (λ i. All (λ a. a ≢ head) i.srvlist) l
    → All (HasCurrent (update srv head x)) (map first_current l)
all_current srv head x [] h apart = tt
all_current srv head x (i ∷ l) h apart =
    (first_current-HasCurrent srv head x i h.0 apart.0, all_current srv head x l h.1 apart.1)

-- Whatever options are given, the program starts with a current server for every interface, which
-- is active and one of its list; the head's node is no server.
pub start_state-HasCurrent :
    (sys : System) (l : List Arg) (g g' : Args) (head : ℕ) (queries : Queries) (cache : Cache)
    → g.servers.inf_list ≡ []
    → parse_args sys l g ≡ some g'
    → All (λ i. All (λ a. a ≢ head) i.srvlist) g'.servers.inf_list
    → let s = start_state head queries cache g'.servers in All (HasCurrent s.srv) s.inf_list
unfolding start_state parse_args
start_state-HasCurrent sys l g g' head queries cache none_yet e apart =
    let none_served : IsServed g.servers = rw none_yet tt in
    all_current g'.servers.srv head
      (record { addr = 0; inactive = 2 ^ 64 - 1; send_count = 0; send_time = 0 })
      g'.servers.inf_list
      (parse_options-IsServed sys l (record g { def_inf_list = []; sp_hosts = []; exc_port = [] })
        g' none_served e)
      apart
