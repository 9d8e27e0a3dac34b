-- ===== src/Args/Served.antt =====
-- dnrd-2.20.3/src/args.c: the options leave no interface without an active server.
use dnrd.Prelude.{
  ℕ, Bool, ◌||◌, ◌≡◌, ◌≢◌, refl, List, [], ◌∷◌, ◌++◌, Option, some, arith, ◌==◌, All, All-append,
  Bool-cases, Option-cases, inl, inr,
}
use dnrd.Text.{streq, streq_refl}
use dnrd.Cache.Config.{split_colon}
use dnrd.Server.{Srv, Inf, update}
use dnrd.Server.Active.{Active}
use dnrd.Server.Startup.{
  Servers, search_infnode, add_interface, add_srv_to, with_interface, add_server,
}
use dnrd.Args.{
  Args, System, Arg, add_special_host, set_stats, set_number, set_string, set_network, parse_option,
  parse_options,
}

-- An interface has a server, and its servers are active.
abbrev pub HasServers : (ℕ → Srv) → Inf → Type 0
HasServers srv i = (i.srvlist ≢ []) × All (Active srv) i.srvlist

-- Between two options, every interface has servers, all of them active.
abbrev pub IsServed : Servers → Type 0
IsServed s = All (HasServers s.srv) s.inf_list

Active-update :
    (srv : ℕ → Srv) (a : ℕ) (x : Srv) (l : List ℕ)
    → x.inactive ≡ 0
    → All (Active srv) l
    → All (Active (update srv a x)) l
Active-update srv a x [] e h = tt
Active-update srv a x (b ∷ l) e h = (ground (arith, e, h.0), Active-update srv a x l e h.1)

HasServers-update :
    (srv : ℕ → Srv) (a : ℕ) (x : Srv) (l : List Inf)
    → x.inactive ≡ 0
    → All (HasServers srv) l
    → All (HasServers (update srv a x)) l
HasServers-update srv a x [] e h = tt
HasServers-update srv a x (i ∷ l) e h =
    ((h.0.0, Active-update srv a x i.srvlist e h.0.1), HasServers-update srv a x l e h.1)

nonempty_end : (l : List ℕ) (a : ℕ) → l ++ (a ∷ []) ≢ []
nonempty_end [] a e = absurd (cc)
nonempty_end (b ∷ l) a e = absurd (cc)

-- The server is added to the first interface of the name; the others had servers before, and that
-- one may be new.
add_srv_to-HasServers :
    (srv : ℕ → Srv) (l : List Inf) (name : List ℕ) (a : ℕ)
    → Active srv a
    → All (HasServers srv) l
    → All (HasServers srv) (add_srv_to l name a)
unfolding add_srv_to
add_srv_to-HasServers srv [] name a act h = tt
add_srv_to-HasServers srv (i ∷ l) name a act h = elim (Bool-cases (streq i.inf name)) [
  | inl o ↦
      rw (o, add_srv_to)
        (
          (nonempty_end i.srvlist a, All-append (Active srv) i.srvlist (a ∷ []) h.0.1 (act, tt)),
          h.1,
        )
  | inr o ↦ rw (o, add_srv_to) (h.0, add_srv_to-HasServers srv l name a act h.1)
]

with_interface-HasServers :
    (srv : ℕ → Srv) (l : List Inf) (name : List ℕ) (a : ℕ)
    → Active srv a
    → All (HasServers srv) l
    → All (HasServers srv) (add_srv_to (with_interface l name) name a)
unfolding with_interface add_interface add_srv_to
with_interface-HasServers srv l name a act h = elim (Option-cases (search_infnode l name)) [
  | inr (i, e) ↦ rw (e, with_interface) (add_srv_to-HasServers srv l name a act h)
  | inl e ↦ rw (e, with_interface, add_srv_to, streq_refl name) ((nonempty_end [] a, (act, tt)), h)
]

add_server-IsServed :
    (valid : List ℕ → Bool) (inet_aton : List ℕ → Option ℕ) (a : ℕ) (optarg : List ℕ)
    (s s' : Servers)
    → IsServed s
    → add_server valid inet_aton a optarg s ≡ some s'
    → IsServed s'
unfolding add_server
add_server-IsServed valid inet_aton a optarg s s' h e = elim (Option-cases (split_colon optarg)) [
  | inl o ↦ absurd (ground (arith, rw (o, add_server) at e))
  | inr ((ip, name), o) ↦ elim (Option-cases (inet_aton ip)) [
    | inl f ↦ absurd (ground (arith, rw (o, add_server, f) at e))
    | inr (addr, f) ↦ elim (Bool-cases (valid name)) [
      | inr v ↦ absurd (ground (arith, rw (o, add_server, f, v) at e))
      | inl v ↦
          let x : Srv = record { addr = addr; inactive = 0; send_count = 0; send_time = 0 } in
          let srv = update s.srv a x in
          let same : record {
            inf_list = add_srv_to (with_interface s.inf_list name) name a;
            srv = srv;
          }
              ≡ s' =
            ground (arith, rw (o, add_server, f, v) at e) in
          rw (← same) (
            with_interface-HasServers srv s.inf_list name a (ground arith)
              (HasServers-update s.srv a x s.inf_list refl h))
    ]
  ]
]

set_string-servers :
    (c : ℕ) (optarg : List ℕ) (g g' : Args)
    → set_string c optarg g ≡ some g'
    → g'.servers ≡ g.servers
unfolding set_string
set_string-servers c optarg g g' e = ground (arith, e)

set_number-servers :
    (c : ℕ) (optarg : List ℕ) (g g' : Args)
    → set_number c optarg g ≡ some g'
    → g'.servers ≡ g.servers
unfolding set_number
set_number-servers c optarg g g' e = ground (arith, e)

set_stats-servers : (optarg : List ℕ) (g : Args) → (set_stats optarg g).servers ≡ g.servers
unfolding set_stats
set_stats-servers optarg g = ground arith

add_special_host-servers :
    (sys : System) (optarg : List ℕ) (g g' : Args)
    → add_special_host sys optarg g ≡ some g'
    → g'.servers ≡ g.servers
unfolding add_special_host
add_special_host-servers sys optarg g g' e = elim (Option-cases (split_colon optarg)) [
  | inl o ↦ absurd (ground (arith, rw (o, add_special_host) at e))
  | inr ((host, inf), o) ↦ ground (arith, rw (o, add_special_host) at e)
]

set_network-IsServed :
    (sys : System) (x : Arg) (g g' : Args)
    → IsServed g.servers
    → set_network sys x g ≡ some g'
    → IsServed g'.servers
unfolding set_network
set_network-IsServed sys x g g' h e = elim (Bool-cases (x.c == b'a')) [
  | inl a ↦ let same : g'.servers ≡ g.servers = ground (arith, a, e) in rw same h
  | inr a ↦ elim (Bool-cases (x.c == b'D')) [
    | inl d ↦ let same : g'.servers ≡ g.servers = ground (arith, a, d, e) in rw same h
    | inr d ↦ elim (Bool-cases (x.c == b'H')) [
      | inl k ↦ rw (add_special_host-servers sys x.optarg g g' (rw (a, set_network, d, k) at e)) h
      | inr k ↦
          elim (Option-cases (add_server sys.valid sys.inet_aton x.address x.optarg g.servers)) [
            | inl o ↦ absurd (ground (arith, rw (a, set_network, d, k, o) at e))
            | inr (s, o) ↦
                let same : s ≡ g'.servers = ground (arith, rw (a, set_network, d, k, o) at e) in
                rw (← same)
                  (add_server-IsServed sys.valid sys.inet_aton x.address x.optarg g.servers s h o)
          ]
    ]
  ]
]

parse_option-IsServed :
    (sys : System) (x : Arg) (g g' : Args)
    → IsServed g.servers
    → parse_option sys x g ≡ some g'
    → IsServed g'.servers
unfolding parse_option
parse_option-IsServed sys x g g' h e =
    elim (Bool-cases (x.c == b'd' || x.c == b'M' || x.c == b'r' || x.c == b't' || x.c == b'x')) [
      | inl n ↦ rw (set_number-servers x.c x.optarg g g' (rw (n, parse_option) at e)) h
      | inr n ↦ elim (Bool-cases (x.c == b'S')) [
        | inl s ↦
            let same : set_stats x.optarg g ≡ g' = ground (arith, rw (n, parse_option, s) at e) in
            rw (← same, set_stats-servers x.optarg g) h
        | inr s ↦ elim (Bool-cases (x.c == b'a' || x.c == b'D' || x.c == b'H' || x.c == b's')) [
          | inl w ↦ set_network-IsServed sys x g g' h (rw (n, parse_option, s, w) at e)
          | inr w ↦ rw (set_string-servers x.c x.optarg g g' (rw (n, parse_option, s, w) at e)) h
        ]
      ]
    ]

pub parse_options-IsServed :
    (sys : System) (l : List Arg) (g g' : Args)
    → IsServed g.servers
    → parse_options sys l g ≡ some g'
    → IsServed g'.servers
unfolding parse_options
parse_options-IsServed sys [] g g' h e = let same : g ≡ g' = ground (arith, e) in rw (← same) h
parse_options-IsServed sys (x ∷ l) g g' h e = elim (Option-cases (parse_option sys x g)) [
  | inl o ↦ absurd (ground (arith, rw (o, parse_options) at e))
  | inr (v, o) ↦
      parse_options-IsServed sys l v g' (parse_option-IsServed sys x g v h o)
        (rw (o, parse_options) at e)
]
