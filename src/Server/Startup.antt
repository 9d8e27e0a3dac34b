-- ===== src/Server/Startup.antt =====
-- dnrd-2.20.3/src/infnode.c, srvnode.c and args.c: the option -s, which adds a server to the
-- interface that it names, and the interface where it is new.
use dnrd.Prelude.{
  ℕ, Bool, true, false, ◌≡◌, ◌≢◌, refl, sym, ◌∙◌, Option-cases, List, [], ◌∷◌, ◌++◌, Option, none,
  some, arith, if◌then◌else◌, Bool-cases, inl, inr,
}
use dnrd.Text.{streq, streq-eq, streq_refl}
use dnrd.Cache.Config.{split_colon}
use dnrd.Server.{Srv, Inf, update}

-- The interfaces behind the head of `inf_list`, and the servers' nodes.
pub record Servers : Type 0 where
  pub inf_list : List Inf
  pub srv : ℕ → Srv

-- `search_infnode`.
unfoldable pub search_infnode : List Inf → List ℕ → Option Inf
search_infnode [] name = none
search_infnode (i ∷ l) name =
    let rest = search_infnode l name in if streq i.inf name then some i else rest

-- `add_interface`: the new node, with no server, goes behind the head. (Its `current`, which nothing sets
-- before the loop of the program, is NULL: `allocate` clears the memory.)
unfoldable pub add_interface : List Inf → List ℕ → List Inf
add_interface l name = record { inf = name; srvlist = []; current = none } ∷ l

-- `add_srv` behind `last_srvnode`, at the new address `a`, in the list of the interface that
-- `search_infnode` finds.
unfoldable pub add_srv_to : List Inf → List ℕ → ℕ → List Inf
add_srv_to [] name a = []
add_srv_to (i ∷ l) name a =
    let rest = add_srv_to l name a in
    if streq i.inf name then record i { srvlist = i.srvlist ++ (a ∷ []) } ∷ l else i ∷ rest

-- The interfaces once the named one is there.
unfoldable pub with_interface : List Inf → List ℕ → List Inf
unfolding search_infnode add_interface
with_interface l name = elim (search_infnode l name) [ none ↦ add_interface l name | some i ↦ l ]

-- The case `s` of the loop over the options. `valid` is `validate_interface`, which asks the
-- system; the result `none` ends the program.
unfoldable pub add_server :
    (List ℕ → Bool) → (List ℕ → Option ℕ) → ℕ → List ℕ → Servers → Option Servers
unfolding with_interface add_srv_to split_colon
add_server valid inet_aton a optarg s = elim (split_colon optarg) [
  | none ↦ none
  | some (ip, name) ↦ elim (inet_aton ip) [
    | none ↦ none
    | some addr ↦
        if valid name
        then some (record {
          inf_list = add_srv_to (with_interface s.inf_list name) name a;
          srv =
              update s.srv a (record { addr = addr; inactive = 0; send_count = 0; send_time = 0 });
        })
        else none
  ]
]

-- The servers of the interface that a name finds.
abbrev pub servers_of : Option Inf → List ℕ
servers_of none = []
servers_of (some i) = i.srvlist

search_infnode-add_srv_to :
    (l : List Inf) (name : List ℕ) (a : ℕ) (i : Inf)
    → search_infnode l name ≡ some i
    → search_infnode (add_srv_to l name a) name
      ≡ some (record i { srvlist = i.srvlist ++ (a ∷ []) })
unfolding search_infnode add_srv_to
search_infnode-add_srv_to [] name a i e = absurd (ground (arith, e))
search_infnode-add_srv_to (j ∷ l) name a i e = elim (Bool-cases (streq j.inf name)) [
  | inl o ↦
      let same : j ≡ i = ground (arith, rw (o, search_infnode) at e) in
      rw (o, add_srv_to, search_infnode, o, same) refl
  | inr o ↦
      rw (o, add_srv_to, search_infnode, o)
        (search_infnode-add_srv_to l name a i (rw (o, search_infnode) at e))
]

streq-neq : (x y z : List ℕ) → streq x y ≡ true → z ≢ y → streq x z ≡ false
streq-neq x y z e apart = elim (Bool-cases (streq x z)) [
  | inl o ↦ absurd (apart (sym (streq-eq x z o) ∙ streq-eq x y e))
  | inr o ↦ o
]

search_infnode-others :
    (l : List Inf) (name other : List ℕ) (a : ℕ)
    → other ≢ name
    → search_infnode (add_srv_to l name a) other ≡ search_infnode l other
unfolding search_infnode add_srv_to
search_infnode-others [] name other a apart = refl
search_infnode-others (j ∷ l) name other a apart = elim (Bool-cases (streq j.inf name)) [
  | inl o ↦
      let differ = streq-neq j.inf name other o apart in
      rw (o, add_srv_to, search_infnode, differ) refl
  | inr o ↦ rw (o, add_srv_to, search_infnode, search_infnode-others l name other a apart) refl
]

with_interface_lem :
    (l : List Inf) (name : List ℕ)
    → ((i : Inf) × (search_infnode (with_interface l name) name ≡ some i)
        × (i.srvlist ≡ servers_of (search_infnode l name)))
      × ((other : List ℕ)
          → other ≢ name
          → search_infnode (with_interface l name) other ≡ search_infnode l other)
unfolding search_infnode add_interface with_interface
with_interface_lem l name = elim (Option-cases (search_infnode l name)) [
  | inr (i, e) ↦ rw (e, with_interface) ((i, e, refl), λ other apart. refl)
  | inl e ↦
      let fresh : Inf = record { inf = name; srvlist = []; current = none } in
      rw (e, with_interface)
        (
          (fresh, ground (arith, streq_refl name), refl),
          λ other apart. ground (arith, streq-neq name name other (streq_refl name) apart),
        )
]

-- Where the option is taken, the interface that it names is found, and its servers are those it
-- had, if any, with the new one last; the new server is active and has the address; what the
-- search finds under other names, and the other servers' nodes, stay.
pub add_server_lem :
    (valid : List ℕ → Bool) (inet_aton : List ℕ → Option ℕ) (a addr : ℕ) (optarg ip name : List ℕ)
    (s s' : Servers)
    → split_colon optarg ≡ some (ip, name)
    → inet_aton ip ≡ some addr
    → add_server valid inet_aton a optarg s ≡ some s'
    → ((i : Inf) × (search_infnode s'.inf_list name ≡ some i)
        × (i.srvlist ≡ servers_of (search_infnode s.inf_list name) ++ (a ∷ [])))
      × ((s'.srv a).addr ≡ addr)
      × ((s'.srv a).inactive ≡ 0)
      × ((other : List ℕ)
          → other ≢ name
          → search_infnode s'.inf_list other ≡ search_infnode s.inf_list other)
      × ((b : ℕ) → b ≢ a → s'.srv b ≡ s.srv b)
unfolding add_server
add_server_lem valid inet_aton a addr optarg ip name s s' e f o = elim (Bool-cases (valid name)) [
  | inr v ↦ absurd (ground (arith, rw (e, add_server, f, v) at o))
  | inl v ↦
      let l = with_interface s.inf_list name in
      let same : record {
        inf_list = add_srv_to l name a;
        srv = update s.srv a (record { addr = addr; inactive = 0; send_count = 0; send_time = 0 });
      }
          ≡ s' =
        ground (arith, rw (e, add_server, f, v) at o) in
      let ((i, found, before), others) = with_interface_lem s.inf_list name in
      rw (← same) (
        (
          record i { srvlist = i.srvlist ++ (a ∷ []) },
          search_infnode-add_srv_to l name a i found,
          rw before refl,
        ),
        ground arith,
        ground arith,
        λ other apart. search_infnode-others l name other a apart ∙ others other apart,
        λ b apart. ground (arith, apart),
      )
]
