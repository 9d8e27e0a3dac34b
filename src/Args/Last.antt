-- ===== src/Args/Last.antt =====
-- dnrd-2.20.3/src/args.c: what the options with a number leave.
use dnrd.Prelude.{
  ℕ, false, ◌||◌, ◌≡◌, ap, ◌∙◌, List, [], ◌∷◌, some, arith, ◌==◌, if◌then◌else◌, Bool-cases,
  Option-cases, inl, inr,
}
use dnrd.Prelude.Int.{ℤ}
use dnrd.Cache.Config.{atoi, split_colon}
use dnrd.Args.{
  Args, System, Arg, add_special_host, set_stats, set_number, set_string, set_network, parse_option,
  parse_options, parse_args,
}

-- The number of the last option with a letter, or what was there before.
abbrev pub last_number : ℕ → List Arg → ℤ → ℤ
last_number c [] n = n
last_number c (x ∷ l) n = last_number c l (if x.c == c then atoi x.optarg else n)

-- The three numbers that the program reads in its loop.
abbrev Same : Args → Args → Type 0
Same g g' =
    (g'.forward_timeout ≡ g.forward_timeout)
    × (g'.reactivate_interval ≡ g.reactivate_interval)
    × (g'.max_sockets ≡ g.max_sockets)

add_special_host-Same :
    (sys : System) (optarg : List ℕ) (g g' : Args)
    → add_special_host sys optarg g ≡ some g'
    → Same g g'
unfolding add_special_host
add_special_host-Same sys optarg g g' e = elim (Option-cases (split_colon optarg)) [
  | inl o ↦ absurd (ground (arith, rw (o, add_special_host) at e))
  | inr ((host, inf), o) ↦ ground (arith, rw (o, add_special_host) at e)
]

set_stats-Same : (optarg : List ℕ) (g : Args) → Same g (set_stats optarg g)
unfolding set_stats
set_stats-Same optarg g = ground arith

set_string-Same :
    (c : ℕ) (optarg : List ℕ) (g g' : Args) → set_string c optarg g ≡ some g' → Same g g'
unfolding set_string
set_string-Same c optarg g g' e = ground (arith, e)

set_network-Same :
    (sys : System) (x : Arg) (g g' : Args) → set_network sys x g ≡ some g' → Same g g'
unfolding set_network
set_network-Same sys x g g' e = elim (Bool-cases (x.c == b'H')) [
  | inl h ↦ add_special_host-Same sys x.optarg g g' (ground (arith, h, e))
  | inr h ↦ ground (arith, h, e)
]

-- What one option makes of them.
abbrev Numbers : Arg → Args → Args → Type 0
Numbers x g g' =
    (g'.forward_timeout ≡ (if x.c == b't' then atoi x.optarg else g.forward_timeout))
    × (g'.reactivate_interval ≡ (if x.c == b'r' then atoi x.optarg else g.reactivate_interval))
    × (g'.max_sockets ≡ (if x.c == b'M' then atoi x.optarg else g.max_sockets))

set_number_lem : (x : Arg) (g g' : Args) → set_number x.c x.optarg g ≡ some g' → Numbers x g g'
unfolding set_number
set_number_lem x g g' e = ground (arith, e)

-- An option of another letter leaves them.
Same-Numbers :
    (x : Arg) (g g' : Args)
    → (x.c == b't') ≡ false
    → (x.c == b'r') ≡ false
    → (x.c == b'M') ≡ false
    → Same g g'
    → Numbers x g g'
Same-Numbers x g g' t r m (a, b, c) = ground arith

parse_option_lem :
    (sys : System) (x : Arg) (g g' : Args) → parse_option sys x g ≡ some g' → Numbers x g g'
unfolding parse_option
parse_option_lem sys x g g' e =
    elim (Bool-cases (x.c == b'd' || x.c == b'M' || x.c == b'r' || x.c == b't' || x.c == b'x')) [
      | inl n ↦ set_number_lem x g g' (rw (n, parse_option) at e)
      | inr n ↦
          let other =
            Same-Numbers x g g' (ground (arith, n)) (ground (arith, n)) (ground (arith, n)) in
          elim (Bool-cases (x.c == b'S')) [
            | inl s ↦
                let same : set_stats x.optarg g ≡ g' =
                  ground (arith, rw (n, parse_option, s) at e) in
                other (rw (← same) (set_stats-Same x.optarg g))
            | inr s ↦ elim (Bool-cases (x.c == b'a' || x.c == b'D' || x.c == b'H' || x.c == b's')) [
              | inl w ↦ other (set_network-Same sys x g g' (rw (n, parse_option, s, w) at e))
              | inr w ↦ other (set_string-Same x.c x.optarg g g' (rw (n, parse_option, s, w) at e))
            ]
          ]
    ]

parse_options_lem :
    (sys : System) (l : List Arg) (g g' : Args)
    → parse_options sys l g ≡ some g'
    → (g'.forward_timeout ≡ last_number b't' l g.forward_timeout)
      × (g'.reactivate_interval ≡ last_number b'r' l g.reactivate_interval)
      × (g'.max_sockets ≡ last_number b'M' l g.max_sockets)
unfolding parse_options
parse_options_lem sys [] g g' e = ground (arith, e)
parse_options_lem sys (x ∷ l) g g' e = elim (Option-cases (parse_option sys x g)) [
  | inl o ↦ absurd (ground (arith, rw (o, parse_options) at e))
  | inr (v, o) ↦
      let (t, r, m) = parse_option_lem sys x g v o in
      let (t', r', m') = parse_options_lem sys l v g' (rw (o, parse_options) at e) in
      (
        t' ∙ ap (last_number b't' l) t,
        r' ∙ ap (last_number b'r' l) r,
        m' ∙ ap (last_number b'M' l) m,
      )
]

-- Where the options do not end the program, the timeout, the retry interval and the number of
-- sockets are those of the last options -t, -r and -M, or what they were, whatever other options
-- there are and in whatever order.
pub parse_args_lem :
    (sys : System) (l : List Arg) (g g' : Args)
    → parse_args sys l g ≡ some g'
    → (g'.forward_timeout ≡ last_number b't' l g.forward_timeout)
      × (g'.reactivate_interval ≡ last_number b'r' l g.reactivate_interval)
      × (g'.max_sockets ≡ last_number b'M' l g.max_sockets)
unfolding parse_args
parse_args_lem sys l g g' e =
    parse_options_lem sys l (record g { def_inf_list = []; sp_hosts = []; exc_port = [] }) g' e
