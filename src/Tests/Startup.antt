-- ===== src/Tests/Startup.antt =====
-- The option -s for a second server of an interface.
use dnrd.Prelude.{ℕ, true, ◌≡◌, ◌≢◌, refl, List, [], ◌∷◌, ◌++◌, Option, none, some, if◌then◌else◌}
use dnrd.Cache.Config.{split_colon}
use dnrd.Text.{streq}
use dnrd.Server.{Inf}
use dnrd.Server.Startup.{Servers, servers_of, search_infnode, add_server, add_server_lem}

abbrev lan : Inf
lan = record { inf = b'l' ∷ []; srvlist = 7 ∷ []; current = none }

abbrev before : Servers
before = record {
  inf_list = lan ∷ [];
  srv = λ a. record { addr = a; inactive = 0; send_count = 0; send_time = 0 };
}

-- `4:l`, where `4` stands for an address in dots.
abbrev optarg : List ℕ
optarg = b'4' ∷ b':' ∷ b'l' ∷ []

abbrev inet_aton : List ℕ → Option ℕ
inet_aton ip = if streq ip (b'4' ∷ []) then some 44 else none

abbrev added : Servers
unfolding add_server
added = elim (add_server (λ n. true) inet_aton 9 optarg before) [ none ↦ before | some s ↦ s ]

server_added :
    ((i : Inf) × (search_infnode added.inf_list (b'l' ∷ []) ≡ some i)
      × (i.srvlist ≡ servers_of (search_infnode (lan ∷ []) (b'l' ∷ [])) ++ (9 ∷ [])))
    × ((added.srv 9).addr ≡ 44)
    × ((added.srv 9).inactive ≡ 0)
    × ((other : List ℕ)
        → other ≢ b'l' ∷ []
        → search_infnode added.inf_list other ≡ search_infnode (lan ∷ []) other)
    × ((b : ℕ) → b ≢ 9 → added.srv b ≡ before.srv b)
unfolding add_server split_colon streq
server_added =
    add_server_lem (λ n. true) inet_aton 9 44 optarg (b'4' ∷ []) (b'l' ∷ []) before added refl refl
      refl
