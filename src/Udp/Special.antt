-- ===== src/Udp/Special.antt =====
-- dnrd-2.20.3/src/udp.c with dns.c: the beginning of send2current, which looks for the special hosts
-- of the option -H; and snprintf_cname, which reads the name of the query.
use dnrd.Prelude.{
  ℕ, ◌+◌, Bool, true, false, ◌&&◌, ◌||◌, List, [], ◌∷◌, ◌==◌, if◌then◌else◌, length, take, codes,
}
use dnrd.Dns.Objname.{ok, root, bad, fault, stuck, get_objname}
use dnrd.Dns.Packet.{c_string}
use dnrd.Udp.Send.{strneq}

-- `special_hosts_t`.
pub record SpecialHost : Type 0 where
  pub host_name : List ℕ
  pub inf_name : List ℕ

-- `snprintf_cname`: the string in `dest`, which held `before`. For the root name nothing is written
-- to `dest[0]`. (`fault` and `stuck` do not occur: Objname/Safety.)
unfoldable pub snprintf_cname : (ℕ → Bool) → List ℕ → ℕ → List ℕ → ℕ → List ℕ
unfolding c_string
snprintf_cname valid msg index before destsize = elim (get_objname valid msg destsize index) [
  | ok i name ↦ c_string name
  | root i ↦ before
  | bad ↦ take destsize (codes "(malformatted)")
  | fault ↦ take destsize (codes "(malformatted)")
  | stuck ↦ take destsize (codes "(malformatted)")
]

-- `strncmp(host_name, query_host, strlen(query_host)) == 0`.
unfoldable pub is_special_host : List ℕ → List ℕ → Bool
unfolding strneq
is_special_host query_host host_name = strneq (length query_host) host_name query_host

-- The loop over `sp_hosts`, which fills `matched_intf`.
unfoldable pub match_hosts : List ℕ → List SpecialHost → List (List ℕ)
unfolding is_special_host
match_hosts query_host [] = []
match_hosts query_host (h ∷ l) =
    let rest = match_hosts query_host l in
    if is_special_host query_host h.host_name then take 9 h.inf_name ∷ rest else rest

-- `matched_intf` for a message; `before` is what `query_host` holds, of 30 bytes. (The list has no
-- bound; the array has room for five names, and a sixth is written behind it.)
unfoldable pub matched_interfaces : (ℕ → Bool) → List SpecialHost → List ℕ → List ℕ → List (List ℕ)
unfolding snprintf_cname match_hosts
matched_interfaces valid [] before msg = []
matched_interfaces valid (h ∷ l) before msg =
    match_hosts (snprintf_cname valid msg 12 before 30) (h ∷ l)

-- Whether the first text is the beginning of the second one.
unfoldable pub begins : List ℕ → List ℕ → Bool
begins [] b = true
begins (c ∷ a) [] = false
begins (c ∷ a) (d ∷ b) = c == d && begins a b

-- Whether an entry leads a name to an interface: the name is the beginning of the entry's host.
unfoldable pub leads : List ℕ → List ℕ → List SpecialHost → Bool
unfolding begins
leads name inf [] = false
leads name inf (h ∷ l) = (begins name h.host_name && strneq 9 inf h.inf_name) || leads name inf l

-- How many hosts a name is the beginning of.
unfoldable pub count_special : List ℕ → List SpecialHost → ℕ
unfolding begins
count_special name [] = 0
count_special name (h ∷ l) = (if begins name h.host_name then 1 else 0) + count_special name l
