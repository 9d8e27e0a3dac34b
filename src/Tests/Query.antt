-- ===== src/Tests/Query.antt =====
-- A first query in an empty list, and lists of old queries.
use mathlib.Core.List.{Mem, mem-cons_self, erase}
use native.Mathlib.Decide.{ℕ_discrete}
use dnrd.Prelude.{
  ℕ, ◌/◌, ◌%◌, drop, false, ◌≡◌, ◌≢◌, refl, List, [], ◌∷◌, some, arith, ◌==◌, if◌then◌else◌,
}
use dnrd.Prelude.Int.{pos}
use dnrd.Qid.{Pool, qid_init_pool, qid_get, qid_pool_size}
use dnrd.Query.{Query, Queries, Outside, find_query, query_add, query_init}
use dnrd.Query.Add.{query_add_resend}
use dnrd.Query.Timeout.{too_old, query_timeout, query_timeout_total, query_timeout_skips}
use dnrd.Query.Invariant.{IsKept, query_init-IsKept, query_add-IsKept}

abbrev message : List ℕ
message = 18 ∷ 52 ∷ 1 ∷ 0 ∷ 0 ∷ 1 ∷ 0 ∷ 0 ∷ 0 ∷ 0 ∷ 0 ∷ 0 ∷ []

-- Three sockets, the address 5, and the random number 40.
abbrev outside : Outside
outside = record { sock = some 3 ∷ some 4 ∷ some 6 ∷ []; address = 5; random = 40 }

abbrev added : Queries
added = (query_add query_init outside (pos 200) 4 false 7 99 message 1000).0

added_is : (query_add query_init outside (pos 200) 4 false 7 99 message 1000).2 ≡ some 5
unfolding query_init query_add
added_is = refl

added_waits : Mem 5 added.qlist
unfolding query_init query_add
added_waits = mem-cons_self

added-IsKept : IsKept added
unfolding query_init qid_init_pool find_query
added-IsKept =
    query_add-IsKept query_init outside (pos 200) 4 7 99 1000 5 65535 false message
      query_init-IsKept refl (omega arith) refl tt added_is

-- Another random number.
abbrev elsewhere : Outside
elsewhere = record outside { random = 41 }

-- The same message again: the query's id goes out with its bytes the other way round.
resent :
    let (second, again, q) = query_add added outside (pos 200) 4 false 8 98 message 1001 in
    let (first, once, _) = query_add query_init outside (pos 200) 4 false 7 99 message 1000 in
    let id = (first.cell 5).my_qid in
    (once ≡ (id / 256 % 256) ∷ (id % 256) ∷ drop 2 message)
    × (again ≡ (id % 256) ∷ (id / 256 % 256) ∷ drop 2 message)
    × (q ≡ some 5)
    × (second.qlist ≡ first.qlist)
    × ((second.cell 5).client ≡ 99)
unfolding query_init find_query
resent =
    query_add_resend query_init outside outside (pos 200) 4 7 8 99 98 1000 1001 5 false false
      message message refl tt refl added_is

abbrev initial : Pool
initial = qid_init_pool qid_pool_size

abbrev taken : Pool
taken = (qid_get 40 initial).0

-- Queries that came at the time 10, but for the query 3, which came at 100; all live for 4 seconds.
abbrev old_cell : ℕ → Query
old_cell a = record {
  sock_arr = [];
  srv = 7;
  is_dummy = false;
  my_qid = a;
  client_qid = a;
  client = 99;
  serv_sent_cnt = pos 1;
  fail_msg = [];
  resp_sent = false;
  client_time = if a == 3 then 100 else 10;
  client_count = 1;
  ttl = 4;
  srv_list = [];
}

abbrev old_list : List ℕ → Queries
old_list l = record query_init { qlist = l; cell = old_cell }

sweep_ends : (s : Queries) × (query_timeout (old_list (1 ∷ 2 ∷ 3 ∷ [])) 102 ≡ some s)
sweep_ends = query_timeout_total (old_list (1 ∷ 2 ∷ 3 ∷ [])) 102

abbrev swept : List ℕ → Queries
swept l = (query_timeout_total (old_list l) 102).0

-- Both queries are old, and the second stays.
old_stays :
    ((swept (3 ∷ 1 ∷ 2 ∷ [])).qlist ≡ erase ℕ_discrete (3 ∷ 1 ∷ 2 ∷ []) 1)
    × (◌≢◌ {A = ℕ} 2 1 → Mem 2 (swept (3 ∷ 1 ∷ 2 ∷ [])).qlist)
unfolding too_old
old_stays =
    query_timeout_skips (old_list (3 ∷ 1 ∷ 2 ∷ [])) (swept (3 ∷ 1 ∷ 2 ∷ [])) 102 1 2 (3 ∷ []) refl
      (refl, tt) refl (query_timeout_total (old_list (3 ∷ 1 ∷ 2 ∷ [])) 102).1
