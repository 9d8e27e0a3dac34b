-- ===== src/Relay/Local.antt =====
-- dnrd-2.20.3/src/relay.c with master.c: handle_query where the local database answers.
use dnrd.Prelude.{ℕ, Bool, List, none, some, if◌then◌else◌}
use dnrd.Dns.Packet.{Rr}
use dnrd.Master.{Database}
use dnrd.Master.Init.{Master}
use dnrd.Master.Lookup.{master_lookup}
use dnrd.Relay.{Looked}

-- The call of `master_lookup`, with its test of `master_onoff`, on an initialised database. Its
-- result is 0 or the length of the answer, and never negative.
unfoldable pub local_lookup : Bool → (ℕ → Bool) → Rr → Database → List ℕ → Looked
unfolding master_lookup
local_lookup master_onoff valid stack db msg =
    if master_onoff
    then elim (master_lookup valid stack db msg) [
      | none ↦ Looked.pass
      | some answer ↦ Looked.answer answer
    ]
    else Looked.pass
