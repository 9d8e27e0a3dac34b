-- ===== src/Tests/Special.antt =====
-- A special host whose queries go by one interface, and a name that is only its beginning.
use dnrd.Prelude.{ℕ, List, [], ◌∷◌, codes}
use dnrd.Udp.Special.{SpecialHost}

abbrev hosts : List SpecialHost
hosts = record { host_name = codes "a.bc"; inf_name = codes "lan" } ∷ []

abbrev head : List ℕ
head = 0 ∷ 0 ∷ 1 ∷ 0 ∷ 0 ∷ 1 ∷ 0 ∷ 0 ∷ 0 ∷ 0 ∷ 0 ∷ 0 ∷ []

abbrev labels : List (List ℕ)
labels = codes "a" ∷ codes "b" ∷ []
