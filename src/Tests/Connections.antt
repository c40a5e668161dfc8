-- ===== src/Tests/Connections.antt =====
-- Two connections of user/daemon/daemon.cpp, of which one has authenticated.
use kvstore_lkm.Prelude.{
  ℕ, Bool, ◌==◌, ◌≡◌, refl, true, false, none, some, List, [], ◌∷◌, arith, codes, length-append,
}
use kvstore_lkm.Text.{decimal}
use kvstore_lkm.Message.{kv_insert, kv_get}
use kvstore_lkm.Hash.View.{contents}
use kvstore_lkm.Daemon.Connections.{Service, handle_events}
use kvstore_lkm.Daemon.Connections.Shared.{
  AllFit, Asked, events_of, shared_all, SharesMap, SharesAll, events-SharesAll,
}
use kvstore_lkm.Daemon.Connections.Isolated.{own, heard, AgreeOn, connections-Isolated}
use kvstore_lkm.Benchmark.Texts.{length-decimal}
use kvstore_lkm.Tests.World.{
  low_bits, one, one-IsValid, one_chains, one-IsShort, calm-IsLucky, setting, open_setting,
}

abbrev service : Service
service = record { kernel = one; file = none; authenticated = true ∷ false ∷ [] }

service-SharesMap : SharesMap 5 (true ∷ false ∷ []) (contents one) service
service-SharesMap = record {
  chains = one_chains;
  valid = one-IsValid;
  reads = λ q. refl;
  short = one-IsShort;
  same = refl;
}

abbrev asks : List Asked
asks =
    record { connection = 1; order = record { cmd = kv_get; key = 3; value = none } }
    ∷ record {
      connection = 0;
      order = record { cmd = kv_insert; key = 4; value = some (codes "a b") };
    }
    ∷ []

asks-AllFit : AllFit asks
asks-AllFit = (
  record { in_range = omega arith; has_value = tt; text = tt },
  omega (arith, length-decimal 3),
  (
    record { in_range = omega arith; has_value = (tt, ground arith); text = ground arith },
    omega (arith, length-decimal 4, length-append (decimal 4) (32 ∷ codes "a b")),
    tt,
  ),
)

events-SharesAll_example :
    SharesAll 5
      (true ∷ false ∷ [])
      (handle_events (events_of (λ i. setting) 0 asks) service)
      (shared_all (true ∷ false ∷ []) asks (contents one))
events-SharesAll_example =
    events-SharesAll (λ i. setting) 0 asks (true ∷ false ∷ []) service service-SharesMap
      (λ j. calm-IsLucky) asks-AllFit

-- The keys of the connection that has authenticated.
abbrev is_four : ℕ → Bool
is_four q = q == 4

connections-Isolated_example :
    (heard 0 asks (handle_events (events_of (λ i. setting) 0 asks) service).0
      ≡ (handle_events (events_of (λ i. open_setting) 0 (own 0 asks)) service).0)
    × AgreeOn is_four
        (contents (handle_events (events_of (λ i. setting) 0 asks) service).1.kernel)
        (contents (handle_events (events_of (λ i. open_setting) 0 (own 0 asks)) service).1.kernel)
connections-Isolated_example =
    connections-Isolated (λ i. setting) (λ i. open_setting) asks (true ∷ false ∷ []) service 0
      is_four service-SharesMap (λ j. calm-IsLucky) (λ j. calm-IsLucky) asks-AllFit
      (refl, (refl, tt))
