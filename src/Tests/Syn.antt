-- ===== src/Tests/Syn.antt =====
-- A SYN from 2001:db8::1 port 1000 to 2001:db8::2 port 80.
use sixup.Common.{
  ℕ, ◌+◌, ◌≡◌, refl, true, false, List, [], ◌∷◌, ◌++◌, some, replicate, arith, be_bytes, not, ◌&&◌,
  leb, if◌then◌else◌,
}
use sixup.Netip.{ip6}
use sixup.SynReject.{SynFlow, SynRejecter, parse_syn, entry, add, syn_wait}
use sixup.SynReject.Pending.{
  IsOrderly, started, waits, drops, Reach-IsOrderly, at_once, then_drops, go_off, is_unopened,
  go_off-add,
}

abbrev remote : ℕ
remote = 0x20010db8000000000000000000000001

abbrev syn : List ℕ
syn =
    0x60
    ∷ (replicate 5 0
        ++ (6
            ∷ (64
                ∷ (be_bytes 16 remote
                    ++ (be_bytes 16 (remote + 1)
                        ++ (be_bytes 2 1000
                            ++ (be_bytes 2 80 ++ (replicate 9 0 ++ (2 ∷ replicate 6 0)))))))))

abbrev flow : SynFlow
flow = record {
  from = record { addr = ip6 remote; port = 1000 };
  to = record { addr = ip6 (remote + 1); port = 80 };
}

syn-flow : parse_syn syn ≡ some flow
unfolding parse_syn
syn-flow = refl

abbrev idle : SynRejecter
idle = record { pending = []; timers = []; sent = [] }

Reach-IsOrderly_example : IsOrderly (add (add idle 100 syn) 200 syn)
Reach-IsOrderly_example =
    Reach-IsOrderly (add (add idle 100 syn) 200 syn) 200
      (drops syn (waits 200 (omega arith) (drops syn (started 100))))

abbrev later : SynRejecter
later = add (add idle 100 syn) 200 syn

go_off-add_example :
    (entry flow later.timers ≡ some (100 + syn_wait))
    × ((go_off later flow (100 + syn_wait) false (some false) true).sent ≡ (
        if leb (100 + syn_wait) (100 + syn_wait)
          && (not false && (is_unopened (some false) && true))
        then (flow, syn) ∷ later.sent
        else later.sent))
go_off-add_example =
    go_off-add idle later 100 (100 + syn_wait) flow syn false (some false) true syn-flow
      (unfold entry in refl) (omega arith) (then_drops 200 syn at_once)
