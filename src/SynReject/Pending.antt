-- ===== src/SynReject/Pending.antt =====
-- The table is bounded, each SYN in it has its one timer, and an error carries the SYN that it is
-- about.
use sixup.Common.{
  none_ne_some, ℕ, ◌≤◌, ◌<◌, ◌+◌, ◌≡◌, ◌↔◌, refl, ap, inl, inr, Bool, true, false, not, ◌&&◌, ◌||◌,
  List, [], ◌∷◌, Option, none, some, leb, if◌then◌else◌, length, All, arith, Bool-cases,
  Option-cases,
}
use sixup.Netip.Laws.{addr_port_eq_iff}
use package.sixup.SynReject.{
  SynFlow, flow_eq, syn_pending_max, SynRejecter, parse_syn, entry, without, waiting, add_flow, add,
  due, fire, packet_of, syn_wait,
}

flow_eq_iff : (f g : SynFlow) → (flow_eq f g ≡ true) ↔ (f ≡ g)
unfolding flow_eq
flow_eq_iff f g = ground (arith, addr_port_eq_iff f.from g.from, addr_port_eq_iff f.to g.to)

unfoldable pub flows {ℓ} : {A : Type ℓ} → List (SynFlow × A) → List SynFlow
flows [] = []
flows ((f, a) ∷ es) = f ∷ flows es

-- A SYN that is kept for the flow it is a SYN of.
abbrev pub IsSyn : SynFlow × List ℕ → Type 0
IsSyn e = parse_syn e.1 ≡ some e.0

unfoldable pub IsOrderly : SynRejecter → Type 0
IsOrderly r =
    (length r.pending ≤ syn_pending_max)
    × (flows r.timers ≡ flows r.pending)
    × All IsSyn r.pending
    × All IsSyn r.sent

length-without :
    {A : Type 0} (flow : SynFlow) (es : List (SynFlow × A)) → length (without flow es) ≤ length es
unfolding without
length-without flow [] = omega arith
length-without flow ((f, a) ∷ es) = ground (arith, length-without flow es)

-- `flow` is taken out of a list of flows.
without_flow : SynFlow → List SynFlow → List SynFlow
without_flow flow [] = []
without_flow flow (f ∷ fs) =
    let rest = without_flow flow fs in if flow_eq f flow then rest else f ∷ rest

flows-without :
    {A : Type 0} (flow : SynFlow) (es : List (SynFlow × A))
    → flows (without flow es) ≡ without_flow flow (flows es)
unfolding flows without without_flow
flows-without flow [] = refl
flows-without flow ((f, a) ∷ es) = elim (Bool-cases (flow_eq f flow)) [
  | inl same ↦ rw same (flows-without flow es)
  | inr other ↦ rw other (ap (◌∷◌ f) (flows-without flow es))
]

All-without :
    (flow : SynFlow) (es : List (SynFlow × List ℕ)) → All IsSyn es → All IsSyn (without flow es)
unfolding without
All-without flow [] h = tt
All-without flow ((f, a) ∷ es) h = elim (Bool-cases (flow_eq f flow)) [
  | inl same ↦ rw same (All-without flow es h.1)
  | inr other ↦ rw other (h.0, All-without flow es h.1)
]

entry-IsSyn :
    (flow : SynFlow) (pkt : List ℕ) (es : List (SynFlow × List ℕ))
    → All IsSyn es
    → entry flow es ≡ some pkt
    → parse_syn pkt ≡ some flow
unfolding entry
entry-IsSyn flow pkt [] h e = absurd (ground arith)
entry-IsSyn flow pkt ((f, p) ∷ es) h e = elim (Bool-cases (flow_eq f flow)) [
  | inl same ↦ ground (arith, flow_eq_iff f flow, h.0)
  | inr other ↦ entry-IsSyn flow pkt es h.1 (rw other at e)
]

add-IsOrderly : (r : SynRejecter) (now : ℕ) (pkt : List ℕ) → IsOrderly r → IsOrderly (add r now pkt)
unfolding IsOrderly add add_flow flows
add-IsOrderly r now pkt (few, same, kept, told) = elim (Option-cases (parse_syn pkt)) [
  | inl nothing ↦ rw nothing (few, same, kept, told)
  | inr (flow, is) ↦
      elim (Bool-cases (waiting (entry flow r.pending) || leb syn_pending_max (length r.pending))) [
        | inl full ↦ rw (is, full) (few, same, kept, told)
        | inr room ↦ rw (is, room) (ground arith, ap (◌∷◌ flow) same, (is, kept), told)
      ]
]

-- Is there an entry of the flow?
has : SynFlow → List SynFlow → Bool
has flow [] = false
has flow (f ∷ fs) = flow_eq f flow || has flow fs

entry-has :
    {A : Type 0} (flow : SynFlow) (a : A) (es : List (SynFlow × A))
    → entry flow es ≡ some a
    → has flow (flows es) ≡ true
unfolding entry flows has
entry-has flow a [] e = absurd (none_ne_some e)
entry-has flow a ((f, b) ∷ es) e = elim (Bool-cases (flow_eq f flow)) [
  | inl same ↦ rw same refl
  | inr other ↦ rw other (entry-has flow a es (rw other at e))
]

has-entry :
    {A : Type 0} (flow : SynFlow) (es : List (SynFlow × A))
    → has flow (flows es) ≡ true
    → (a : A) × (entry flow es ≡ some a)
unfolding entry flows has
has-entry flow [] h = absurd (ground arith)
has-entry flow ((f, b) ∷ es) h = elim (Bool-cases (flow_eq f flow)) [
  | inl same ↦ (b, rw same refl)
  | inr other ↦ let (a, e) = has-entry flow es (rw other at h) in (a, rw other e)
]

due-IsOrderly :
    (r : SynRejecter) (flow : SynFlow) (pkt : List ℕ) (conntrack : Option Bool) (takes : Bool)
    → IsOrderly r
    → parse_syn pkt ≡ some flow
    → IsOrderly (due r flow pkt conntrack takes)
unfolding IsOrderly due
due-IsOrderly r flow pkt none takes orderly is = orderly
due-IsOrderly r flow pkt (some true) takes orderly is = orderly
due-IsOrderly r flow pkt (some false) true (few, same, kept, told) is =
    (few, same, kept, (is, told))
due-IsOrderly r flow pkt (some false) false orderly is = orderly

fire-IsOrderly :
    (r : SynRejecter) (flow : SynFlow) (t : ℕ) (stopped : Bool) (conntrack : Option Bool)
    (takes : Bool)
    → entry flow r.timers ≡ some t
    → IsOrderly r
    → IsOrderly (fire r flow stopped conntrack takes)
unfolding fire IsOrderly packet_of
fire-IsOrderly r flow t stopped conntrack takes set (few, same, kept, told) =
    let (pkt, there) = has-entry flow r.pending (rw same at (entry-has flow t r.timers set)) in
    let left : SynRejecter = record r {
      pending = without flow r.pending;
      timers = without flow r.timers;
    } in
    let orderly : IsOrderly left = (
      omega (arith, length-without flow r.pending),
      rw (flows-without flow r.timers, flows-without flow r.pending, same) refl,
      All-without flow r.pending kept,
      told,
    ) in
    elim (Bool-cases stopped) [
      | inl ended ↦ rw ended orderly
      | inr runs ↦
          rw (runs, there)
            (due-IsOrderly left flow pkt conntrack takes orderly
              (entry-IsSyn flow pkt r.pending kept there))
    ]

-- The rejecter over time: packets come, and timers that are set go off once they are due.
pub data Reach : SynRejecter → ℕ → Type 0 where
  started : (now : ℕ) → Reach (record { pending = []; timers = []; sent = [] }) now
  waits : {r : SynRejecter} {t : ℕ} (now : ℕ) → t ≤ now → Reach r t → Reach r now
  drops : {r : SynRejecter} {now : ℕ} (pkt : List ℕ) → Reach r now → Reach (add r now pkt) now
  fires :
      {r : SynRejecter} {now : ℕ} (flow : SynFlow) (t : ℕ) (stopped : Bool)
      (conntrack : Option Bool) (takes : Bool)
      → entry flow r.timers ≡ some t
      → t ≤ now
      → Reach r now
      → Reach (fire r flow stopped conntrack takes) now

-- In every state that the SYN rejecter reaches by dropped packets, the passing of time and timers
-- that go off: at most 4096 SYNs wait, each has its own timer and no timer is left without its
-- SYN, and what waits or was sent for a flow is a SYN of that flow.
pub Reach-IsOrderly : (r : SynRejecter) (now : ℕ) → Reach r now → IsOrderly r
Reach-IsOrderly _ _ (started now) = unfold IsOrderly flows in (omega arith, refl, tt, tt)
Reach-IsOrderly _ _ (waits {r} {t} now le reach) = Reach-IsOrderly r t reach
Reach-IsOrderly _ _ (drops {r} {now} pkt reach) =
    add-IsOrderly r now pkt (Reach-IsOrderly r now reach)
Reach-IsOrderly _ _ (fires {r} {now} flow t stopped conntrack takes set le reach) =
    fire-IsOrderly r flow t stopped conntrack takes set (Reach-IsOrderly r now reach)

flow_eq_refl : (f : SynFlow) → flow_eq f f ≡ true
flow_eq_refl f = (flow_eq_iff f f).1 refl

-- The timer that `add` sets: it goes off where it is set and due, with what conntrack then says and
-- whether the socket takes the packet.
go_off_at : Option ℕ → SynRejecter → SynFlow → ℕ → Bool → Option Bool → Bool → SynRejecter
go_off_at none r flow now stopped conntrack takes = r
go_off_at (some t) r flow now stopped conntrack takes =
    if leb t now then fire r flow stopped conntrack takes else r

unfoldable pub go_off : SynRejecter → SynFlow → ℕ → Bool → Option Bool → Bool → SynRejecter
unfolding go_off_at
go_off r flow now stopped conntrack takes =
    go_off_at (entry flow r.timers) r flow now stopped conntrack takes

-- Steps that the rejecter takes before the timer of a flow goes off: any dropped packets, of that
-- flow too, and timers of other flows.
pub data Meanwhile (flow : SynFlow) (r : SynRejecter) : SynRejecter → Type 0 where
  at_once : Meanwhile flow r r
  then_drops :
      {s : SynRejecter} (now : ℕ) (pkt : List ℕ)
      → Meanwhile flow r s
      → Meanwhile flow r (add s now pkt)
  then_fires :
      {s : SynRejecter} (g : SynFlow) (stopped : Bool) (conntrack : Option Bool) (takes : Bool)
      → flow_eq g flow ≡ false
      → Meanwhile flow r s
      → Meanwhile flow r (fire s g stopped conntrack takes)

-- Conntrack has answered, and does not have the flow.
unfoldable pub is_unopened : Option Bool → Bool
is_unopened none = false
is_unopened (some opened) = not opened

fire_rest :
    (r : SynRejecter) (g : SynFlow) (stopped : Bool) (conntrack : Option Bool) (takes : Bool)
    → let after = fire r g stopped conntrack takes in
      (after.pending ≡ without g r.pending) × (after.timers ≡ without g r.timers)
unfolding fire due
fire_rest r g true conntrack takes = (refl, refl)
fire_rest r g false none takes = (refl, refl)
fire_rest r g false (some true) takes = (refl, refl)
fire_rest r g false (some false) true = (refl, refl)
fire_rest r g false (some false) false = (refl, refl)

abbrev Waits : SynFlow → List ℕ → ℕ → SynRejecter → Type 0
Waits flow pkt t r = (entry flow r.pending ≡ some pkt) × (entry flow r.timers ≡ some t)

entry-without :
    {A : Type 0} (flow g : SynFlow) (es : List (SynFlow × A))
    → flow_eq g flow ≡ false
    → entry flow (without g es) ≡ entry flow es
unfolding entry without
entry-without flow g [] other = refl
entry-without flow g ((f, a) ∷ es) other = elim (Bool-cases (flow_eq f g)) [
  | inl same ↦
      let apart : flow_eq f flow ≡ false = rw ((flow_eq_iff f g).0 same) other in
      rw (same, apart) (entry-without flow g es other)
  | inr kept ↦ elim (Bool-cases (flow_eq f flow)) [
    | inl here ↦ rw (kept, here) refl
    | inr further ↦ rw (kept, further) (entry-without flow g es other)
  ]
]

add-new :
    (r : SynRejecter) (now : ℕ) (flow : SynFlow) (pkt : List ℕ)
    → parse_syn pkt ≡ some flow
    → entry flow r.pending ≡ none
    → length r.pending < syn_pending_max
    → Waits flow pkt (now + syn_wait) (add r now pkt)
unfolding add add_flow entry waiting
add-new r now flow pkt is new room =
    let spare : leb syn_pending_max (length r.pending) ≡ false = ground arith in
    rw (is, new, spare, flow_eq_refl flow) (refl, refl)

add-Waits :
    (flow : SynFlow) (pkt : List ℕ) (t : ℕ) (r : SynRejecter) (now : ℕ) (other : List ℕ)
    → Waits flow pkt t r
    → Waits flow pkt t (add r now other)
unfolding add add_flow entry waiting
add-Waits flow pkt t r now other (kept, set) = elim (Option-cases (parse_syn other)) [
  | inl nothing ↦ rw nothing (kept, set)
  | inr (f, is) ↦
      elim (Bool-cases (waiting (entry f r.pending) || leb syn_pending_max (length r.pending))) [
        | inl full ↦ rw (is, full) (kept, set)
        | inr room ↦ elim (Bool-cases (flow_eq f flow)) [
          | inl same ↦
              let there : entry f r.pending ≡ some pkt = rw ((flow_eq_iff f flow).0 same) kept in
              let none_there : waiting (entry f r.pending) ≡ false = ground (arith, room) in
              absurd (ground (arith, rw there at none_there))
          | inr apart ↦ rw (is, room, apart) (kept, set)
        ]
      ]
]

fire-Waits :
    (flow : SynFlow) (pkt : List ℕ) (t : ℕ) (r : SynRejecter) (g : SynFlow) (stopped : Bool)
    (conntrack : Option Bool) (takes : Bool)
    → flow_eq g flow ≡ false
    → Waits flow pkt t r
    → Waits flow pkt t (fire r g stopped conntrack takes)
fire-Waits flow pkt t r g stopped conntrack takes other (kept, set) =
    let (p, q) = fire_rest r g stopped conntrack takes in
    rw (p, q, entry-without flow g r.pending other, entry-without flow g r.timers other) (kept, set)

Meanwhile-Waits :
    (flow : SynFlow) (pkt : List ℕ) (t : ℕ) (r s : SynRejecter)
    → Waits flow pkt t r
    → Meanwhile flow r s
    → Waits flow pkt t s
Meanwhile-Waits flow pkt t r _ h at_once = h
Meanwhile-Waits flow pkt t r _ h (then_drops {s} now other m) =
    add-Waits flow pkt t s now other (Meanwhile-Waits flow pkt t r s h m)
Meanwhile-Waits flow pkt t r _ h (then_fires {s} g stopped conntrack takes apart m) =
    fire-Waits flow pkt t s g stopped conntrack takes apart (Meanwhile-Waits flow pkt t r s h m)

-- A SYN that add takes, of a flow that does not wait and with room in the table, is sent by its
-- own timer: after any steps of any packets, retransmissions included, and of the timers of other
-- flows, its timer is set at six seconds after it came, and where it goes off, exactly one error
-- more is sent, with that SYN, if it is due then, the router runs, conntrack answers that it does
-- not have the flow and the socket takes the packet; otherwise none is.
pub go_off-add :
    (r s : SynRejecter) (now later : ℕ) (flow : SynFlow) (pkt : List ℕ) (stopped : Bool)
    (conntrack : Option Bool) (takes : Bool)
    → parse_syn pkt ≡ some flow
    → entry flow r.pending ≡ none
    → length r.pending < syn_pending_max
    → Meanwhile flow (add r now pkt) s
    → (entry flow s.timers ≡ some (now + syn_wait))
      × ((go_off s flow later stopped conntrack takes).sent ≡ (
          if leb (now + syn_wait) later && (not stopped && (is_unopened conntrack && takes))
          then (flow, pkt) ∷ s.sent
          else s.sent))
unfolding go_off fire due packet_of is_unopened
go_off-add r s now later flow pkt stopped conntrack takes is new room m =
    let (kept, set) =
      Meanwhile-Waits flow pkt (now + syn_wait) (add r now pkt) s
        (add-new r now flow pkt is new room) m in
    (set, rw (set, kept) (ground arith))
