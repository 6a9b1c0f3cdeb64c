-- ===== src/Pinger/Pings.antt =====
-- PingAll: the latencies that it leaves.
use proxima_scheduler.Prelude.{
  String, ◌||◌, ◌≡◌, refl, ap, ◌∙◌, Option, some, List, [], ◌∷◌, ◌++◌, ◌==◌, string_eq,
  if◌then◌else◌, arith,
}
use proxima_scheduler.Prelude.Int.{ℤ}
use proxima_scheduler.Map.{Map, keys, has-nil, has-insert, lookup-insert, IsUnique, insert-IsUnique}
use proxima_scheduler.Map
use proxima_scheduler.Pinger.{
  Pinger, key_eq, Ping, failed, unanswered, answered, note_ping, ping_each, ping_all,
}
use proxima_scheduler.Pinger.Addresses.{member, has-keys}

-- What the answer to a ping makes of the latency of its address.
abbrev pub pinged : Ping → Option ℤ → Option ℤ
pinged failed old = old
pinged unanswered old = old
pinged (answered rtt) old = some rtt

note_ping-lookup :
    (address a : String) (r : Ping) (p : Pinger)
    → Map.lookup a (note_ping address r p).latencies
      ≡ (if address == a then pinged r (Map.lookup a p.latencies) else Map.lookup a p.latencies)
unfolding note_ping
note_ping-lookup address a failed p = ground arith
note_ping-lookup address a unanswered p = ground arith
note_ping-lookup address a (answered rtt) p = lookup-insert address a rtt p.latencies

note_ping-rest :
    (address : String) (r : Ping) (p : Pinger)
    → IsUnique p.latencies
    → (note_ping address r p ≡ record p { latencies = (note_ping address r p).latencies })
      × IsUnique (note_ping address r p).latencies
unfolding note_ping
note_ping-rest address failed p u = (refl, u)
note_ping-rest address unanswered p u = (refl, u)
note_ping-rest address (answered rtt) p u = (refl, insert-IsUnique address rtt p.latencies u)

ping_each_lem :
    (ping : String → Ping) (addresses : List String) (p : Pinger)
    → IsUnique p.latencies
    → (ping_each ping addresses p ≡ record p { latencies = (ping_each ping addresses p).latencies })
      × IsUnique (ping_each ping addresses p).latencies
      × ((a : String)
          → Map.lookup a (ping_each ping addresses p).latencies ≡ (
              if member a addresses
              then pinged (ping a) (Map.lookup a p.latencies)
              else Map.lookup a p.latencies))
unfolding ping_each member
ping_each_lem ping [] p u = (refl, u, λ a. refl)
ping_each_lem ping (x ∷ xs) p u =
    let (same, unique) = note_ping-rest x (ping x) p u in
    let (same', unique', value) = ping_each_lem ping xs (note_ping x (ping x) p) unique in
    (
      same'
          ∙ ap
              (λ (q : Pinger). record q {
                latencies = (ping_each ping xs (note_ping x (ping x) p)).latencies;
              })
              same,
      unique',
      λ a. ground (
        arith,
        value a,
        note_ping-lookup x a (ping x) p,
        pinged_again (ping a) (Map.lookup a p.latencies),
        string_eq.equals_iff x a,
      ),
    )
  where
    pinged_again : (r : Ping) (old : Option ℤ) → pinged r (pinged r old) ≡ pinged r old
    pinged_again failed old = refl
    pinged_again unanswered old = refl
    pinged_again (answered rtt) old = refl

member-append :
    (a : String) (xs ys : List String) → member a (xs ++ ys) ≡ (member a xs || member a ys)
unfolding member
member-append a [] ys = refl
member-append a (x ∷ xs) ys = ground (arith, member-append a xs ys)

-- After PingAll by a pinger with one latency for an address, each known node and edge proxy that
-- answered has the latency of its answer, and all other latencies are what they were. There is still
-- one for an address, and nothing else of the pinger changes.
pub ping_all_lem :
    (ping : String → Ping) (p : Pinger)
    → IsUnique p.latencies
    → ((ping_all ping p).0 ≡ record p { latencies = (ping_all ping p).0.latencies })
      × IsUnique (ping_all ping p).0.latencies
      × ((a : String)
          → Map.lookup a (ping_all ping p).0.latencies ≡ (
              if Map.has a p.addr || member a p.edge_proxies
              then pinged (ping a) (Map.lookup a p.latencies)
              else Map.lookup a p.latencies))
unfolding ping_all
ping_all_lem ping p u =
    let (same, unique, value) = ping_each_lem ping (keys p.addr ++ p.edge_proxies) p u in
    (
      same,
      unique,
      λ a. ground (arith, value a, member-append a (keys p.addr) p.edge_proxies, has-keys a p.addr),
    )
