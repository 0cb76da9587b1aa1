-- ===== src/ConnectionCache/Counts.antt =====
-- GetActiveConnectionCount on a sound cache.
use msg_courier.Prelude.{ℕ, suc, ◌+◌, ◌≡◌, ap, List, [], ◌∷◌, arith, length, All}
use msg_courier.Memory.{done, ◌>>=◌}
use msg_courier.ConnectionCache.{finish, Node, Table, Cache}
use msg_courier.ConnectionCache.Walk.{
  record_of, count_loop, get_active_connection_count, get_total_connection_entries,
}
use msg_courier.ConnectionCache.Sound.{IsLinked, IsSound}

count_loop-length :
    (t : Table) (count total : ℕ) (ns : List Node)
    → All (IsLinked t) ns
    → count + length ns ≡ total
    → count_loop t count ns ≡ done total
unfolding count_loop record_of
count_loop-length t count total [] k e = ap done (omega arith)
count_loop-length t count total (n ∷ ns) k e =
    rw (k.0.at, record_of)
      (rw (k.0.waiting) (count_loop-length t (suc count) total ns k.1 (omega arith)))

-- On a sound cache GetActiveConnectionCount returns what GetTotalConnectionEntries does: every
-- connection of the list waits.
pub count-eq-total :
    (c : Cache)
    → IsSound c
    → get_active_connection_count c
      ≡ done (get_total_connection_entries c, record c { cursor = finish })
unfolding get_active_connection_count get_total_connection_entries
count-eq-total c s =
    ap (λ o. o >>= λ n. done (n, record c { cursor = finish }))
      (count_loop-length c.table 0 (length c.active) c.active s.linked (omega arith))
