-- ===== src/WebSocket/Connections.antt =====
-- The table of connections.
use engram_mem.Base.{
  ◌≡◌, refl, ap, String, true, false, not, List, [], ◌∷◌, arith, length, filter_by, any_of, str_eq,
  str_eq_iff, str_eq_refl, if◌then◌else◌, inl, inr, Bool-cases, ◌==◌,
}
use engram_mem.Base.Dict.{put, pop, get-put, get-pop}
use engram_mem.WebSocket.{
  Connection, Connections, is_connection, connections_of, connect, disconnect, targets,
}

connections_of-put :
    (table : Connections) (tenant_id asked : String) (cs : List Connection)
    → connections_of (put table tenant_id cs) asked
      ≡ (if str_eq tenant_id asked then cs else connections_of table asked)
unfolding connections_of
connections_of-put table tenant_id asked cs = ground (arith, get-put table tenant_id cs asked)

connections_of-pop :
    (table : Connections) (tenant_id asked : String)
    → connections_of (pop table tenant_id) asked
      ≡ (if str_eq tenant_id asked then [] else connections_of table asked)
unfolding connections_of
connections_of-pop table tenant_id asked = ground (arith, get-pop table tenant_id asked)

empty_list : (cs : List Connection) → (length cs == 0) ≡ true → cs ≡ []
empty_list [] h = refl
empty_list (c ∷ cs) h = absurd (ground (arith, h))

-- What is left of a tenant's connections.
without_connection : Connection → List Connection → List Connection
without_connection c cs = filter_by (λ d. not (is_connection c d)) cs

connections_of-disconnect :
    (c : Connection) (tenant_id asked : String) (table : Connections)
    → connections_of (disconnect c tenant_id table) asked ≡ (
        if str_eq tenant_id asked
        then without_connection c (connections_of table tenant_id)
        else connections_of table asked)
unfolding disconnect without_connection
connections_of-disconnect c tenant_id asked table =
    let left = filter_by (λ d. not (is_connection c d)) (connections_of table tenant_id) in
    elim (Bool-cases (length left == 0)) [
      | inl e ↦ rw e (ground (arith, connections_of-pop table tenant_id asked, empty_list left e))
      | inr e ↦ rw e (connections_of-put table tenant_id asked left)
    ]

without_absent :
    (c : Connection) (cs : List Connection)
    → any_of (is_connection c) cs ≡ false
    → without_connection c cs ≡ cs
unfolding without_connection
without_absent c [] h = refl
without_absent c (d ∷ ds) h = ground (arith, without_absent c ds, h)

is_connection_self : (c : Connection) → is_connection c c ≡ true
is_connection_self (ws, sub) = ground (arith, str_eq_refl sub)

without_new :
    (c : Connection) (cs : List Connection)
    → any_of (is_connection c) cs ≡ false
    → without_connection c (c ∷ cs) ≡ cs
unfolding without_connection
without_new c cs h = ground (arith, is_connection_self c, without_absent c cs h)

-- A connection that ends leaves no trace: after a new connection and its disconnect every tenant has
-- the connections that it had, so that broadcasts reach the same sockets.
pub disconnect-connect :
    (c : Connection) (tenant_id asked exclude_sub : String) (table : Connections)
    → any_of (is_connection c) (connections_of table tenant_id) ≡ false
    → targets asked exclude_sub (disconnect c tenant_id (connect c tenant_id table))
      ≡ targets asked exclude_sub table
unfolding targets connect
disconnect-connect c tenant_id asked exclude_sub table h =
    let cs = connections_of table tenant_id in
    let added = connections_of-put table tenant_id tenant_id (c ∷ cs) in
    let others = connections_of-put table tenant_id asked (c ∷ cs) in
    let left = connections_of-disconnect c tenant_id asked (put table tenant_id (c ∷ cs)) in
    let same : connections_of (disconnect c tenant_id (put table tenant_id (c ∷ cs))) asked
        ≡ connections_of table asked =
      ground (
        arith,
        added,
        others,
        left,
        without_new c cs h,
        str_eq_refl tenant_id,
        str_eq_iff tenant_id asked,
      ) in
    rw h (ap (filter_by (λ d. not (str_eq d.1 exclude_sub))) same)
