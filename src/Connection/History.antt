-- ===== src/Connection/History.antt =====
-- The map of clients after any history of connections and disconnections.
use thunderchat_server.Base.{
  ℕ, ◌≡◌, refl, Bool, true, false, not, ◌&&◌, ◌||◌, some, List, [], ◌∷◌, arith, ltb, ◌==◌, includes,
  includes-append, includes-filter_ne, includes-filter_other, nat_eq, string_eq, eq_refl,
  nat_beq_iff, eq_iff, Bool-cases, inl, inr, All, length,
}
use thunderchat_server.Base.JsMap.{get}
use thunderchat_server.Connection.{
  Clients, Socket, add_connected_client, remove_connected_client, get_user_online_status, online,
}
use thunderchat_server.Connection.Sockets.{sockets_of, sockets_of-add, sockets_of-remove}

-- What happens to a user's socket.
pub data Event : Type 0 where
  connected disconnected : ℕ → Socket → Event

-- The map after a history, the newest event first.
pub clients_after : List Event → Clients
clients_after [] = []
clients_after (connected u c ∷ h) = add_connected_client (clients_after h) u c
clients_after (disconnected u c ∷ h) = remove_connected_client (clients_after h) u (some c)

-- The last event of the socket was a connection.
abbrev pub is_open : List Event → ℕ → Socket → Bool
is_open [] u c = false
is_open (connected v d ∷ h) u c = v == u && d == c || is_open h u c
is_open (disconnected v d ∷ h) u c = not (v == u && d == c) && is_open h u c

abbrev pub IsNamed : Event → Type 0
IsNamed (connected u c) = Unit {0}
IsNamed (disconnected u c) = (c == "") ≡ false

closed_socket :
    (m : Clients) (u v : ℕ) (k c : Socket)
    → (k == "") ≡ false
    → includes (sockets_of (remove_connected_client m v (some k)) u) c
      ≡ (not (v == u && k == c) && includes (sockets_of m u) c)
closed_socket m u v k c named = elim (Bool-cases (v == u)) [
  | inr other ↦ rw (sockets_of-remove m v u k named, other)
  | inl same ↦ elim (Bool-cases (c == k)) [
    | inl hit ↦ ground (
      arith,
      sockets_of-remove m v u k named,
      eq_iff c k,
      eq_refl k,
      nat_beq_iff v u,
      includes-filter_ne (sockets_of m v) k,
    )
    | inr miss ↦ ground (
      arith,
      sockets_of-remove m v u k named,
      eq_iff c k,
      eq_iff k c,
      nat_beq_iff v u,
      includes-filter_other (sockets_of m v) k c miss,
    )
  ]
]

opened_socket :
    (m : Clients) (u v : ℕ) (k c : Socket)
    → includes (sockets_of (add_connected_client m v k) u) c
      ≡ (v == u && k == c || includes (sockets_of m u) c)
opened_socket m u v k c =
    ground
      (arith, sockets_of-add m v u k, includes-append (sockets_of m v) (k ∷ []) c, nat_beq_iff v u)

-- After any history whose disconnections name their sockets, the map holds a socket of a user
-- exactly when the last event of that socket was a connection.
pub clients_after-is_open :
    (h : List Event) (u : ℕ) (c : Socket)
    → All IsNamed h
    → includes (sockets_of (clients_after h) u) c ≡ is_open h u c
unfolding clients_after get
clients_after-is_open [] u c n = refl
clients_after-is_open (connected v d ∷ h) u c n =
    rw (opened_socket (clients_after h) u v d c, clients_after-is_open h u c n.1)
clients_after-is_open (disconnected v d ∷ h) u c n =
    rw (closed_socket (clients_after h) u v d c n.0, clients_after-is_open h u c n.1)

pub nonempty_of_includes :
    (xs : List Socket) (c : Socket) → includes xs c ≡ true → ltb 0 (length xs) ≡ true
nonempty_of_includes [] c h = ground arith
nonempty_of_includes (x ∷ xs) c h = ground arith

-- After any history whose disconnections name their sockets, a user whose socket was last
-- connected is reported online.
pub online_of_open :
    (h : List Event) (u : ℕ) (c : Socket)
    → All IsNamed h
    → is_open h u c ≡ true
    → get_user_online_status (clients_after h) u ≡ online
unfolding get_user_online_status
online_of_open h u c n o =
    rw (
      nonempty_of_includes (sockets_of (clients_after h) u) c
        (rw (clients_after-is_open h u c n) o))
